-- ===== src/Protocol/Invariant/Participant.antt =====
-- An effect of a participant keeps what is shared in order, and leaves it safe.
pub mod Acts
use cornus.Base.{
  ℕ, suc, ◌≤◌, ◌+◌, String, ◌≡◌, ◌≢◌, refl, sym, subst, ap, Option, none, some, List, [], ◌∷◌, ◌++◌,
  All, arith, ◌⊎◌, inl, inr, Bool, true, false, ◌∙◌,
}
use cornus.Config.Transaction.{HostId, TransactionConfig}
use cornus.Dbms.Manager
use cornus.Dbms.Manager.{LogManager, LogAddress}
use cornus.Dbms.History.{decision_at}
use cornus.Dbms.Steps.{Holds, log_once_step, log_write_step}
use cornus.Handler.Prog.{
  RequestType, Packet, Cmd, Answer, send, wait, log_once, log_write, vote_request,
}
use cornus.Protocol.System.{
  In, update, update_self, update_ne, update_same, Shared, request_type, Effect, logs_once,
  logs_write, logs_read, sends, starts_timeout, receives, times_out, votes, commits, records,
}
use cornus.Protocol.World.{
  World, Later, Turn, counted, fresh, ready, spent, veto, yes_vote, tally, SomeVeto, AllYes, Legit,
  MaySend, Permit, Follow, log_at,
}
use cornus.Protocol.World.Mono.{Later-refl}
use cornus.Protocol.Invariant.{
  Seat, waiting, preempted, out, to_send, voted, Tells, PacketOk, SharedOk,
}
use cornus.Protocol.Invariant.Settle.{
  settle, settle-Later, mark_sent, mark_sent-Later, tally-mark_sent,
}
use cornus.Protocol.Invariant.Seats.{abort_logged, reseat, once_answer}
use cornus.Protocol.Invariant.Messages.{pushed, dequeued}

module _ (config : TransactionConfig) (p : HostId) (i : In p config.participants) (w : World)
    (turns : HostId → Turn) (n : ℕ) (s : Shared) (ok : SharedOk config w turns n s) where
  -- The participant goes to turn `t`, the others keep theirs.
  abbrev pub Moved : Shared → (World → Turn → Type 0) → Type 0
  Moved s' K =
      (w' : World) × (t' : Turn) × Later w w'
      × SharedOk config w' (update turns p t') n s'
      × K w' t'

  pub seat : Seat config w p (turns p) (decision_at s.dbms config.txid p)
  seat = ok.seats p i

  -- Only `p`'s seat changes, and its log now holds `r`.
  relogged :
      {w' : World}
      → Later w w'
      → (t' : Turn) (m : LogManager) (r : String) → Holds s.dbms m config.txid p r
      → ((q : HostId) → p ≢ q → (w'.verdict q ≡ w.verdict q) × (w'.sent q ≡ w.sent q))
      → Seat config w' p t' r
      → SharedOk config w' (update turns p t') n (record s { dbms = m })
  relogged {w'} l t' m r holds same new =
      reseat config ok l p m r holds
        (λ q ne. ((same q ne).0, (same q ne).1, update_ne turns p t' q ne))
        (λ _. rw (update_self turns p t') new)

  Holds-same : Holds s.dbms s.dbms config.txid p (decision_at s.dbms config.txid p)
  Holds-same = λ q. ground arith

  -- The same, with the logs left alone.
  moved :
      {w' : World}
      → Later w w'
      → (t' : Turn) → ((q : HostId) → p ≢ q → (w'.verdict q ≡ w.verdict q) × (w'.sent q ≡ w.sent q))
      → Seat config w' p t' (decision_at s.dbms config.txid p)
      → SharedOk config w' (update turns p t') n s
  moved l t' same new = relogged l t' s.dbms _ Holds-same same new

  -- LOG_ONCE("VOTEYES") on the own log, where the vote is still to be had.
  pub vote_logged :
      (r : String) (m : LogManager) (v : String) (K : World → Turn → String → Type 0)
      → r ≡ once_answer v "VOTEYES"
      → Holds s.dbms m config.txid p r
      → turns p ≡ fresh
      → Seat config w p (turns p) v
      → ((w' : World) → Later w w' → w'.verdict p ≡ yes_vote → K w' ready "VOTEYES")
      → ((w' : World) → Later w w' → SomeVeto config w' → K w' spent "ABORT")
      → Moved (record s { dbms = m }) (λ w' t'. K w' t' r)
  unfolding settle
  vote_logged r m v K a holds f (waiting t u b d) f_yes f_veto =
      let q : r ≡ "VOTEYES" = rw d at a in
      let w' = settle w p yes_vote u in
      let yes_now : w'.verdict p ≡ yes_vote = update_self w.verdict p yes_vote in
      (
        w',
        ready,
        settle-Later w p yes_vote u,
        relogged (settle-Later w p yes_vote u) ready m r holds
            (λ x ne. (update_ne w.verdict p yes_vote x ne, refl)) (to_send refl yes_now b q),
        rw q (f_yes w' (settle-Later w p yes_vote u) yes_now),
      )
  vote_logged r m v K a holds f (preempted t u b d) f_yes f_veto =
      let q : r ≡ "ABORT" = rw d at a in
      (
        w,
        spent,
        Later-refl w,
        relogged (Later-refl w) spent m r holds (λ x ne. (refl, refl)) (out refl u (inr q)),
        rw q (f_veto w (Later-refl w) (p, i, u)),
      )
  vote_logged r m v K a holds f (out t u d) f_yes f_veto = absurd (cc)
  vote_logged r m v K a holds f (to_send t u b d) f_yes f_veto = absurd (cc)
  vote_logged r m v K a holds f (voted t u d) f_yes f_veto = absurd (cc)

  -- The worker refuses.
  pub refused :
      (v : String) (K : World → Turn → Type 0)
      → v ≡ decision_at s.dbms config.txid p
      → turns p ≡ fresh
      → Seat config w p (turns p) v
      → ((w' : World) → Later w w' → SomeVeto config w' → K w' spent)
      → Moved s K
  unfolding settle
  refused v K a f (waiting t u b d) f_veto =
      let w' = settle w p veto u in
      let veto_now : w'.verdict p ≡ veto = update_self w.verdict p veto in
      (
        w',
        spent,
        settle-Later w p veto u,
        moved (settle-Later w p veto u) spent (λ x ne. (update_ne w.verdict p veto x ne, refl))
            (out refl veto_now (inl (sym a ∙ d))),
        f_veto w' (settle-Later w p veto u) (p, i, veto_now),
      )
  refused v K a f (preempted t u b d) f_veto = (
    w,
    spent,
    Later-refl w,
    moved (Later-refl w) spent (λ x ne. (refl, refl)) (out refl u (inr (sym a ∙ d))),
    f_veto w (Later-refl w) (p, i, u),
  )
  refused v K a f (out t u d) f_veto = absurd (cc)
  refused v K a f (to_send t u b d) f_veto = absurd (cc)
  refused v K a f (voted t u d) f_veto = absurd (cc)

  -- An effect that leaves the turn of `p` as it is.
  pub kept :
      {w' : World} (s' : Shared) (K : World → Turn → Type 0)
      → Later w w'
      → SharedOk config w' turns n s'
      → K w' (turns p)
      → Moved s' K
  kept {w'} s' K l o k = (
    w',
    turns p,
    l,
    record {
      seats = λ q j. rw (update_same turns p q) (o.seats q j);
      packets = o.packets;
      queues = o.queues;
      counts = o.counts;
    },
    k,
  )

  pub stays :
      {s' : Shared} (K : World → Turn → Type 0)
      → SharedOk config w turns n s'
      → K w (turns p)
      → Moved s' K
  stays {s'} K o k = kept s' K (Later-refl w) o k

  -- VOTEYES is sent: from now on the vote counts.
  vote_sent :
      (k : Packet) (v : String) (K : World → Turn → Type 0)
      → request_type k.endpoint ≡ some RequestType.vote_yes
      → k.to ≡ config.coordinator
      → v ≡ decision_at s.dbms config.txid p
      → turns p ≡ ready
      → Seat config w p (turns p) v
      → ((w' : World) → Later w w' → K w' spent)
      → Moved (record s { net = k ∷ s.net }) K
  unfolding mark_sent
  vote_sent k v K e g a f (waiting t u b d) next = absurd (cc)
  vote_sent k v K e g a f (preempted t u b d) next = absurd (cc)
  vote_sent k v K e g a f (out t u d) next = absurd (cc)
  vote_sent k v K e g a f (voted t u d) next = absurd (cc)
  vote_sent k v K e g a f (to_send t u b d) next =
      let w' = mark_sent w p u in
      let l = mark_sent-Later w p u in
      let o =
        moved l spent (λ x ne. (refl, update_ne w.sent p true x ne))
          (voted refl u (inl (sym a ∙ d))) in
      (
        w',
        spent,
        l,
        record {
          seats = o.seats;
          packets = (rw e g, o.packets);
          queues = o.queues;
          counts = rw e (omega (arith, ok.counts, tally-mark_sent w p u config.participants i b));
        },
        next w' l,
      )

  pub sent :
      (k : Packet) (K : Follow config (send k)) (o : Option RequestType)
      → request_type k.endpoint ≡ o
      → MaySend config p w (turns p) k (λ t'. (w' : World) → Later w w' → K w' t' tt) o
      → Moved (record s { net = k ∷ s.net }) (λ w' t'. K w' t' tt)
  sent k K none e h =
      stays (λ w' t'. K w' t' tt) (pushed config w turns n s k (rw e tt) (rw e) ok)
        (h w (Later-refl w))
  sent k K (some RequestType.abort) e h =
      stays (λ w' t'. K w' t' tt) (pushed config w turns n s k (rw e h.0) (rw e) ok)
        (h.1 w (Later-refl w))
  sent k K (some RequestType.commit) e h =
      stays (λ w' t'. K w' t' tt) (pushed config w turns n s k (rw e (h.0, h.1)) (rw e) ok)
        (h.2 w (Later-refl w))
  sent k K (some RequestType.vote_yes) e h =
      vote_sent k _ (λ w' t'. K w' t' tt) e h.0 refl h.2 seat h.3
  sent k K (some _) e h = absurd h
