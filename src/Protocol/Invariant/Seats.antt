-- ===== src/Protocol/Invariant/Seats.antt =====
-- A participant moves to another seat: the others keep theirs.
use cornus.Base.{
  ℕ, String, ◌≡◌, ◌≢◌, refl, sym, subst, Option, none, some, arith, inl, inr, Bytes-discrete,
  if◌then◌else◌, ◌==◌, if_pos, if_neg, ◌∙◌,
}
use cornus.Config.Transaction.{HostId, TransactionConfig}
use cornus.Dbms.Manager.{LogManager}
use cornus.Dbms.Manager
use cornus.Dbms.History.{decision_at}
use cornus.Dbms.Steps.{Holds, log_once_step}
use cornus.Handler.Prog.{RequestType}
use cornus.Protocol.System.{In, update_self, update_ne, Shared, request_type}
use cornus.Protocol.World.{World, Later, veto, Turn, Reply, log_at}
use cornus.Protocol.World.Mono.{
  Later-refl, All-mono, tally_mono, AllYes-mono, SomeVeto-mono, Legit-mono,
}
use cornus.Protocol.Invariant.{Seat, waiting, preempted, out, to_send, voted, Tells, SharedOk}
use cornus.Protocol.Invariant.Settle.{settle, settle-Later}

module _ (config : TransactionConfig) where
  module _ {w w' : World} (l : Later w w') where
    pub Seat-keep :
        (p : HostId) (t : Turn) (v : String)
        → w'.verdict p ≡ w.verdict p
        → w'.sent p ≡ w.sent p
        → Seat config w p t v
        → Seat config w' p t v
    Seat-keep p t v e f (waiting a b c d) = waiting a (e ∙ b) (f ∙ c) d
    Seat-keep p t v e f (preempted a b c d) = preempted a (e ∙ b) (f ∙ c) d
    Seat-keep p t v e f (out a b c) = out a (e ∙ b) c
    Seat-keep p t v e f (to_send a b c d) = to_send a (e ∙ b) (f ∙ c) d
    Seat-keep p t v e f (voted a b (inl c)) = voted a (e ∙ b) (inl c)
    Seat-keep p t v e f (voted a b (inr c)) = voted a (e ∙ b) (inr (Legit-mono config l v c))

    pub Tells-mono :
        (h : HostId) (o : Option RequestType) → Tells config w h o → Tells config w' h o
    Tells-mono h none t = tt
    Tells-mono h (some RequestType.abort) t = SomeVeto-mono config l t
    Tells-mono h (some RequestType.commit) t = (AllYes-mono config l t.0, t.1)
    Tells-mono h (some RequestType.vote_yes) t = t
    Tells-mono h (some _) t = t

  -- `h` takes a new seat, with `r` in its log.
  pub reseat :
      {w w' : World} {turns turns' : HostId → Turn} {votes : ℕ} {s : Shared}
      → SharedOk config w turns votes s
      → Later w w'
      → (h : HostId) (m : LogManager) (r : String) → Holds s.dbms m config.txid h r
      → ((p : HostId)
          → h ≢ p
          → (w'.verdict p ≡ w.verdict p) × (w'.sent p ≡ w.sent p) × (turns' p ≡ turns p))
      → (In h config.participants → Seat config w' h (turns' h) r)
      → SharedOk config w' turns' votes (record s { dbms = m })
  reseat {w} {w'} {turns} {turns'} {votes} {s} ok l h m r holds same seat = record {
    seats = λ p i. elim (Bytes-discrete h p) [
      | yes e ↦
          subst (λ q. Seat config w' q (turns' q) (decision_at m config.txid q)) e
            (rw (holds h, if_pos _ refl) (seat (subst (λ q. In q config.participants) (sym e) i)))
      | no n ↦
          rw ((same p n).2, holds p, if_neg _ n)
            (Seat-keep l p (turns p) _ (same p n).0 (same p n).1 (ok.seats p i))
    ];
    packets = All-mono (λ p t. Tells-mono l p.to (request_type p.endpoint) t) s.net ok.packets;
    queues = λ q. All-mono (λ x t. Tells-mono l q (some x) t) (s.inbox q) (ok.queues q);
    counts = omega (arith, ok.counts, tally_mono l config.participants);
  }

-- What LOG_ONCE answers where the log holds `v`.
abbrev pub once_answer : String → String → String
once_answer v d = if v == "WORKING" then d else v

module _ (config : TransactionConfig) (w : World) (turns : HostId → Turn) (votes : ℕ)
    (s : Shared) where
  -- The log of `h` keeps what it holds, which is not WORKING.
  pub unchanged :
      SharedOk config w turns votes s
      → (h : HostId) (m : LogManager) (r : String) → Holds s.dbms m config.txid h r
      → (In h config.participants → Seat config w h (turns h) r)
      → SharedOk config w turns votes (record s { dbms = m })
  unchanged ok h m r holds seat =
      reseat config ok (Later-refl w) h m r holds (λ p n. (refl, refl, refl)) seat

  abbrev pub Aborted : HostId → LogManager → String → Type 0
  Aborted h m r =
      (w' : World) × Later w w'
      × Reply config w' h r
      × SharedOk config w' turns votes (record s { dbms = m })

  abort_seated :
      (h : HostId) (m : LogManager) (r v : String)
      → SharedOk config w turns votes s
      → In h config.participants
      → r ≡ once_answer v "ABORT"
      → Holds s.dbms m config.txid h r
      → Seat config w h (turns h) v
      → Aborted h m r
  unfolding settle
  abort_seated h m r v ok i a holds (waiting t u n d) =
      let q : r ≡ "ABORT" = rw d at a in
      (
        settle w h veto u,
        settle-Later w h veto u,
        inl (inr (q, (h, i, update_self w.verdict h veto))),
        reseat config ok (settle-Later w h veto u) h m r holds
            (λ p ne. (update_ne w.verdict h veto p ne, refl, refl))
            (λ _. preempted t (update_self w.verdict h veto) n q),
      )
  abort_seated h m r v ok i a holds (preempted t u n d) =
      let q : r ≡ "ABORT" = rw d at a in
      (w, Later-refl w, inl (inr (q, (h, i, u))), unchanged ok h m r holds (λ _. preempted t u n q))
  abort_seated h m r v ok i a holds (out t u (inl d)) =
      let q : r ≡ "ABORT" = rw d at a in
      (w, Later-refl w, inl (inr (q, (h, i, u))), unchanged ok h m r holds (λ _. out t u (inr q)))
  abort_seated h m r v ok i a holds (out t u (inr d)) =
      let q : r ≡ "ABORT" = rw d at a in
      (w, Later-refl w, inl (inr (q, (h, i, u))), unchanged ok h m r holds (λ _. out t u (inr q)))
  abort_seated h m r v ok i a holds (to_send t u n d) =
      let q : r ≡ "VOTEYES" = rw d at a in
      (w, Later-refl w, inr (q, u), unchanged ok h m r holds (λ _. to_send t u n q))
  abort_seated h m r v ok i a holds (voted t u (inl d)) =
      let q : r ≡ "VOTEYES" = rw d at a in
      (w, Later-refl w, inr (q, u), unchanged ok h m r holds (λ _. voted t u (inl q)))
  abort_seated h m r v ok i a holds (voted t u (inr (inl (d, y)))) =
      let q : r ≡ "COMMIT" = rw d at a in
      (
        w,
        Later-refl w,
        inl (inl (q, y)),
        unchanged ok h m r holds (λ _. voted t u (inr (inl (q, y)))),
      )
  abort_seated h m r v ok i a holds (voted t u (inr (inr (d, x)))) =
      let q : r ≡ "ABORT" = rw d at a in
      (
        w,
        Later-refl w,
        inl (inr (q, x)),
        unchanged ok h m r holds (λ _. voted t u (inr (inr (q, x)))),
      )

  -- LOG_ONCE("ABORT") on the log of a participant, by anyone: a vote that is not settled becomes a
  -- veto, and any other answer tells what is settled.
  pub abort_logged :
      (h : HostId) (m : LogManager) (r : String)
      → SharedOk config w turns votes s
      → In h config.participants
      → Manager.log_once s.dbms (log_at config h) "ABORT" ≡ (some r, m)
      → Aborted h m r
  abort_logged h m r ok i e =
      let (answer, holds) = log_once_step s.dbms m config.txid h r "ABORT" e in
      abort_seated h m r (decision_at s.dbms config.txid h) ok i answer holds (ok.seats h i)
