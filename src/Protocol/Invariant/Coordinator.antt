-- ===== src/Protocol/Invariant/Coordinator.antt =====
-- An effect of the coordinator keeps what is shared in order, and leaves it safe.
use cornus.Base.{ℕ, suc, ◌≡◌, refl, subst, Option, none, some, List, ◌∷◌, All, arith, inl, inr}
use cornus.Config.Transaction.{HostId, TransactionConfig}
use cornus.Dbms.Manager
use cornus.Handler.Prog.{RequestType, Packet, Cmd, Answer, send, wait}
use cornus.Protocol.System.{
  update, Shared, request_type, Effect, logs_once, logs_write, logs_read, sends, starts_timeout,
  receives, times_out, votes, commits, records,
}
use cornus.Protocol.World.{
  World, Later, Turn, counted, fresh, ready, spent, MaySend, Permit, Follow, log_at,
}
use cornus.Protocol.World.Mono.{Later-refl}
use cornus.Protocol.Invariant.{Tells, SharedOk}
use cornus.Protocol.Invariant.Seats.{abort_logged}
use cornus.Protocol.Invariant.Messages.{pushed, dequeued}

module _ (config : TransactionConfig) where
  abbrev me : HostId
  me = config.coordinator

  abbrev pub Acted : World → (HostId → Turn) → Shared → (World → Turn → Type 0) → Type 0
  Acted w turns s K =
      (w' : World) × (n : ℕ) × Later w w' × SharedOk config w' turns n s × K w' (counted n)

  module _ (w : World) (turns : HostId → Turn) (n : ℕ) (s : Shared)
      (ok : SharedOk config w turns n s) where
    sent :
        (p : Packet) (K : Follow config (send p)) (o : Option RequestType)
        → request_type p.endpoint ≡ o
        → MaySend config me w (counted n) p (λ t'. (w' : World) → Later w w' → K w' t' tt) o
        → Acted w turns (record s { net = p ∷ s.net }) (λ w' t'. K w' t' tt)
    sent p K none e k =
        (w, n, Later-refl w, pushed config w turns n s p (rw e tt) (rw e) ok, k w (Later-refl w))
    sent p K (some RequestType.abort) e k =
        (w, n, Later-refl w, pushed config w turns n s p (rw e k.0) (rw e) ok, k.1 w (Later-refl w))
    sent p K (some RequestType.commit) e k = (
      w,
      n,
      Later-refl w,
      pushed config w turns n s p (rw e (k.0, k.1)) (rw e) ok,
      k.2 w (Later-refl w),
    )
    sent p K (some RequestType.vote_yes) e k = let clash : counted n ≡ ready = k.2 in absurd (cc)
    sent p K (some _) e k = absurd k

    received :
        (t : ℕ) (r : RequestType) (rest : List RequestType) (K : Follow config (wait t))
        → s.inbox me ≡ r ∷ rest
        → Tells config w me (some r)
        → Permit config me w (counted n) (wait t) K
        → Acted w turns (record s { inbox = update s.inbox me rest }) (λ w' t'. K w' t' (some r))
    received t RequestType.abort rest K e h k = (
      w,
      n,
      Later-refl w,
      dequeued config w turns n s me RequestType.abort rest n e (λ _. omega arith)
          (λ _. omega arith) ok,
      k.1 w (Later-refl w) h,
    )
    received t RequestType.commit rest K e h k = absurd (h.1 refl)
    received t RequestType.vote_yes rest K e h k =
        let after : SharedOk config w turns (suc n) (record s { inbox = update s.inbox me rest }) =
          dequeued config w turns n s me RequestType.vote_yes rest (suc n) e (λ _. omega arith)
            (λ f. absurd (f refl)) ok in
        (w, suc n, Later-refl w, after, k.3 w (Later-refl w) n refl (omega (arith, after.counts)))
    received t _ rest K e h k = absurd h

    pub coordinator-Acted :
        (c : Cmd) (a : Answer c) (s' : Shared) (K : Follow config c)
        → Effect me s c a s'
        → Permit config me w (counted n) c K
        → Acted w turns s' (λ w' t'. K w' t' a)
    coordinator-Acted c a s' K (logs_once d b r m e) (inl (h, q, i, g, k)) =
        let e' : Manager.log_once s.dbms (log_at config h) "ABORT" ≡ (some r, m) =
          subst (λ x. Manager.log_once s.dbms (log_at config h) x ≡ (some r, m)) g
            (subst (λ x. Manager.log_once s.dbms x d ≡ (some r, m)) q e) in
        let (w', l, reply, ok') = abort_logged config w turns n s h m r ok i e' in
        (w', n, l, ok', k w' l r reply)
    coordinator-Acted c a s' K (logs_once d b r m e) (inr (q, g, f, x, y)) = absurd (cc)
    coordinator-Acted c a s' K (logs_write d b r m e) k =
        let clash : counted n ≡ spent = k.2 in absurd (cc)
    coordinator-Acted c a s' K (logs_read b r m e) k = absurd k
    coordinator-Acted c a s' K (sends p) k = sent p K (request_type p.endpoint) refl k
    coordinator-Acted c a s' K starts_timeout k = (w, n, Later-refl w, ok, k w (Later-refl w))
    coordinator-Acted c a s' K (receives t r rest e) k =
        received t r rest K e (subst (All (λ x. Tells config w me (some x))) e (ok.queues me)).0 k
    coordinator-Acted c a s' K (times_out t e) k = (w, n, Later-refl w, ok, k.0 w (Later-refl w))
    coordinator-Acted c a s' K (votes b v) k = let clash : counted n ≡ fresh = k.0 in absurd (cc)
    coordinator-Acted c a s' K (commits h) k = (w, n, Later-refl w, ok, k.1 w (Later-refl w))
    coordinator-Acted c a s' K (records e) k = (w, n, Later-refl w, ok, k w (Later-refl w))
