-- ===== src/Protocol/Invariant/Participant/Acts.antt =====
-- Every effect of a participant that is permitted keeps what is shared in order.
use cornus.Base.{
  Bytes, ℕ, String, ◌≡◌, refl, subst, some, List, ◌∷◌, All, arith, inl, inr, Bool, true, false,
}
use cornus.Config.Transaction.{HostId, TransactionConfig}
use cornus.Dbms.Manager
use cornus.Dbms.Manager.{LogManager, LogAddress}
use cornus.Dbms.History.{decision_at}
use cornus.Dbms.Steps.{log_once_step, log_write_step}
use cornus.Handler.Prog.{RequestType, Cmd, Answer, wait, log_once, log_write, vote_request}
use cornus.Protocol.System.{
  In, update, Shared, request_type, Effect, logs_once, logs_write, logs_read, sends, starts_timeout,
  receives, times_out, votes, commits, records,
}
use cornus.Protocol.World.{World, Turn, Permit, Follow, log_at}
use cornus.Protocol.World.Mono.{Later-refl}
use cornus.Protocol.Invariant.{voted, Tells, SharedOk}
use cornus.Protocol.Invariant.Seats.{abort_logged, unchanged}
use cornus.Protocol.Invariant.Messages.{dequeued}
use cornus.Protocol.Invariant.Participant.{Moved, vote_logged, refused, kept, stays, sent}

module _ (config : TransactionConfig) (p : HostId) (i : In p config.participants)
    (apart : ¬ In config.coordinator config.participants) (w : World) (turns : HostId → Turn)
    (n : ℕ) (s : Shared) (ok : SharedOk config w turns n s) where
  abbrev Result : Shared → (World → Turn → Type 0) → Type 0
  Result s' K = Moved config p i w turns n s ok s' K

  abbrev stay :
      {s' : Shared} (K : World → Turn → Type 0)
      → SharedOk config w turns n s'
      → K w (turns p)
      → Result s' K
  stay = stays config p i w turns n s ok

  -- The first message of the queue is a decision, for the queue of a participant.
  received :
      (t : ℕ) (r : RequestType) (rest : List RequestType) (K : Follow config (wait t))
      → s.inbox p ≡ r ∷ rest
      → Tells config w p (some r)
      → Permit config p w (turns p) (wait t) K
      → Result (record s { inbox = update s.inbox p rest }) (λ w' t'. K w' t' (some r))
  received t RequestType.abort rest K e h k =
      stay (λ w' t'. K w' t' (some RequestType.abort))
        (dequeued config w turns n s p RequestType.abort rest n e (λ _. omega arith)
          (λ _. omega arith) ok)
        (k.1 w (Later-refl w) h)
  received t RequestType.commit rest K e h k =
      stay (λ w' t'. K w' t' (some RequestType.commit))
        (dequeued config w turns n s p RequestType.commit rest n e (λ _. omega arith)
          (λ _. omega arith) ok)
        (k.2 w (Later-refl w) h.0 h.1)
  received t RequestType.vote_yes rest K e h k =
      absurd (apart (subst (λ x. In x config.participants) h i))
  received t _ rest K e h k = absurd h

  logged_once :
      (d : String) (b : LogAddress) (r : String) (m : LogManager) (K : Follow config (log_once d b))
      → Manager.log_once s.dbms b d ≡ (some r, m)
      → Permit config p w (turns p) (log_once d b) K
      → Result (record s { dbms = m }) (λ w' t'. K w' t' r)
  logged_once d b r m K e (inl (h, q, j, g, k)) =
      let e' : Manager.log_once s.dbms (log_at config h) "ABORT" ≡ (some r, m) =
        subst (λ x. Manager.log_once s.dbms (log_at config h) x ≡ (some r, m)) g
          (subst (λ x. Manager.log_once s.dbms x d ≡ (some r, m)) q e) in
      let (w', l, reply, ok') = abort_logged config w turns n s h m r ok j e' in
      kept config p i w turns n s ok (record s { dbms = m }) (λ v t'. K v t' r) l ok'
        (k w' l r reply)
  logged_once d b r m K e (inr (q, g, f, f_yes, f_veto)) =
      let e' : Manager.log_once s.dbms (log_at config p) "VOTEYES" ≡ (some r, m) =
        subst (λ x. Manager.log_once s.dbms (log_at config p) x ≡ (some r, m)) g
          (subst (λ x. Manager.log_once s.dbms x d ≡ (some r, m)) q e) in
      let (answer, holds) = log_once_step s.dbms m config.txid p r "VOTEYES" e' in
      vote_logged config p i w turns n s ok r m (decision_at s.dbms config.txid p) K answer holds f
        (ok.seats p i) f_yes f_veto

  logged_write :
      (d : String) (b : LogAddress) (r : String) (m : LogManager)
      (K : Follow config (log_write d b))
      → Manager.log_write s.dbms b d ≡ (some r, m)
      → Permit config p w (turns p) (log_write d b) K
      → Result (record s { dbms = m }) (λ w' t'. K w' t' r)
  logged_write d b r m K e (q, j, f, y, g, k) =
      let (answer, holds) =
        log_write_step s.dbms m config.txid p r d
          (subst (λ x. Manager.log_write s.dbms x d ≡ (some r, m)) q e) in
      stay (λ w' t'. K w' t' r)
        (unchanged config w turns n s ok p m r holds (λ _. voted f y (inr (rw answer g))))
        (k w (Later-refl w) r)

  asked :
      (c : Bytes) (b : Bool) (K : Follow config (vote_request c))
      → Permit config p w (turns p) (vote_request c) K
      → Result s (λ w' t'. K w' t' b)
  asked c true K (f, k, x) = stay (λ w' t'. K w' t' true) ok (rw f (k w (Later-refl w)))
  asked c false K (f, k, x) =
      refused config p i w turns n s ok _ (λ w' t'. K w' t' false) refl f (ok.seats p i) x

  pub participant-Moved :
      (c : Cmd) (a : Answer c) (s' : Shared) (K : Follow config c)
      → Effect p s c a s'
      → Permit config p w (turns p) c K
      → Result s' (λ w' t'. K w' t' a)
  participant-Moved c a s' K (logs_once d b r m e) k = logged_once d b r m K e k
  participant-Moved c a s' K (logs_write d b r m e) k = logged_write d b r m K e k
  participant-Moved c a s' K (logs_read b r m e) k = absurd k
  participant-Moved c a s' K (sends x) k =
      sent config p i w turns n s ok x K (request_type x.endpoint) refl k
  participant-Moved c a s' K starts_timeout k = stay (λ w' t'. K w' t' a) ok (k w (Later-refl w))
  participant-Moved c a s' K (receives t r rest e) k =
      received t r rest K e (subst (All (λ x. Tells config w p (some x))) e (ok.queues p)).0 k
  participant-Moved c a s' K (times_out t e) k = stay (λ w' t'. K w' t' a) ok (k.0 w (Later-refl w))
  participant-Moved c a s' K (votes b v) k = asked b v K k
  participant-Moved c a s' K (commits h) k = stay (λ w' t'. K w' t' a) ok (k.1 w (Later-refl w))
  participant-Moved c a s' K (records e) k = stay (λ w' t'. K w' t' a) ok (k w (Later-refl w))
