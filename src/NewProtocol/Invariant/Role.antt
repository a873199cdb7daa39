-- ===== src/NewProtocol/Invariant/Role.antt =====
-- What an effect does to the shared state, whichever thread makes it: a role says what becomes of each
-- kind of change.
use cornus.Base.{
  ℕ, String, ◌≡◌, subst, Bool, true, false, none, some, List, ◌∷◌, inl, inr, Bytes, Bytes-discrete,
  ◌∙◌, sym,
}
use cornus.Config.Transaction.{HostId, TransactionConfig}
use cornus.Dbms.Manager
use cornus.Dbms.Manager.{LogManager, LogAddress}
use cornus.Dbms.Steps.{Holds-self, Holds-other, log_read_step, log_write_step}
use cornus.Handler.Prog.{
  RequestType, vote_yes, Packet, Cmd, wait, vote_request, record_event, Answer,
}
use cornus.Node.Handlers.{handlers, on_old_request, callback}
use cornus.Protocol.System.{
  Shared, Effect, logs_once, logs_write, logs_read, sends, starts_timeout, receives, times_out,
  votes, commits, records, update,
}
use cornus.Protocol.World.{Turn, ready, spent, log_at}
use cornus.NewProtocol.Progress.{Progress, Grows, Committed, Follow, Grows-refl}
use cornus.Protocol.Mail.{one_vote}
use cornus.NewProtocol.System.{accepts, gives_up}
use cornus.NewProtocol.Safe.{Sound, Permit}
use cornus.NewProtocol.Invariant.{LogsOk, PacketOk, queue_message}

-- `R b g s' K`: in the new shared state `s'` what follows is justified by `K`; `b` says that a worker has
-- accepted in this effect, `g` that a wait has timed out.
pub record Role (config : TransactionConfig) (me : HostId) (w : Progress) (t : Turn) (s : Shared)
    (R : Bool → Bool → Shared → (Progress → Turn → Type 0) → Type 0) : Type 1 where
  pub unchanged : (K : Progress → Turn → Type 0) → K w t → R false false s K
  pub logged :
      (m : LogManager) (K : Progress → Turn → Type 0)
      → LogsOk config w m
      → K w t
      → R false false (record s { dbms = m }) K
  pub mailed :
      (p : Packet) (K : Progress → Turn → Type 0)
      → PacketOk config w p
      → one_vote (queue_message p.endpoint) ≡ 0
      → K w t
      → R false false (record s { net = p ∷ s.net }) K
  pub voted :
      (p : Packet) (K : Progress → Turn → Type 0)
      → callback p.endpoint ≡ some (on_old_request vote_yes handlers)
      → p.to ≡ config.coordinator
      → t ≡ ready
      → ((w' : Progress) → Grows w w' → K w' spent)
      → R false false (record s { net = p ∷ s.net }) K
  pub received :
      (n : ℕ) (r : RequestType) (rest : List RequestType) (K : Follow (wait n))
      → s.inbox me ≡ r ∷ rest
      → Permit config me w t (wait n) K
      → R false false (record s { inbox = update s.inbox me rest }) (λ w' t'. K w' t' (some r))
  pub timed :
      (n : ℕ) (K : Follow (wait n))
      → Permit config me w t (wait n) K
      → R false true s (λ w' t'. K w' t' none)
  pub noted :
      (e : Bytes) (K : Follow (record_event e))
      → Permit config me w t (record_event e) K
      → R false false s (λ w' t'. K w' t' tt)
  pub asked :
      (c : Bytes) (b : Bool) (K : Follow (vote_request c))
      → Permit config me w t (vote_request c) K
      → R b false s (λ w' t'. K w' t' b)

module _ (config : TransactionConfig) (w : Progress) (s : Shared)
    (ok : LogsOk config w s.dbms) where
  write_keeps :
      (h : HostId) (d r : String) (m : LogManager)
      → Manager.log_write s.dbms (log_at config h) d ≡ (some r, m)
      → Sound config w d
      → LogsOk config w m
  write_keeps h d r m e g = λ q c.
      let (answer, holds) = log_write_step s.dbms m config.txid h r d e in
      elim (Bytes-discrete h q) [
        | yes i ↦ elim g [
          | inl (x, y) ↦ y
          | inr x ↦
              let now : ◌≡◌ {A = String} "ABORT" "COMMIT" =
                sym (answer ∙ x) ∙ sym (Holds-self s.dbms m config.txid h r holds q i) ∙ c in
              absurd (cc)
        ]
        | no n ↦ ok q (sym (Holds-other s.dbms m config.txid h r holds q n) ∙ c)
      ]

  read_keeps :
      (h : HostId) (r : String) (m : LogManager)
      → Manager.log_read s.dbms (log_at config h) ≡ (some r, m)
      → (r ≡ "COMMIT" → Committed config w) × LogsOk config w m
  read_keeps h r m e =
      let (answer, same) = log_read_step s.dbms m config.txid h r e in
      ((λ c. ok h (sym answer ∙ c)), (λ q c. ok q (sym (same q) ∙ c)))

module _ (config : TransactionConfig) (me : HostId) (w : Progress) (t : Turn) (s : Shared)
    (R : Bool → Bool → Shared → (Progress → Turn → Type 0) → Type 0) (role : Role config me w t s R)
    (ok : LogsOk config w s.dbms) where
  -- An effect that is permitted is one of the changes that the role knows.
  pub effect_kept :
      (c : Cmd) (a : Answer c) (s' : Shared) (K : Follow c)
      → Effect me s c a s'
      → Permit config me w t c K
      → R (accepts c a) (gives_up c a) s' (λ w' t'. K w' t' a)
  unfolding accepts gives_up
  effect_kept c a s' K (logs_once d b r m e) k = absurd k
  effect_kept c a s' K (logs_write d b r m e) (q, g, k) =
      role.logged m (λ w' t'. K w' t' r)
        (write_keeps config w s ok me d r m
          (subst (λ x. Manager.log_write s.dbms x d ≡ (some r, m)) q e) g)
        (k w (Grows-refl w) r)
  effect_kept c a s' K (logs_read b r m e) (q, k) =
      let (held, logs) =
        read_keeps config w s ok me r m
          (subst (λ x. Manager.log_read s.dbms x ≡ (some r, m)) q e) in
      role.logged m (λ w' t'. K w' t' r) logs (k w (Grows-refl w) r held)
  effect_kept c a s' K (sends p) (inl (h, z, k)) =
      role.mailed p (λ w' t'. K w' t' tt) h z (k w (Grows-refl w))
  effect_kept c a s' K (sends p) (inr (e, g, f, k)) = role.voted p (λ w' t'. K w' t' tt) e g f k
  effect_kept c a s' K starts_timeout k = role.unchanged (λ w' t'. K w' t' tt) (k w (Grows-refl w))
  effect_kept c a s' K (receives n r rest e) k = role.received n r rest K e k
  effect_kept c a s' K (times_out n e) k = role.timed n K k
  effect_kept c a s' K (votes b v) k = role.asked b v K k
  effect_kept c a s' K (commits h) k = role.unchanged (λ w' t'. K w' t' tt) (k.1 w (Grows-refl w))
  effect_kept c a s' K (records e) k = role.noted e K k
