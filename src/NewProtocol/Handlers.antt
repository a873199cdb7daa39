-- ===== src/NewProtocol/Handlers.antt =====
-- Sending to a group and `logFinal` are safe, with a safe program behind them.
pub mod Coordinator
pub mod Participant
use cornus.Base.{ℕ, String, ◌≡◌, refl, Bool-cases, none, some, List, [], ◌∷◌, inl, inr, Bytes, ◌==◌}
use cornus.Config.Transaction.{HostId, TransactionConfig}
use cornus.Handler.Prog.{Prog, ◌>>=◌}
use cornus.Handler.Sender.{Sender, send_group, send_to_participants}
use cornus.Handler.New.{override, replace_by, log_final}
use cornus.Node.Handlers.{callback}
use cornus.Protocol.World.{Turn}
use cornus.NewProtocol.Progress.{
  Progress, Grows, Committed, Grows-refl, Grows-trans, Committed-mono,
}
use cornus.Protocol.Mail.{one_vote}
use cornus.NewProtocol.System.{handlers_message}
use cornus.NewProtocol.Safe.{Conveys, SafeFrom}

module _ (s : Sender) {A : Type 0} (Post : Progress → A → Type 0) where
  abbrev pub From : Progress → Turn → Prog A → Type 0
  From = SafeFrom s.config s.hostname Post

  pub group_safe :
      (e : String) (c : Bytes) (w : Progress) (t : Turn) (f : Unit {0} → Prog A)
      → one_vote (handlers_message (callback e)) ≡ 0
      → ((w' : Progress) → Grows w w' → (h : HostId) → Conveys s.config w' h (callback e))
      → From w t (f tt)
      → (group : List HostId) → From w t (send_group s e c group >>= f)
  unfolding send_group
  group_safe e c w t f z allowed rest [] = rest
  group_safe e c w t f z allowed rest (h ∷ group) = λ v l.
      inl (allowed v l h, z, λ u m. group_safe e c w t f z allowed rest group u (Grows-trans l m))

  override_safe :
      (w : Progress) (t : Turn) (f : Unit {0} → Prog A) (prev : String)
      → Committed s.config w
      → From w t (f tt)
      → From w t (override s prev >>= f)
  unfolding override send_to_participants callback handlers_message
  override_safe w t f prev y rest = elim (Bool-cases (prev == "ABORT")) [
    | inl q ↦ rw q (
        group_safe "OVERRIDECOMMIT" _ w t f refl (λ v l h. Committed-mono s.config l y) rest
          s.config.participants)
    | inr q ↦ rw q rest
  ]

  replace_safe :
      (w : Progress) (t : Turn) (f : Unit {0} → Prog A) (prev : String)
      → Committed s.config w
      → From w t (f tt)
      → From w t (replace_by s "COMMIT" prev >>= f)
  unfolding replace_by
  replace_safe w t f prev y rest = elim (Bool-cases (prev == "COMMIT")) [
    | inl q ↦ rw q rest
    | inr q ↦ rw q (λ v l. (
      refl,
      inl (refl, Committed-mono s.config l y),
      λ u m r.
          override_safe u t f prev (Committed-mono s.config (Grows-trans l m) y)
            (λ x n. rest x (Grows-trans (Grows-trans l m) n)) u (Grows-refl u),
    ))
  ]

  -- `logFinal("COMMIT")`, once every worker has accepted.
  pub log_final_safe :
      (w : Progress) (t : Turn) (f : Unit {0} → Prog A) (txid : ℕ) (h : HostId)
      → Committed s.config w
      → From w t (f tt)
      → From w t (log_final s "COMMIT" txid h >>= f)
  unfolding log_final
  log_final_safe w t f txid h y rest = λ v l. (
    refl,
    λ u m prev _.
        replace_safe u t f prev (Committed-mono s.config (Grows-trans l m) y)
          (λ x n. rest x (Grows-trans (Grows-trans l m) n)) u (Grows-refl u),
  )
