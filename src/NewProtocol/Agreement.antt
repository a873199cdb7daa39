-- ===== src/NewProtocol/Agreement.antt =====
-- What holds in every reachable state of one transaction of the new version.
use cornus.Base.{
  ℕ, String, ◌≡◌, ◌≢◌, subst, true, some, Option, List, ◌∷◌, ◌++◌, All, All-middle, ◌⊎◌, inl, inr,
  sym, ◌∙◌,
}
use cornus.Config.Transaction.{HostId, TransactionConfig}
use cornus.Config.Host.{HostConfig}
use cornus.Dbms.History.{decision_at}
use cornus.Handler.Prog.{Prog, ret, crash, act, work_commit}
use cornus.Protocol.System.{In}
use cornus.Protocol.World.{yes_vote, aside}
use cornus.Protocol.World.Mono.{All-mono}
use cornus.Protocol.Agreement.{All-In}
use cornus.NewProtocol.System.{System, Thread, Reach}
use cornus.NewProtocol.Progress.{Progress, Committed}
use cornus.NewProtocol.Safe.{Decided, Safe}
use cornus.NewProtocol.Handlers.Coordinator.{CoordPost, Done}
use cornus.NewProtocol.Handlers.Participant.{PartPost}
use cornus.NewProtocol.Invariant.{Inv, ThreadOk, BackgroundOk}
use cornus.NewProtocol.Preserve.{Reach-Inv}

-- Somewhere the transaction has been committed: a handler has returned COMMIT, is about to hand the
-- transaction to its worker, or has left COMMIT in the transaction's log.
pub data Commits (config : TransactionConfig) (s : System) : Type 0 where
  coordinator_commits : s.coord ≡ ret (some "COMMIT") → Commits config s
  participant_commits :
      (p : HostId) → In p config.participants → s.part p ≡ ret "COMMIT" → Commits config s
  participant_works :
      (p h : HostId) (k : Unit {0} → Prog String)
      → In p config.participants
      → s.part p ≡ act (work_commit h) k
      → Commits config s
  thread_works :
      (ts us : List Thread) (t : Thread) (h : HostId) (k : Unit {0} → Prog String)
      → s.threads ≡ ts ++ t ∷ us
      → t.prog ≡ act (work_commit h) k
      → Commits config s
  log_commits : (h : HostId) → decision_at s.shared.dbms config.txid h ≡ "COMMIT" → Commits config s

module _ (config : TransactionConfig) where
  pub part_post :
      {s : System} (inv : Inv config s) (p : HostId) (d : String)
      → In p config.participants
      → s.part p ≡ ret d
      → PartPost config p inv.world d
  part_post inv p d i e =
      subst (Safe config p (PartPost config p) inv.world (inv.turns p)) e (inv.part_safe p i)

  coord_post :
      {s : System} (inv : Inv config s) (d : String)
      → s.coord ≡ ret (some d)
      → Decided config inv.world d
  coord_post inv d e =
      subst (Safe config config.coordinator (CoordPost config) inv.world inv.coord_turn) e
        inv.coord_safe

  Decided-Committed : (w : Progress) → Decided config w "COMMIT" → Committed config w
  Decided-Committed w (inl h) = h.1
  Decided-Committed w (inr h) = let clash : ◌≡◌ {A = String} "COMMIT" "ABORT" = h.0 in absurd (cc)

  Commits-Committed :
      {s : System} (inv : Inv config s) → Commits config s → Committed config inv.world
  Commits-Committed inv (coordinator_commits e) =
      Decided-Committed inv.world (coord_post inv "COMMIT" e)
  Commits-Committed inv (participant_commits p i e) = elim (part_post inv p "COMMIT" i e) [
    | inl h ↦ Decided-Committed inv.world h
    | inr h ↦ let clash : ◌≡◌ {A = String} "COMMIT" "ABORT" = h.0 in absurd (cc)
  ]
  Commits-Committed inv (participant_works p h k i e) =
      (subst (Safe config p (PartPost config p) inv.world (inv.turns p)) e (inv.part_safe p i)).0
  Commits-Committed {s} inv (thread_works ts us t h k g e) =
      let ((safe, queue), put) =
        All-middle (ThreadOk config inv.world) ts us t
          (subst (All (ThreadOk config inv.world)) g inv.threads_ok) in
      (subst (Safe config t.host Done inv.world aside) e safe).0
  Commits-Committed inv (log_commits h e) = inv.shared_ok.logs h e

  -- Of a participant that returns another decision the worker has refused, or it has given up.
  returned_or_late :
      (w : Progress) (p : HostId) (d : String)
      → In p config.participants
      → Committed config w
      → PartPost config p w d
      → (d ≡ "COMMIT") ⊎ ((d ≡ "ABORT") × (w.gave_up p ≡ true))
  returned_or_late w p d i y (inl (inl (e, h))) = inl e
  returned_or_late w p d i y (inl (inr (e, h))) =
      let clash : ◌≡◌ {A = Option String} (some "COMMIT") (some "ABORT") = sym y.1 ∙ h in
      absurd (cc)
  returned_or_late w p d i y (inr (e, inl v)) =
      let yes_now : w.settled.verdict p ≡ yes_vote =
        All-In config (λ q. w.settled.verdict q ≡ yes_vote) config.participants p y.0 i in
      absurd (cc)
  returned_or_late w p d i y (inr (e, inr late)) = inr (e, late)

  not_aborted : (w : Progress) → Committed config w → ¬ Decided config w "ABORT"
  not_aborted w y (inl (e, h)) = let clash : ◌≡◌ {A = String} "ABORT" "COMMIT" = e in cc
  not_aborted w y (inr (e, h)) =
      let clash : ◌≡◌ {A = Option String} (some "COMMIT") (some "ABORT") = sym y.1 ∙ h in cc

module _ (config : TransactionConfig) (hosts : HostId → HostConfig) (fuel : ℕ) (s : System)
    (apart : ¬ In config.coordinator config.participants) (r : Reach config hosts fuel s) where
  abbrev inv : Inv config s
  inv = Reach-Inv config hosts fuel apart r

  -- The new version, in every reachable state of a transaction whose coordinator is none of its
  -- participants: where a handler has returned COMMIT, a participant or a committer is about to hand
  -- the transaction to its worker, or a transaction log holds COMMIT, the worker of every participant
  -- has accepted the transaction.
  pub commit_is_unanimous :
      Commits config s → (p : HostId) → In p config.participants → s.accepted p ≡ true
  commit_is_unanimous c p i = inv.accepted_ok p (
      All-In config (λ q. inv.world.settled.verdict q ≡ yes_vote) config.participants p
        (Commits-Committed config inv c).0 i)

  -- Agreement in the new version, in every reachable state of a transaction whose coordinator is none
  -- of its participants: where a handler has returned COMMIT, a participant or a committer is about to
  -- hand the transaction to its worker, or a transaction log holds COMMIT, the coordinator has not
  -- returned ABORT, and every participant that has returned has returned COMMIT, or else ABORT after
  -- its wait timed out.
  pub commit_or_late :
      Commits config s
      → (s.coord ≢ ret (some "ABORT"))
        × ((p : HostId) (d : String)
            → In p config.participants
            → s.part p ≡ ret d
            → (d ≡ "COMMIT") ⊎ ((d ≡ "ABORT") × (s.gave_up p ≡ true)))
  commit_or_late c =
      let y = Commits-Committed config inv c in
      (
        (λ e. not_aborted config inv.world y (coord_post config inv "ABORT" e)),
        (λ p d i e.
            elim (returned_or_late config inv.world p d i y (part_post config inv p d i e)) [
              | inl h ↦ inl h
              | inr h ↦ inr (h.0, inv.gave_up_ok p h.1)
            ]),
      )

  -- In every reachable state of a transaction of the new version whose coordinator is none of its
  -- participants, neither the coordinator, nor its background thread, nor a participant, nor a
  -- replicator or committer has reached a failed assertion.
  pub new_no_crash :
      (s.coord ≢ crash)
      × (s.background ≢ some crash)
      × ((p : HostId) → In p config.participants → s.part p ≢ crash)
      × All (λ t. t.prog ≢ crash) s.threads
  new_no_crash = (
    (λ e.
        subst (Safe config config.coordinator (CoordPost config) inv.world inv.coord_turn) e
          inv.coord_safe),
    (λ e. subst (BackgroundOk config inv.world) e inv.background_safe),
    (λ p i e.
        subst (Safe config p (PartPost config p) inv.world (inv.turns p)) e (inv.part_safe p i)),
    All-mono (λ t h e. subst (Safe config t.host Done inv.world aside) e h.0) s.threads
        inv.threads_ok,
  )
