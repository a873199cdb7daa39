-- ===== src/Protocol/Agreement.antt =====
-- What holds in every reachable state of one transaction.
use cornus.Base.{ℕ, String, ◌≡◌, ◌≢◌, subst, some, List, [], ◌∷◌, All, ◌⊎◌, inl, inr}
use cornus.Config.Transaction.{HostId, TransactionConfig}
use cornus.Config.Host.{HostConfig}
use cornus.Dbms.History.{decision_at}
use cornus.Handler.Prog.{Prog, ret, crash, act, work_commit}
use cornus.Protocol.System.{In, System, Reach}
use cornus.Protocol.World.{World, yes_vote, veto, AllYes, SomeVeto, Legit, Safe, counted}
use cornus.Protocol.Handlers.{CoordPost}
use cornus.Protocol.Invariant.{Seat, waiting, preempted, out, to_send, voted, Inv}
use cornus.Protocol.Preserve.{Reach-Inv}

-- A handler of the transaction has returned `d`.
pub data Decides (config : TransactionConfig) (s : System) (d : String) : Type 0 where
  coordinator_decides : s.coord ≡ ret (some d) → Decides config s d
  participant_decides :
      (p : HostId) → In p config.participants → s.part p ≡ ret d → Decides config s d

module _ (config : TransactionConfig) where
  pub Decides-Legit :
      {fuel : ℕ} {s : System} {d : String} (inv : Inv config fuel s)
      → Decides config s d
      → Legit config inv.world d
  Decides-Legit {fuel} inv (coordinator_decides e) =
      subst (Safe config config.coordinator (CoordPost config fuel) inv.world (counted inv.votes)) e
        inv.coord_safe
  Decides-Legit {fuel} inv (participant_decides p i e) =
      subst (Safe config p (Legit config) inv.world (inv.turns p)) e (inv.part_safe p i)

  pub All-In : (P : HostId → Type 0) (ps : List HostId) (p : HostId) → All P ps → In p ps → P p
  All-In P [] p h i = absurd i
  All-In P (x ∷ ps) p h (inl e) = subst P e h.0
  All-In P (x ∷ ps) p h (inr i) = All-In P ps p h.1 i

  not_both : (w : World) → AllYes config w → SomeVeto config w → ⊥
  not_both w y (p, i, v) =
      let yes_now : w.verdict p ≡ yes_vote =
        All-In (λ q. w.verdict q ≡ yes_vote) config.participants p y i in
      cc

  pub Legit-same : (w : World) {d e : String} → Legit config w d → Legit config w e → d ≡ e
  Legit-same w (inl (a, y)) (inl (b, z)) = cc
  Legit-same w (inl (a, y)) (inr (b, z)) = absurd (not_both w y z)
  Legit-same w (inr (a, y)) (inl (b, z)) = absurd (not_both w z y)
  Legit-same w (inr (a, y)) (inr (b, z)) = cc

  abbrev pub Prepared : System → HostId → Type 0
  Prepared s p =
      (decision_at s.shared.dbms config.txid p ≡ "VOTEYES")
      ⊎ (decision_at s.shared.dbms config.txid p ≡ "COMMIT")

  abbrev pub Unprepared : System → HostId → Type 0
  Unprepared s p =
      (decision_at s.shared.dbms config.txid p ≡ "WORKING")
      ⊎ (decision_at s.shared.dbms config.txid p ≡ "ABORT")

  prepared :
      {fuel : ℕ} (s : System) (inv : Inv config fuel s) (p : HostId)
      → In p config.participants
      → AllYes config inv.world
      → Seat config inv.world p (inv.turns p) (decision_at s.shared.dbms config.txid p)
      → Prepared s p
  prepared s inv p i y seat =
      let yes_now : inv.world.verdict p ≡ yes_vote =
        All-In (λ q. inv.world.verdict q ≡ yes_vote) config.participants p y i in
      elim seat [
        | waiting t v n d ↦ absurd (cc)
        | preempted t v n d ↦ absurd (cc)
        | out t v d ↦ absurd (cc)
        | to_send t v n d ↦ inl d
        | voted t v d ↦ elim d [
          | inl e ↦ inl e
          | inr g ↦ elim g [ inl c ↦ inr c.0 | inr x ↦ absurd (not_both inv.world y x.1) ]
        ]
      ]

  unprepared :
      {fuel : ℕ} (s : System) (inv : Inv config fuel s) (p : HostId)
      → inv.world.verdict p ≡ veto
      → Seat config inv.world p (inv.turns p) (decision_at s.shared.dbms config.txid p)
      → Unprepared s p
  unprepared s inv p v (waiting t u n d) = absurd (cc)
  unprepared s inv p v (preempted t u n d) = inr d
  unprepared s inv p v (out t u d) = d
  unprepared s inv p v (to_send t u n d) = absurd (cc)
  unprepared s inv p v (voted t u d) = absurd (cc)

module _ (config : TransactionConfig) (hosts : HostId → HostConfig) (fuel : ℕ) (s : System)
    (apart : ¬ In config.coordinator config.participants) (r : Reach config hosts fuel s) where
  -- Agreement: in every reachable state of a transaction whose coordinator is none of its participants,
  -- any two handlers that have returned have returned the same decision.
  pub agreement : (d e : String) → Decides config s d → Decides config s e → d ≡ e
  agreement d e x y =
      let inv = Reach-Inv config fuel apart r in
      Legit-same config inv.world (Decides-Legit config inv x) (Decides-Legit config inv y)

  -- Validity, in every reachable state of a transaction whose coordinator is none of its participants:
  -- where a handler has returned COMMIT, the transaction log of every participant holds VOTEYES or
  -- COMMIT; where one has returned another decision, it is ABORT, and the log of some participant holds
  -- WORKING or ABORT.
  pub decision_logged :
      (d : String)
      → Decides config s d
      → ((d ≡ "COMMIT") × ((p : HostId) → In p config.participants → Prepared config s p))
        ⊎ ((d ≡ "ABORT") × ((p : HostId) × In p config.participants × Unprepared config s p))
  decision_logged d x =
      let inv = Reach-Inv config fuel apart r in
      elim (Decides-Legit config inv x) [
        | inl (e, y) ↦ inl (e, λ p i. prepared config s inv p i y (inv.shared_ok.seats p i))
        | inr (e, (p, i, v)) ↦
            inr (e, (p, i, unprepared config s inv p v (inv.shared_ok.seats p i)))
      ]

  -- In every reachable state of a transaction whose coordinator is none of its participants, a
  -- participant hands the transaction to its worker only when the transaction log of every
  -- participant holds VOTEYES or COMMIT.
  pub work_is_Prepared :
      (p h : HostId) (k : Unit {0} → Prog String)
      → In p config.participants
      → s.part p ≡ act (work_commit h) k
      → (q : HostId) → In q config.participants
      → Prepared config s q
  work_is_Prepared p h k i e q j =
      let inv = Reach-Inv config fuel apart r in
      let (y, rest) =
        subst (Safe config p (Legit config) inv.world (inv.turns p)) e (inv.part_safe p i) in
      prepared config s inv q j y (inv.shared_ok.seats q j)

  -- In every reachable state of a transaction whose coordinator is none of its participants, no
  -- handler has reached a failed assertion or the exception for an unknown answer
  -- of a log.
  pub no_crash : (s.coord ≢ crash) × ((p : HostId) → In p config.participants → s.part p ≢ crash)
  no_crash =
      let inv = Reach-Inv config fuel apart r in
      (
        (λ e.
            subst
              (Safe config config.coordinator (CoordPost config fuel) inv.world (counted inv.votes))
              e inv.coord_safe),
        (λ p i e.
            subst (Safe config p (Legit config) inv.world (inv.turns p)) e (inv.part_safe p i)),
      )
