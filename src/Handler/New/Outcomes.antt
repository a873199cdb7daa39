-- ===== src/Handler/New/Outcomes.antt =====
-- What the handlers of the new version leave behind, each run alone.
use cornus.Base.{
  ℕ, String, true, false, ◌≡◌, refl, some, List, [], ◌++◌, ◌==◌, if◌then◌else◌, inl, inr,
  append-nil, eq_iff, ◌∙◌, Bool-cases,
}
use cornus.Config.Transaction.{HostId, config_to_string}
use cornus.Dbms.Manager.{LogManager}
use cornus.Dbms.History.{decision_at}
use cornus.Dbms.Calls.{Sets, Same, IsDecision, Sets-kept, Same-Sets}
use cornus.Handler.Prog.{Packet, Prog, ret}
use cornus.Handler.Sender.{Sender, send_to_participants}
use cornus.Handler.New.{new_termination_protocol, log_final, replace_by, override, settle_own}
use cornus.Handler.Alone.{Node, alone, alone-send_group, packets}
use cornus.Handler.Alone.Logs.{alone-read, alone-write}

module _ (s : Sender) (n : Node) where
  abbrev pub own : String
  own = decision_at n.dbms s.config.txid s.hostname

  -- The handler returns `a` and leaves `n'`.
  abbrev pub Ends : {A : Type 0} → Prog A → A → Node → Type 0
  Ends m a n' = alone m n ≡ (some a, n')

  abbrev pub overrides : String → List Packet
  overrides prev =
      if prev == "ABORT"
      then packets s "OVERRIDECOMMIT" (config_to_string s.config) s.config.participants
      else []

  override-alone :
      (prev : String) → Ends (override s prev) tt (record n { sent = n.sent ++ overrides prev })
  unfolding override send_to_participants alone
  override-alone prev = elim (Bool-cases (prev == "ABORT")) [
    | inl q ↦
        rw q
          (alone-send_group s "OVERRIDECOMMIT" (config_to_string s.config) s.config.participants n)
    | inr q ↦ rw (q, append-nil) refl
  ]

module _ (s : Sender) (n : Node) where
  abbrev pub final_overrides : String → List Packet
  final_overrides d = if own s n == d then [] else overrides s n (own s n)

  -- From the state `n1` on, `m` leaves the log of this node at `d` and has told the participants.
  Finishes : String → Node → Prog (Unit {0}) → Type 0
  Finishes d n1 m =
      (m' : LogManager) × Ends s n1 m tt
        (record n { dbms = m'; sent = n.sent ++ final_overrides d })
      × Sets n.dbms m' s.config.txid s.hostname d

  module _ (d : String) (m1 : LogManager) (same : Same n.dbms m1) where
    final_kept :
        (own s n == d) ≡ true → Finishes d (record n { dbms = m1 }) (replace_by s d (own s n))
    unfolding replace_by alone Finishes
    final_kept q = (
      m1,
      rw (q, append-nil) refl,
      Sets-kept n.dbms s.config.txid s.hostname m1 d same ((eq_iff (own s n) d).0 q),
    )

    final_written :
        IsDecision d
        → (own s n == d) ≡ false
        → Finishes d (record n { dbms = m1 }) (replace_by s d (own s n))
    unfolding replace_by Finishes
    final_written h q =
        let (m2, e, sets) =
          alone-write s s.hostname (λ r. override s (own s n)) (record n { dbms = m1 }) d h in
        (
          m2,
          rw q (e ∙ override-alone s (record n { dbms = m2 }) (own s n)),
          Same-Sets n.dbms s.config.txid s.hostname m1 d same m2 sets,
        )

  -- `logFinal` leaves the decision in the log of this node, for whatever id and host it is called, and
  -- changes no other transaction log. It sends OVERRIDECOMMIT to all participants exactly when the
  -- log held ABORT and the decision is another one.
  pub log_final-Sets :
      (d : String)
      → IsDecision d
      → (txid : ℕ) (host : HostId)
      → (m' : LogManager) × (alone (log_final s d txid host) n
          ≡ (some tt, record n { dbms = m'; sent = n.sent ++ final_overrides d }))
        × Sets n.dbms m' s.config.txid s.hostname d
  unfolding log_final Finishes
  log_final-Sets d h txid host =
      let (m1, e1, same) = alone-read s s.hostname (replace_by s d) n in
      let (m2, e2, sets) =
        elim (Bool-cases (own s n == d))
          as (λ _. Finishes d (record n { dbms = m1 }) (replace_by s d (own s n))) [
            | inl q ↦ final_kept d m1 same q
            | inr q ↦ final_written d m1 same h q
          ] in
      (m2, e1 ∙ e2, sets)

  -- What the new version's termination protocol decides on: the text of the own log, if that is COMMIT.
  abbrev pub own_decision : String
  own_decision = if own s n == "COMMIT" then "COMMIT" else "ABORT"

  module _ (m1 : LogManager) (same : Same n.dbms m1) where
    Settled : String → Type 0
    Settled d =
        (m' : LogManager) × (alone (settle_own s (own s n)) (record n { dbms = m1 })
          ≡ (some d, record n { dbms = m' }))
        × Sets n.dbms m' s.config.txid s.hostname d

    settled : (d : String) → own s n ≡ d → IsDecision d → Settled d
    unfolding settle_own alone Settled
    settled d e (inl c) =
        (m1, rw (e, c) refl, Sets-kept n.dbms s.config.txid s.hostname m1 d same e)
    settled d e (inr c) =
        (m1, rw (e, c) refl, Sets-kept n.dbms s.config.txid s.hostname m1 d same e)

    aborted : (own s n == "COMMIT") ≡ false → (own s n == "ABORT") ≡ false → Settled "ABORT"
    unfolding settle_own Settled alone
    aborted q r =
        let give_up : String → Prog String = λ _. ret "ABORT" in
        let (m2, e, sets) =
          alone-write s s.hostname give_up (record n { dbms = m1 }) "ABORT" (inr refl) in
        (m2, rw (q, r) e, Same-Sets n.dbms s.config.txid s.hostname m1 "ABORT" same m2 sets)

    own-Settled : Settled own_decision
    own-Settled = elim (Bool-cases (own s n == "COMMIT")) [
      | inl q ↦ rw q (settled "COMMIT" ((eq_iff (own s n) "COMMIT").0 q) (inl refl))
      | inr q ↦ rw q (elim (Bool-cases (own s n == "ABORT")) [
        | inl r ↦ settled "ABORT" ((eq_iff (own s n) "ABORT").0 r) (inr refl)
        | inr r ↦ aborted q r
      ])
    ]

  -- The termination protocol of the new version asks only the log of this node: it returns COMMIT when
  -- that holds COMMIT, and otherwise ABORT; it leaves the log at what it returns, and changes no other.
  pub new_termination_protocol-Sets :
      (m' : LogManager) × (alone (new_termination_protocol s) n
        ≡ (some own_decision, record n { dbms = m' }))
      × Sets n.dbms m' s.config.txid s.hostname own_decision
  unfolding new_termination_protocol Settled
  new_termination_protocol-Sets =
      let (m1, e1, same) = alone-read s s.hostname (settle_own s) n in
      let (m2, e2, sets) = own-Settled m1 same in (m2, e1 ∙ e2, sets)
