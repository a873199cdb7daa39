-- ===== src/Handler/Paper/Scan.antt =====
-- `terminationProtocol` run alone decides what the words in the logs of the participants say.
use cornus.Base.{
  ℕ, String, ◌≡◌, refl, some, List, [], ◌∷◌, ◌==◌, ◌⊎◌, ◌≢◌, eq_iff, if◌then◌else◌, inl, inr, arith,
  ◌∙◌, ap,
}
use mathlib.Core.Bool.{false≢true}
use cornus.Config.Transaction.{HostId}
use cornus.Dbms.Manager.{LogManager}
use cornus.Dbms.History.{decision_at, AllWords}
use cornus.Dbms.Calls.{Sets, settled_by}
use cornus.Handler.Prog.{Prog, ret, crash}
use cornus.Handler.Sender.{Sender}
use cornus.Handler.Paper.{termination_loop}
use cornus.Handler.Alone.{Node, alone}
use cornus.Handler.Alone.Logs.{alone-once}

-- What the words in the logs decide: a reference for `terminationProtocol`. The first log that does not
-- hold VOTEYES decides, COMMIT if it holds that and else ABORT; without one, it is COMMIT.
abbrev pub scan_logs : LogManager → ℕ → List HostId → String
scan_logs m tx [] = "COMMIT"
scan_logs m tx (p ∷ ps) =
    if decision_at m tx p == "VOTEYES"
    then scan_logs m tx ps
    else if decision_at m tx p == "COMMIT"
    then "COMMIT"
    else "ABORT"

-- Every transaction log is as it was, or has turned from WORKING to ABORT.
abbrev pub Keeps : LogManager → LogManager → Type 0
Keeps m m' =
    (tx : ℕ) (cl : HostId)
    → (decision_at m' tx cl ≡ decision_at m tx cl)
      ⊎ ((decision_at m tx cl ≡ "WORKING") × (decision_at m' tx cl ≡ "ABORT"))

module _ (m m' : LogManager) (tx : ℕ) where
  scan_logs-same :
      ((cl : HostId) → decision_at m' tx cl ≡ decision_at m tx cl)
      → (ps : List HostId) → scan_logs m' tx ps ≡ scan_logs m tx ps
  scan_logs-same h [] = refl
  scan_logs-same h (p ∷ ps) = rw (h p, scan_logs-same h ps) refl

  module _ (cl : HostId) where
    -- LOG_ONCE with ABORT on the log of `cl`.
    once-Keeps : Sets m m' tx cl (settled_by m tx cl "ABORT") → Keeps m m'
    once-Keeps sets tx' cl' = ground (arith, eq_iff (decision_at m tx cl) "WORKING", sets tx' cl')

    once-same :
        (r : String)
        → r ≢ "WORKING"
        → decision_at m tx cl ≡ r
        → Sets m m' tx cl (settled_by m tx cl "ABORT")
        → (tx' : ℕ) (cl' : HostId) → decision_at m' tx' cl' ≡ decision_at m tx' cl'
    once-same r n e sets tx' cl' = ground (arith, eq_iff r "WORKING", sets tx' cl')

voted_not_working : ◌≢◌ {A = String} "VOTEYES" "WORKING"
voted_not_working c = false≢true (ap (λ x. x == "WORKING") c)

pub Keeps-refl : (m : LogManager) → Keeps m m
Keeps-refl m tx cl = inl refl

Keeps-after :
    (m m1 m2 : LogManager)
    → ((tx : ℕ) (cl : HostId) → decision_at m1 tx cl ≡ decision_at m tx cl)
    → Keeps m1 m2
    → Keeps m m2
Keeps-after m m1 m2 same h tx cl = ground (arith, same tx cl, h tx cl)

module _ (s : Sender) where
  -- What the loop does with an answer.
  abbrev next : List HostId → String → Prog String
  next ps resp =
      if resp == "ABORT"
      then ret "ABORT"
      else if resp == "COMMIT"
      then ret "COMMIT"
      else if resp == "VOTEYES"
      then termination_loop s ps
      else crash

  -- `terminationProtocol` decides what the words in the logs do.
  abbrev pub Scans : List HostId → Node → Type 0
  Scans ps n =
      (dbms : LogManager) × (alone (termination_loop s ps) n
        ≡ (some (scan_logs n.dbms s.config.txid ps), record n { dbms = dbms }))
      × Keeps n.dbms dbms

  pub loop-Scans : (ps : List HostId) (n : Node) → AllWords n.dbms → Scans ps n
  unfolding termination_loop alone
  loop-Scans [] n w = (n.dbms, refl, Keeps-refl n.dbms)
  loop-Scans (p ∷ ps) n w =
      let tx = s.config.txid in
      let (m', e, sets) = alone-once s p (next ps) n "ABORT" (inr refl) in
      let keeps = once-Keeps n.dbms m' tx p sets in
      elim (w tx p) [
        | inl q ↦ (m', e ∙ rw q refl, keeps)
        | inr x ↦ elim x [
          | inl q ↦ (m', e ∙ rw q refl, keeps)
          | inr y ↦ elim y [
            | inl q ↦ (m', e ∙ rw q refl, keeps)
            | inr q ↦
                let same = once-same n.dbms m' tx p "VOTEYES" voted_not_working q sets in
                let (m2, f, keeps2) =
                  loop-Scans ps (record n { dbms = m' }) (λ t c. rw (same t c) (w t c)) in
                (
                  m2,
                  e ∙ rw q (f ∙ rw (scan_logs-same n.dbms m' tx (same tx) ps) refl),
                  Keeps-after n.dbms m' m2 same keeps2,
                )
          ]
        ]
      ]
