-- ===== src/Dbms/Calls.antt =====
-- One request to a transaction log that is answered: which answer, and what all logs hold afterwards.
use cornus.Base.{
  ℕ, String, ◌≡◌, refl, some, Bytes, Bytes-discrete, ℕ_discrete, ite, arith, eq_iff, ◌==◌,
  if◌then◌else◌, ◌⊎◌, inl, inr, ap, true,
}
use cornus.Dbms.Log.{
  transaction_log_once, transaction_log_write, transaction_log_read, check_undefined_input,
}
use cornus.Dbms.Manager.{LogManager, log_once, log_write, log_read}
use cornus.Dbms.Manager.Refines.{once, write, read, serve, serve-Refines}
use cornus.Dbms.History.{decision_at, transaction_address}

-- The logs of `m'` are those of `m`, but that of `cl` for the transaction `tx` holds `r`.
abbrev pub Sets : LogManager → LogManager → ℕ → Bytes → String → Type 0
Sets m m' tx cl r =
    (tx' : ℕ) (cl' : Bytes)
    → decision_at m' tx' cl'
      ≡ ite (ℕ_discrete tx tx') (ite (Bytes-discrete cl cl') r (decision_at m tx' cl'))
          (decision_at m tx' cl')

-- Both hold the same texts in all transaction logs.
abbrev pub Same : LogManager → LogManager → Type 0
Same m m' = (tx' : ℕ) (cl' : Bytes) → decision_at m' tx' cl' ≡ decision_at m tx' cl'

abbrev pub IsDecision : String → Type 0
IsDecision d = (d ≡ "COMMIT") ⊎ (d ≡ "ABORT")

pub accepted : (d : String) → IsDecision d → check_undefined_input d ≡ true
unfolding check_undefined_input
accepted d (inl e) = rw e refl
accepted d (inr e) = rw e refl

pub vote_accepted : check_undefined_input "VOTEYES" ≡ true
unfolding check_undefined_input
vote_accepted = refl

module _ (m : LogManager) (tx : ℕ) (cl : Bytes) where
  pub read_call :
      (m' : LogManager) × (log_read m (transaction_address tx cl)
        ≡ (some (decision_at m tx cl), m'))
      × Same m m'
  unfolding serve decision_at transaction_log_read
  read_call =
      let (answer, pairs) = serve-Refines m (read (transaction_address tx cl)) in
      (
        (log_read m (transaction_address tx cl)).1,
        ap (λ r. (r, (log_read m (transaction_address tx cl)).1)) answer,
        λ tx' cl'. ground (arith, pairs tx' cl'),
      )

  pub write_accepted :
      (d : String)
      → check_undefined_input d ≡ true
      → (m' : LogManager) × (log_write m (transaction_address tx cl) d ≡ (some d, m'))
        × Sets m m' tx cl d
  unfolding serve decision_at transaction_log_write
  write_accepted d ok =
      let (answer, pairs) = serve-Refines m (write (transaction_address tx cl) d) in
      (
        (log_write m (transaction_address tx cl) d).1,
        ap (λ r. (r, (log_write m (transaction_address tx cl) d).1)) (ground (arith, answer, ok)),
        λ tx' cl'. ground (arith, pairs tx' cl', ok),
      )

  pub write_call :
      (d : String)
      → IsDecision d
      → (m' : LogManager) × (log_write m (transaction_address tx cl) d ≡ (some d, m'))
        × Sets m m' tx cl d
  write_call d h = write_accepted d (accepted d h)

  -- The log of `cl` after LOG_ONCE with `d`, which is also the answer.
  abbrev pub settled_by : String → String
  settled_by d = if decision_at m tx cl == "WORKING" then d else decision_at m tx cl

  pub once_accepted :
      (d : String)
      → check_undefined_input d ≡ true
      → (m' : LogManager) × (log_once m (transaction_address tx cl) d ≡ (some (settled_by d), m'))
        × Sets m m' tx cl (settled_by d)
  unfolding serve decision_at transaction_log_once
  once_accepted d ok =
      let (answer, pairs) = serve-Refines m (once (transaction_address tx cl) d) in
      let w = decision_at m tx cl in
      (
        (log_once m (transaction_address tx cl) d).1,
        ap (λ r. (r, (log_once m (transaction_address tx cl) d).1))
            (ground (arith, answer, ok, eq_iff w "WORKING")),
        λ tx' cl'. ground (arith, pairs tx' cl', ok, eq_iff w "WORKING"),
      )

  pub once_call :
      (d : String)
      → IsDecision d
      → (m' : LogManager) × (log_once m (transaction_address tx cl) d ≡ (some (settled_by d), m'))
        × Sets m m' tx cl (settled_by d)
  once_call d h = once_accepted d (accepted d h)

  module _ (m1 : LogManager) (d : String) (same : Same m m1) where
    -- A log that holds `d` already.
    pub Sets-kept : decision_at m tx cl ≡ d → Sets m m1 tx cl d
    Sets-kept e tx' cl' = ground (arith, same tx' cl')

    pub Same-Sets : (m2 : LogManager) → Sets m1 m2 tx cl d → Sets m m2 tx cl d
    Same-Sets m2 sets tx' cl' = ground (arith, same tx' cl', sets tx' cl')
