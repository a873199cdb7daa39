-- ===== src/Dbms/Steps.antt =====
-- One request to a transaction log, as the handlers meet it: the answer, and what each log of the
-- transaction holds afterwards.
use cornus.Base.{
  ℕ, String, ◌≡◌, refl, some, Bytes, Bytes-discrete, ite, if_pos, if_neg, ◌∙◌, ◌≢◌, arith, eq_iff,
  ◌==◌, if◌then◌else◌,
}
use cornus.Dbms.Log.{transaction_log_once, transaction_log_write, transaction_log_read}
use cornus.Dbms.Manager.{LogManager, new_log_manager, pair_at, log_once, log_write, log_read}
use cornus.Base.Dict.{get, lookup}
use cornus.Dbms.Manager.Refines.{once, write, read, serve, serve-Refines}
use cornus.Dbms.History.{decision_at, transaction_address}

-- After an answer `r` that the log of `cl` keeps, the logs of the transaction.
abbrev pub Holds : LogManager → LogManager → ℕ → Bytes → String → Type 0
Holds m m' tx cl r =
    (cl' : Bytes) → decision_at m' tx cl' ≡ ite (Bytes-discrete cl cl') r (decision_at m tx cl')

module _ (m m' : LogManager) (tx : ℕ) (cl : Bytes) (r : String) where
  pub Holds-self : Holds m m' tx cl r → (cl' : Bytes) → cl ≡ cl' → decision_at m' tx cl' ≡ r
  Holds-self h cl' e = h cl' ∙ if_pos (Bytes-discrete cl cl') e r (decision_at m tx cl')

  pub Holds-other :
      Holds m m' tx cl r → (cl' : Bytes) → cl ≢ cl' → decision_at m' tx cl' ≡ decision_at m tx cl'
  Holds-other h cl' n = h cl' ∙ if_neg (Bytes-discrete cl cl') n r (decision_at m tx cl')

  pub log_once_step :
      (d : String)
      → log_once m (transaction_address tx cl) d ≡ (some r, m')
      → (r ≡ (if decision_at m tx cl == "WORKING" then d else decision_at m tx cl))
        × Holds m m' tx cl r
  unfolding serve decision_at transaction_log_once
  log_once_step d e =
      let (answer, pairs) = serve-Refines m (once (transaction_address tx cl) d) in
      let w = decision_at m tx cl in
      (
        ground (arith, answer, e, eq_iff w "WORKING"),
        λ cl'. ground (arith, answer, e, pairs tx cl', eq_iff w "WORKING"),
      )

  pub log_write_step :
      (d : String)
      → log_write m (transaction_address tx cl) d ≡ (some r, m')
      → (r ≡ d) × Holds m m' tx cl r
  unfolding serve decision_at transaction_log_write
  log_write_step d e =
      let (answer, pairs) = serve-Refines m (write (transaction_address tx cl) d) in
      (ground (arith, answer, e), λ cl'. ground (arith, answer, e, pairs tx cl'))

pub log_read_step :
    (m m' : LogManager) (tx : ℕ) (cl : Bytes) (r : String)
    → log_read m (transaction_address tx cl) ≡ (some r, m')
    → (r ≡ decision_at m tx cl) × ((cl' : Bytes) → decision_at m' tx cl' ≡ decision_at m tx cl')
unfolding serve decision_at transaction_log_read
log_read_step m m' tx cl r e =
    let (answer, pairs) = serve-Refines m (read (transaction_address tx cl)) in
    (ground (arith, answer, e), λ cl'. ground (arith, answer, e, pairs tx cl'))

pub decision_at-new : (tx : ℕ) (cl : Bytes) → decision_at new_log_manager tx cl ≡ "WORKING"
unfolding decision_at pair_at get lookup
decision_at-new tx cl = refl
