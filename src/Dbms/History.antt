-- ===== src/Dbms/History.antt =====
-- Histories of requests to the manager, of any clients in any order.
use cornus.Base.{
  ℕ, String, ◌≡◌, ◌≢◌, refl, some, Bytes, arith, List, [], ◌∷◌, ap, ◌⊎◌, All, eq_iff, true,
}
use cornus.Dbms.Log.{
  LogPair, transaction_log_once, transaction_log_write, transaction_log_read, data_log_once,
  data_log_write, check_undefined_input,
}
use cornus.Dbms.Manager.{LogManager, LogAddress, LogType, pair_at}
use cornus.Dbms.Manager.Refines.{
  Request, once, write, read, target, serve, pair_step, serve-Refines,
}

unfoldable pub run : LogManager → List Request → LogManager
run m [] = m
run m (r ∷ rs) = run (serve m r).1 rs

-- What the transaction log of a client holds.
unfoldable pub decision_at : LogManager → ℕ → Bytes → String
decision_at m tx cl = (pair_at m tx cl).transaction_log.decision

abbrev pub transaction_address : ℕ → Bytes → LogAddress
transaction_address tx cl = record { tx_id = tx; client_id = cl; type = LogType.transaction_type }

-- One of the four words that a transaction log can hold.
abbrev pub IsWord : String → Type 0
IsWord s = (s ≡ "WORKING") ⊎ (s ≡ "ABORT") ⊎ (s ≡ "COMMIT") ⊎ (s ≡ "VOTEYES")

-- A request that may overwrite the transaction log of `cl`: a LOG_WRITE to it.
abbrev pub Overwrites : ℕ → Bytes → Request → Type 0
Overwrites tx cl (write a d) = a ≡ transaction_address tx cl
Overwrites tx cl _ = ⊥

abbrev pub NoOverwrite : ℕ → Bytes → List Request → Type 0
NoOverwrite tx cl = All (λ r. ¬ Overwrites tx cl r)

pair_step-IsWord :
    (t : LogType) (p : LogPair) (r : Request)
    → IsWord p.transaction_log.decision
    → IsWord (pair_step t p r).1.transaction_log.decision
unfolding transaction_log_once transaction_log_write data_log_once data_log_write
pair_step-IsWord LogType.data_type p (once a d) w = w
pair_step-IsWord LogType.data_type p (write a d) w = w
pair_step-IsWord LogType.data_type p (read a) w = w
pair_step-IsWord LogType.transaction_type p (once a d) w =
    ground (arith, eq_iff d "ABORT", eq_iff d "COMMIT", eq_iff d "VOTEYES")
pair_step-IsWord LogType.transaction_type p (write a d) w =
    ground (arith, eq_iff d "ABORT", eq_iff d "COMMIT", eq_iff d "VOTEYES")
pair_step-IsWord LogType.transaction_type p (read a) w = w

abbrev pub AllWords : LogManager → Type 0
AllWords m = (tx : ℕ) (cl : Bytes) → IsWord (decision_at m tx cl)

serve-AllWords : (m : LogManager) (r : Request) → AllWords m → AllWords (serve m r).1
unfolding decision_at
serve-AllWords m r w tx cl = ground (
  arith,
  (serve-Refines m r).1 tx cl,
  w tx cl,
  pair_step-IsWord (target r).type (pair_at m (target r).tx_id (target r).client_id) r
      (w (target r).tx_id (target r).client_id),
)

-- Whatever requests arrive, with whatever data, a transaction log holds one of the four words.
pub run-IsWord :
    (m : LogManager) (rs : List Request)
    → ((tx : ℕ) (cl : Bytes) → IsWord (decision_at m tx cl))
    → (tx : ℕ) (cl : Bytes) → IsWord (decision_at (run m rs) tx cl)
unfolding run
run-IsWord m [] w = w
run-IsWord m (r ∷ rs) w = run-IsWord (serve m r).1 rs (serve-AllWords m r w)

-- A pair whose transaction log is decided keeps it, except under a LOG_WRITE to that log.
abbrev Keeps : LogType → LogPair → Request → Type 0
Keeps t p r =
    p.transaction_log.decision ≢ "WORKING"
    → (pair_step t p r).1.transaction_log.decision ≡ p.transaction_log.decision

once-Keeps : (t : LogType) (p : LogPair) (a : LogAddress) (d : String) → Keeps t p (once a d)
unfolding transaction_log_once data_log_once
once-Keeps LogType.data_type p a d h = refl
once-Keeps LogType.transaction_type p a d h =
    ground (arith, eq_iff p.transaction_log.decision "WORKING")

write-Keeps : (p : LogPair) (a : LogAddress) (d : String) → Keeps LogType.data_type p (write a d)
unfolding data_log_write
write-Keeps p a d h = refl

read-Keeps : (t : LogType) (p : LogPair) (a : LogAddress) → Keeps t p (read a)
read-Keeps LogType.data_type p a h = refl
read-Keeps LogType.transaction_type p a h = refl

valid-ne-working : (d : String) → check_undefined_input d ≡ true → d ≢ "WORKING"
unfolding check_undefined_input
valid-ne-working d h e = cc (ap check_undefined_input e)

once_accepts :
    (p : LogPair) (a : LogAddress) (d v : String)
    → (pair_step LogType.transaction_type p (once a d)).0 ≡ some v
    → (v ≢ "WORKING")
      × ((pair_step LogType.transaction_type p (once a d)).1.transaction_log.decision ≡ v)
unfolding transaction_log_once
once_accepts p a d v e =
    let w = p.transaction_log.decision in ground (arith, eq_iff w "WORKING", valid-ne-working d)

module _ (tx : ℕ) (cl : Bytes) where
  other_log :
      (a : LogAddress) (d : String)
      → ¬ Overwrites tx cl (write a d)
      → a.tx_id ≡ tx
      → a.client_id ≡ cl
      → a.type ≡ LogType.data_type
  other_log a d n p q = ground (arith, n)

  serve_keeps :
      (m : LogManager) (r : Request) {v : String}
      → v ≢ "WORKING"
      → ¬ Overwrites tx cl r
      → decision_at m tx cl ≡ v
      → decision_at (serve m r).1 tx cl ≡ v
  unfolding decision_at
  serve_keeps m (once a d) h n e = ground (
    arith,
    (serve-Refines m (once a d)).1 tx cl,
    once-Keeps a.type (pair_at m a.tx_id a.client_id) a d,
  )
  serve_keeps m (write a d) h n e = ground (
    arith,
    (serve-Refines m (write a d)).1 tx cl,
    other_log a d n,
    write-Keeps (pair_at m a.tx_id a.client_id) a d,
  )
  serve_keeps m (read a) h n e = ground (
    arith,
    (serve-Refines m (read a)).1 tx cl,
    read-Keeps a.type (pair_at m a.tx_id a.client_id) a,
  )

  run_keeps :
      (m : LogManager) (rs : List Request) {v : String}
      → v ≢ "WORKING"
      → NoOverwrite tx cl rs
      → decision_at m tx cl ≡ v
      → decision_at (run m rs) tx cl ≡ v
  unfolding run
  run_keeps m [] h n e = e
  run_keeps m (r ∷ rs) h n e = run_keeps (serve m r).1 rs h n.1 (serve_keeps m r h n.0 e)

  once_answer :
      (m : LogManager) (d : String) {v : String}
      → (serve m (once (transaction_address tx cl) d)).0 ≡ some v
      → (v ≢ "WORKING") × (decision_at (serve m (once (transaction_address tx cl) d)).1 tx cl ≡ v)
  unfolding decision_at
  once_answer m d {v} e = ground (
    arith,
    (serve-Refines m (once (transaction_address tx cl) d)).0,
    (serve-Refines m (once (transaction_address tx cl) d)).1 tx cl,
    once_accepts (pair_at m tx cl) (transaction_address tx cl) d v,
  )

  once_settled :
      (m : LogManager) (d : String) {v : String}
      → v ≢ "WORKING"
      → decision_at m tx cl ≡ v
      → (serve m (once (transaction_address tx cl) d)).0 ≡ some v
  unfolding decision_at transaction_log_once
  once_settled m d {v} h e =
      ground (arith, (serve-Refines m (once (transaction_address tx cl) d)).0, eq_iff v "WORKING")

  read_settled :
      (m : LogManager) {v : String}
      → decision_at m tx cl ≡ v
      → (serve m (read (transaction_address tx cl))).0 ≡ some v
  unfolding decision_at transaction_log_read
  read_settled m {v} e = ground (arith, (serve-Refines m (read (transaction_address tx cl))).0)

  -- The first LOG_ONCE that is answered settles the log: while no LOG_WRITE overwrites it, every
  -- later LOG_ONCE, with any data, and every later LOG_READ gets the same answer.
  pub once_settles :
      (m : LogManager) (d : String) {v : String}
      → (serve m (once (transaction_address tx cl) d)).0 ≡ some v
      → (rs : List Request) → NoOverwrite tx cl rs
      → (d' : String)
      → let later = run (serve m (once (transaction_address tx cl) d)).1 rs in
        ((serve later (once (transaction_address tx cl) d')).0 ≡ some v)
        × ((serve later (read (transaction_address tx cl))).0 ≡ some v)
  once_settles m d e rs n d' =
      let (decided, held) = once_answer m d e in
      let kept = run_keeps (serve m (once (transaction_address tx cl) d)).1 rs decided n held in
      (once_settled _ d' decided kept, read_settled _ kept)
