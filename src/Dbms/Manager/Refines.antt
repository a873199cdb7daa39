-- ===== src/Dbms/Manager/Refines.antt =====
-- A call of the manager is one step of the addressed log pair, and touches no other pair.
use cornus.Base.{
  ℕ, String, ◌≡◌, refl, Option, none, some, Bytes, Bytes-discrete, ℕ_discrete, ite, arith,
}
use cornus.Dbms.Log
use cornus.Dbms.Log.{
  LogPair, transaction_log_once, transaction_log_write, transaction_log_read, data_log_once,
  data_log_write, data_log_read,
}
use cornus.Dbms.Manager.{
  LogManager, LogAddress, LogType, pair_at, store_pair, get_log_pair, finish_data,
  finish_transaction, once_on, write_on, read_on, log_once, log_write, log_read,
}
use cornus.Dbms.Manager.View.{pair_at-store_pair}

-- A request of a client.
pub data Request : Type 0 where
  once write : LogAddress → String → Request
  read : LogAddress → Request

abbrev pub target : Request → LogAddress
target (once a d) = a
target (write a d) = a
target (read a) = a

unfoldable pub serve : LogManager → Request → Option String × LogManager
serve m (once a d) = log_once m a d
serve m (write a d) = log_write m a d
serve m (read a) = log_read m a

-- The addressed log alone: its answer, and the pair that the call leaves.
abbrev pub data_step : LogPair → Option (String × Log.DataLog) → Option String × LogPair
data_step p none = (none, p)
data_step p (some (out, l)) = (some out, record p { data_log = l })

abbrev pub transaction_step :
    LogPair → Option (String × Log.TransactionLog) → Option String × LogPair
transaction_step p none = (none, p)
transaction_step p (some (out, l)) = (some out, record p { transaction_log = l })

abbrev pub pair_step : LogType → LogPair → Request → Option String × LogPair
pair_step LogType.data_type p (once a d) = data_step p (data_log_once p.data_log d)
pair_step LogType.data_type p (write a d) = data_step p (data_log_write p.data_log d)
pair_step LogType.data_type p (read a) = (some (data_log_read p.data_log), p)
pair_step LogType.transaction_type p (once a d) =
    transaction_step p (transaction_log_once p.transaction_log d)
pair_step LogType.transaction_type p (write a d) =
    transaction_step p (transaction_log_write p.transaction_log d)
pair_step LogType.transaction_type p (read a) = (some (transaction_log_read p.transaction_log), p)

abbrev pub addressed : LogManager → Request → Option String × LogPair
addressed m r = pair_step (target r).type (pair_at m (target r).tx_id (target r).client_id) r

abbrev pub Refines :
    LogManager → LogAddress → Option String × LogPair → Option String × LogManager → Type 0
Refines m a spec got =
    (got.0 ≡ spec.0)
    × ((tx : ℕ) (cl : Bytes)
        → pair_at got.1 tx cl
          ≡ ite (ℕ_discrete a.tx_id tx)
              (ite (Bytes-discrete a.client_id cl) spec.1 (pair_at m tx cl)) (pair_at m tx cl))

-- The state that `getLogPair` leaves, with the pair then replaced by `p`.
store_twice :
    (m : LogManager) (a : LogAddress) (p q : LogPair) (tx : ℕ) (cl : Bytes)
    → pair_at (store_pair (store_pair m a.tx_id a.client_id p) a.tx_id a.client_id q) tx cl
      ≡ ite
          (ℕ_discrete a.tx_id tx)
          (ite (Bytes-discrete a.client_id cl) q (pair_at m tx cl))
          (pair_at m tx cl)
store_twice m a p q tx cl = ground (
  arith,
  pair_at-store_pair (store_pair m a.tx_id a.client_id p) a.tx_id a.client_id q tx cl,
  pair_at-store_pair m a.tx_id a.client_id p tx cl,
)

store_same :
    (m : LogManager) (a : LogAddress) (tx : ℕ) (cl : Bytes)
    → let p = pair_at m a.tx_id a.client_id in
      pair_at (store_pair m a.tx_id a.client_id p) tx cl
      ≡ ite
          (ℕ_discrete a.tx_id tx)
          (ite (Bytes-discrete a.client_id cl) p (pair_at m tx cl))
          (pair_at m tx cl)
store_same m a tx cl = pair_at-store_pair m a.tx_id a.client_id _ tx cl

finish_data-Refines :
    (m : LogManager) (a : LogAddress) (r : Option (String × Log.DataLog))
    → let p = pair_at m a.tx_id a.client_id in
      Refines m a (data_step p r) (finish_data a (p, store_pair m a.tx_id a.client_id p) r)
unfolding finish_data
finish_data-Refines m a none = (refl, store_same m a)
finish_data-Refines m a (some (out, l)) = (refl, store_twice m a _ _)

finish_transaction-Refines :
    (m : LogManager) (a : LogAddress) (r : Option (String × Log.TransactionLog))
    → let p = pair_at m a.tx_id a.client_id in
      Refines m a
        (transaction_step p r)
        (finish_transaction a (p, store_pair m a.tx_id a.client_id p) r)
unfolding finish_transaction
finish_transaction-Refines m a none = (refl, store_same m a)
finish_transaction-Refines m a (some (out, l)) = (refl, store_twice m a _ _)

module _ (m : LogManager) (a : LogAddress) where
  abbrev found : LogPair × LogManager
  found = let p = pair_at m a.tx_id a.client_id in (p, store_pair m a.tx_id a.client_id p)

  once-Refines :
      (t : LogType) (d : String)
      → Refines m a (pair_step t (pair_at m a.tx_id a.client_id) (once a d)) (once_on t a d found)
  unfolding once_on
  once-Refines LogType.data_type d = finish_data-Refines m a (data_log_once found.0.data_log d)
  once-Refines LogType.transaction_type d =
      finish_transaction-Refines m a (transaction_log_once found.0.transaction_log d)

  write-Refines :
      (t : LogType) (d : String)
      → Refines m a (pair_step t (pair_at m a.tx_id a.client_id) (write a d)) (write_on t a d found)
  unfolding write_on
  write-Refines LogType.data_type d = finish_data-Refines m a (data_log_write found.0.data_log d)
  write-Refines LogType.transaction_type d =
      finish_transaction-Refines m a (transaction_log_write found.0.transaction_log d)

  read-Refines :
      (t : LogType)
      → Refines m a (pair_step t (pair_at m a.tx_id a.client_id) (read a)) (read_on t found)
  unfolding read_on
  read-Refines LogType.data_type = (refl, store_same m a)
  read-Refines LogType.transaction_type = (refl, store_same m a)

-- For every request, the manager's answer is that of the addressed log alone, an exception included;
-- afterwards the addressed pair is the one which that log leaves, and every other pair is unchanged.
pub serve-Refines :
    (m : LogManager) (r : Request) → Refines m (target r) (addressed m r) (serve m r)
unfolding serve log_once log_write log_read get_log_pair
serve-Refines m (once a d) = once-Refines m a a.type d
serve-Refines m (write a d) = write-Refines m a a.type d
serve-Refines m (read a) = read-Refines m a a.type
