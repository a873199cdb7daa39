-- ===== src/Dbms/Manager.antt =====
-- DBMS/include/types.hpp and DBMS/include/logManager.hpp: the logs of all transactions and clients.
-- `getLogPair` creates what is missing, so each call returns the manager too. The latency is only
-- slept, and is not modelled.
pub mod View
pub mod Refines
use cornus.Base.{ℕ, String, Option, none, some, Bytes, Bytes-discrete, ℕ_discrete}
use cornus.Base.Dict.{Dict, empty, get, put}
use cornus.Dbms.Log.{
  LogPair, new_log_pair, TransactionLog, DataLog, transaction_log_read, transaction_log_write,
  transaction_log_once, data_log_read, data_log_write, data_log_once,
}

pub data LogType : Type 0 where
  data_type transaction_type : LogType

pub record LogAddress : Type 0 where
  pub tx_id : ℕ
  pub client_id : Bytes
  pub type : LogType

abbrev pub ClientLogStore : Type 0
ClientLogStore = Dict Bytes LogPair

pub record LogManager : Type 0 where
  pub logs : Dict ℕ ClientLogStore

abbrev pub new_log_manager : LogManager
new_log_manager = record { logs = empty }

-- `operator[]` of an unordered_map: the entry, or a new one.
abbrev or_new {ℓ} : {A : Type ℓ} → A → Option A → A
or_new a none = a
or_new a (some b) = b

client_logs : LogManager → ℕ → ClientLogStore
client_logs m tx = or_new empty (get ℕ_discrete m.logs tx)

-- The pair behind an address.
unfoldable pub pair_at : LogManager → ℕ → Bytes → LogPair
unfolding client_logs
pair_at m tx cl = or_new new_log_pair (get Bytes-discrete (client_logs m tx) cl)

-- A change through the reference that `getLogPair` returned.
pub store_pair : LogManager → ℕ → Bytes → LogPair → LogManager
unfolding client_logs
store_pair m tx cl p = record {
  logs = put ℕ_discrete m.logs tx (put Bytes-discrete (client_logs m tx) cl p);
}

get_log_pair : LogManager → LogAddress → LogPair × LogManager
unfolding pair_at store_pair
get_log_pair m a = let p = pair_at m a.tx_id a.client_id in (p, store_pair m a.tx_id a.client_id p)

-- What a log method answers, put back in its pair. A failed method leaves the pair as it was, but
-- the pair is there now.
finish_data :
    LogAddress → LogPair × LogManager → Option (String × DataLog) → Option String × LogManager
unfolding store_pair
finish_data a (p, m) none = (none, m)
finish_data a (p, m) (some (out, l)) =
    (some out, store_pair m a.tx_id a.client_id (record p { data_log = l }))

finish_transaction :
    LogAddress
    → LogPair × LogManager
    → Option (String × TransactionLog)
    → Option String × LogManager
unfolding store_pair
finish_transaction a (p, m) none = (none, m)
finish_transaction a (p, m) (some (out, l)) =
    (some out, store_pair m a.tx_id a.client_id (record p { transaction_log = l }))

-- The branches on `address.type`.
once_on : LogType → LogAddress → String → LogPair × LogManager → Option String × LogManager
unfolding finish_data finish_transaction data_log_once transaction_log_once
once_on data_type a d (p, m) = finish_data a (p, m) (data_log_once p.data_log d)
once_on transaction_type a d (p, m) =
    finish_transaction a (p, m) (transaction_log_once p.transaction_log d)

read_on : LogType → LogPair × LogManager → Option String × LogManager
unfolding data_log_read transaction_log_read
read_on data_type (p, m) = (some (data_log_read p.data_log), m)
read_on transaction_type (p, m) = (some (transaction_log_read p.transaction_log), m)

write_on : LogType → LogAddress → String → LogPair × LogManager → Option String × LogManager
unfolding finish_data finish_transaction data_log_write transaction_log_write
write_on data_type a d (p, m) = finish_data a (p, m) (data_log_write p.data_log d)
write_on transaction_type a d (p, m) =
    finish_transaction a (p, m) (transaction_log_write p.transaction_log d)

unfoldable pub log_once : LogManager → LogAddress → String → Option String × LogManager
unfolding get_log_pair once_on
log_once m a d = once_on a.type a d (get_log_pair m a)

unfoldable pub log_read : LogManager → LogAddress → Option String × LogManager
unfolding get_log_pair read_on
log_read m a = read_on a.type (get_log_pair m a)

unfoldable pub log_write : LogManager → LogAddress → String → Option String × LogManager
unfolding get_log_pair write_on
log_write m a d = write_on a.type a d (get_log_pair m a)
