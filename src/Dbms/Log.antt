-- ===== src/Dbms/Log.antt =====
-- DBMS/include/log.hpp: one transaction log and one data log. A method takes the log and returns it
-- with the text that the C++ method returns, or `none` for an uncaught `std::runtime_error`. Each
-- method holds its mutex from start to end, so a call is one atomic step.
use Prim.Native.String.{◌++◌}
use cornus.Base.{String, Bool, ◌||◌, not, Option, none, some, ◌==◌, if◌then◌else◌}

pub record TransactionLog : Type 0 where
  pub decision : String

abbrev pub new_transaction_log : TransactionLog
new_transaction_log = record { decision = "WORKING" }

pub record DataLog : Type 0 where
  pub data_log_entries : String

abbrev pub new_data_log : DataLog
new_data_log = record { data_log_entries = "" }

pub record LogPair : Type 0 where
  pub data_log : DataLog
  pub transaction_log : TransactionLog

abbrev pub new_log_pair : LogPair
new_log_pair = record { data_log = new_data_log; transaction_log = new_transaction_log }

-- `checkUndefinedInput` passes; otherwise it throws.
unfoldable pub check_undefined_input : String → Bool
check_undefined_input d = d == "ABORT" || d == "COMMIT" || d == "VOTEYES"

unfoldable pub transaction_log_read : TransactionLog → String
transaction_log_read l = l.decision

unfoldable pub transaction_log_write : TransactionLog → String → Option (String × TransactionLog)
unfolding check_undefined_input
transaction_log_write l d =
    if check_undefined_input d then some (d, record { decision = d }) else none

unfoldable pub transaction_log_once : TransactionLog → String → Option (String × TransactionLog)
unfolding check_undefined_input
transaction_log_once l d =
    if not (l.decision == "WORKING")
    then some (l.decision, l)
    else if check_undefined_input d
    then some (d, record { decision = d })
    else none

unfoldable pub data_log_read : DataLog → String
data_log_read l = l.data_log_entries

-- The answer is the text that was passed in, not the whole log.
unfoldable pub data_log_write : DataLog → String → Option (String × DataLog)
data_log_write l d = some (d, record { data_log_entries = separated ++ d })
  where
    separated : String
    separated =
        if not (l.data_log_entries == "") then l.data_log_entries ++ ";" else l.data_log_entries

-- "LOG ONCE NOT FOR DATA LOGS!"
unfoldable pub data_log_once : DataLog → String → Option (String × DataLog)
data_log_once l d = none
