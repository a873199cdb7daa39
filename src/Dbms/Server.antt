-- ===== src/Dbms/Server.antt =====
-- DBMS/main.cpp and the paths of Cornus/include/messaging/dbms.hpp: how a request of a node names a
-- log, and what the server does with it. The HTTP library is a parameter: it turns a path that fits a
-- pattern into the values of the pattern's parameters.
pub mod Paths
pub mod Http
use cornus.Base.{
  ℕ, String, ◌==◌, Option, none, some, Bytes, Bytes-discrete, List, ◌∷◌, ◌++◌, codes, if◌then◌else◌,
  Bool,
}
use cornus.Base.Dict.{Dict, get}
use cornus.Base.Decimal.{to_string, stoul}
use cornus.Dbms.Manager.{
  LogType, data_type, transaction_type, LogAddress, LogManager, log_once, log_read, log_write,
}
use mathlib.Core.Logic.{ite}

-- `req.path_params`
abbrev pub PathParams : Type 0
PathParams = Dict Bytes Bytes

-- `at`, which throws on a missing key.
abbrev pub at : PathParams → String → Option Bytes
at ps k = get Bytes-discrete ps (codes k)

unfoldable pub log_type : Bytes → Option LogType
log_type w =
    ite (Bytes-discrete w (codes "DATA")) (some data_type)
      (ite (Bytes-discrete w (codes "TRANSACTION")) (some transaction_type) none)

infixl 5 ◌>>=◌
abbrev pub ◌>>=◌ {ℓ} : {A B : Type ℓ} → Option A → (A → Option B) → Option B
none >>= f = none
some a >>= f = f a

-- `getLogAddress`; `none` for each of its exceptions.
unfoldable pub get_log_address : PathParams → Option LogAddress
unfolding log_type
get_log_address ps = do
  transaction_id ← at ps "txId"
  client_id ← at ps "clId"
  data_or_transaction ← at ps "dOrt"
  tx_id ← stoul transaction_id
  type ← log_type data_or_transaction
  some (record { tx_id = tx_id; client_id = client_id; type = type })

-- The three routes. An exception before the call of the manager leaves it as it was.
unfoldable pub answer :
    (LogAddress → Option String × LogManager)
    → LogManager
    → Option LogAddress
    → Option String × LogManager
answer f m none = (none, m)
answer f m (some a) = f a

unfoldable pub on_log_read : LogManager → PathParams → Option String × LogManager
unfolding answer get_log_address
on_log_read m ps = answer (λ a. log_read m a) m (get_log_address ps)

unfoldable pub on_log_write : LogManager → PathParams → String → Option String × LogManager
unfolding answer get_log_address
on_log_write m ps body = answer (λ a. log_write m a body) m (get_log_address ps)

unfoldable pub on_log_once : LogManager → PathParams → String → Option String × LogManager
unfolding answer get_log_address
on_log_once m ps body = answer (λ a. log_once m a body) m (get_log_address ps)

unfoldable pub type_word : LogType → Bytes
type_word data_type = codes "DATA"
type_word transaction_type = codes "TRANSACTION"

-- `getPath` of the client
unfoldable pub get_path : String → ℕ → Bytes → LogType → Bytes
unfolding type_word
get_path endpoint tx_id host_id type =
    b'/'
    ∷ (codes endpoint
        ++ (b'/' ∷ (to_string tx_id ++ (b'/' ∷ (host_id ++ (b'/' ∷ type_word type))))))
