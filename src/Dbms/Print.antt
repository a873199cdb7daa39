-- ===== src/Dbms/Print.antt =====
-- How DBMS/include/types.hpp prints an address.
use cornus.Base.{Bytes, ◌++◌, codes}
use cornus.Base.Decimal.{to_string}
use cornus.Dbms.Manager.{LogType, data_type, transaction_type, LogAddress}

unfoldable pub print_log_type : LogType → Bytes
print_log_type data_type = codes "DataLog"
print_log_type transaction_type = codes "TransactionLog"

unfoldable pub print_log_address : LogAddress → Bytes
unfolding print_log_type
print_log_address a =
    codes "LogAddress =  { txId = "
    ++ (to_string a.tx_id
        ++ (codes " clientId = "
            ++ (a.client_id ++ (codes " type = " ++ (print_log_type a.type ++ codes " }")))))
