-- ===== src/Handler/Wire.antt =====
-- The requests that a Sender builds (Cornus/include/transactionHandlers/Sender.hpp) from the packets of
-- Handler/Sender. All keys of the parameters differ, so `emplace` adds an entry.
pub mod Clean
use cornus.Base.{Option, none, some, Bytes, Bytes-discrete, [], codes}
use cornus.Base.Dict.{empty, put}
use cornus.Base.Decimal.{to_string}
use cornus.Handler.Prog.{Packet}
use cornus.Tcp.Request.{Params, Visit, TcpRequest, params_request}

-- What the requests of `send` and of `sendToCoordinator` have in common.
common_params : Packet → Params → Params
unfolding put
common_params p params =
    let with_txid = put Bytes-discrete params (codes "txid") (to_string p.txid) in
    let with_type = put Bytes-discrete with_txid (codes "type") (codes p.endpoint) in
    put Bytes-discrete with_type (codes "sender") p.sender

-- The parameters before them: only `send` gives a configuration.
group_params : Bytes → Params
unfolding put
group_params config =
    put Bytes-discrete (put Bytes-discrete empty (codes "config") config) (codes "command") []

coordinator_params : Params
unfolding put
coordinator_params = put Bytes-discrete empty (codes "request") []

first_params : Option Bytes → Params
unfolding group_params coordinator_params
first_params none = coordinator_params
first_params (some config) = group_params config

unfoldable pub packet_params : Packet → Params
unfolding common_params first_params
packet_params p = common_params p (first_params p.config)

unfoldable pub packet_request : Visit → Packet → TcpRequest
unfolding packet_params params_request
packet_request visit p = params_request visit (codes p.endpoint) (packet_params p)
