-- ===== src/Node/Requests.antt =====
-- The requests of Cornus/include/messaging/GlobalMessageHandler.hpp: what the callbacks of the TCP server
-- and the route for clients do on a node. A thread that runs `onNewRequest` or `onOldRequest` comes to
-- the critical sections of Node/Handlers, between which other threads run.
pub mod Arriving
pub mod Answering
pub mod EndToEnd
use cornus.Base.{
  ℕ, ◌+◌, String, Bool, true, false, Option, none, some, Bytes, if◌then◌else◌, List, [], ◌∷◌, codes,
}
use cornus.Base.Dict.{empty}
use cornus.Base.Decimal.{stoul}
use cornus.Config.Host.{HostConfig}
use cornus.Config.Transaction.{HostId}
use cornus.Handler.Prog.{RequestType}
use cornus.Node.TxId.{IdSource, new_id_source, get_unique_transaction_id}
use cornus.Node.Handlers.{
  Kind, coordinator_kind, participant_kind, replicator_kind, committer_kind, MapName, handlers,
  replicators, committers, Handler, Node, Event, starts, finishes, tells, Callback, on_new_request,
  on_old_request, Version, paper_version, new_version, is_transaction_handler, create_node,
  remove_from_map,
}
use cornus.Tcp.Request.{TcpRequest, tcp_ok, get_param}
use cornus.Tcp.Connection
use cornus.Tcp.Server.{TcpServer, new_server, register}

infixl 5 ◌>>=◌
abbrev pub ◌>>=◌ {ℓ} : {A B : Type ℓ} → Option A → (A → Option B) → Option B
none >>= f = none
some a >>= f = f a

-- `getTxId`; `none` is a failed assertion or an exception of `stoul`.
unfoldable pub get_tx_id : TcpRequest → Option ℕ
unfolding get_param
get_tx_id req = do txid_in ← get_param req (codes "txid"); stoul txid_in

start_events : Version → Kind → MapName → ℕ → Bytes → Option (List Event)
unfolding is_transaction_handler
start_events version kind transactions txid config =
    if is_transaction_handler version kind
    then some (starts kind config txid transactions ∷ finishes txid transactions ∷ [])
    else none

-- `onNewRequest`: the handler runs between the two events. Nobody catches an exception of the thread, so
-- `none` ends the process.
new_request_events : Version → Kind → MapName → TcpRequest → Option (List Event)
unfolding get_tx_id get_param start_events
new_request_events version kind transactions req = do
  txid ← get_tx_id req
  config ← get_param req (codes "config")
  start_events version kind transactions txid config

-- `onOldRequest`
old_request_events : RequestType → MapName → TcpRequest → Option (List Event)
unfolding get_tx_id
old_request_events type transactions req = do
  txid ← get_tx_id req
  some (tells txid type transactions ∷ [])

-- The thread that a callback starts.
unfoldable pub thread_events : Version → Callback → TcpRequest → Option (List Event)
unfolding new_request_events old_request_events
thread_events version (on_new_request kind type transactions) req =
    new_request_events version kind transactions req
thread_events version (on_old_request type transactions) req =
    old_request_events type transactions req

-- All callbacks start a thread and return at once.
abbrev pub acknowledge : cornus.Tcp.Connection.Callback
acknowledge req = tcp_ok

-- The server that the constructor sets up.
unfoldable pub node_server : ℕ → TcpServer
unfolding new_server register
node_server port =
    let s0 = new_server port 100 in
    let s1 = register s0 (codes "VOTEREQ") acknowledge in
    let s2 = register s1 (codes "VOTEYES") acknowledge in
    let s3 = register s2 (codes "ABORT") acknowledge in
    let s4 = register s3 (codes "COMMIT") acknowledge in
    let s5 = register s4 (codes "WILLCOMMIT") acknowledge in
    let s6 = register s5 (codes "DECISIONCOMPLETED") acknowledge in
    register s6 (codes "OVERRIDECOMMIT") acknowledge

-- The state of GlobalMessageHandler besides its servers.
pub record NodeState : Type 0 where
  pub ids : IdSource
  pub node : Node
  pub hostname : HostId

-- What the constructor sets up, over whatever the memory for handlers holds; the server for clients
-- listens on another port of the same host.
unfoldable pub new_node_state : (ℕ → Handler) → HostConfig → NodeState
new_node_state store host_config = record {
  ids = new_id_source host_config.host_num;
  node = record { store = store; next = 0; maps = λ m. empty };
  hostname = host_config.id;
}

abbrev pub client_address : HostConfig → Bytes × ℕ
client_address host_config = (host_config.host, host_config.port + 100)

abbrev runs_on : Version → Bool
runs_on paper_version = false
runs_on new_version = true

-- What a client gets, and whether `finishTransaction` goes on in the background.
pub record ClientAnswer : Type 0 where
  pub content : String
  pub background : Bool

-- The part of `onClientRequest` behind `createNode`.
answer_client :
    Version
    → (ℕ → Node → String × Node)
    → NodeState
    → ℕ
    → Option (ℕ × Node)
    → Option (ClientAnswer × NodeState)
unfolding remove_from_map
answer_client version meanwhile s txid none = none
answer_client version meanwhile s txid (some (address, started)) =
    let (d, done) = meanwhile address started in
    some (
      record { content = d; background = runs_on version },
      record s { node = remove_from_map done txid handlers },
    )

-- `onClientRequest`, for the parameter "config" of a request. The argument `meanwhile` is the run of
-- `handleTransaction` of the coordinator at an address, with all that other threads do on the node
-- until it returns its decision. No other call takes an id at the same time. `none` is an exception.
unfoldable pub on_client_request :
    Version → (ℕ → Node → String × Node) → NodeState → Bytes → Option (ClientAnswer × NodeState)
unfolding create_node answer_client
on_client_request version meanwhile s config =
    let (txid, ids) = get_unique_transaction_id s.ids in
    answer_client version meanwhile (record s { ids = ids }) txid
      (create_node version s.node coordinator_kind config txid handlers)
