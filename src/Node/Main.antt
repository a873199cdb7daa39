-- ===== src/Node/Main.antt =====
-- `main` of Cornus/main.cpp. Reading the configuration file is the JSON library's and the file system's:
-- `load` is `none` where they throw.
use cornus.Base.{ℕ, Bool, true, false, codes, Option, none, some, Bytes, List, [], ◌∷◌}
use cornus.Config.Host.{HostJson, HostConfig, new_host_config}
use cornus.Dbms.Client.{RequestInterface, init_dbms}
use cornus.Node.Handlers.{Handler}
use cornus.Node.Requests.{NodeState, new_node_state, node_server, client_address}
use cornus.Tcp.Server.{TcpServer, System, Served, run_server}

-- What runs after the start: the calls of the DBMS, the state of the message handler and its server.
pub record Running (W : Type 0) : Type 0 where
  pub dbms : RequestInterface W
  pub state : NodeState
  pub server : TcpServer

pub data Started (W : Type 0) : Type 0 where
  usage_error bad_configuration : Started W
  runs : Running W → Started W

start_with : {W : Type 0} → (ℕ → Handler) → Option HostConfig → Started W
unfolding init_dbms
start_with store none = bad_configuration
start_with store (some configuration) = runs (record {
  dbms = init_dbms;
  state = new_node_state store configuration;
  server = node_server configuration.port;
})

configure : Option HostJson → Option HostConfig
configure none = none
configure (some json) = new_host_config json

-- The arguments behind the program's name.
unfoldable pub main :
    {W : Type 0} → (Bytes → Option HostJson) → (ℕ → Handler) → List Bytes → Started W
unfolding start_with configure
main load store [] = usage_error
main load store (file ∷ []) = start_with store (configure (load file))
main load store (file ∷ more ∷ rest) = usage_error

-- The end of the constructor: the server for clients listens on a thread, on an address that it may not
-- get, and the constructor waits for it when the server for nodes has returned.
pub record Serving : Type 0 where
  pub clients : Bytes × ℕ
  pub announced : Option Bytes
  pub nodes : Served

failed_to_start : Bool → Option Bytes
failed_to_start true = none
failed_to_start false = some (codes "SERVER FAILED TO START")

unfoldable pub start_servers : (Bytes × ℕ → Bool) → System → HostConfig → Serving
unfolding failed_to_start node_server run_server
start_servers http_listen sys host_config = record {
  clients = client_address host_config;
  announced = failed_to_start (http_listen (client_address host_config));
  nodes = run_server sys (node_server host_config.port);
}
