-- ===== src/Handler/Links.antt =====
-- The map `clients` of a Sender (Cornus/include/transactionHandlers/Sender.hpp): a connection for each
-- host that it has sent to. A client that cannot be built is an exception or undefined: `none`.
pub mod Reuse
use cornus.Base.{ℕ, ◌+◌, Option, none, some, Bytes-discrete, List, [], ◌∷◌}
use cornus.Base.Dict.{Dict, empty, get, put}
use cornus.Config.Transaction.{HostId}
use cornus.Tcp.Client.{Network, TcpClient, Built, throws, undefined_address, built, new_client}

-- The map, and how often this process has called `socket`.
pub record Clients : Type 0 where
  pub entries : Dict HostId TcpClient
  pub opened : ℕ

emplace : Clients → HostId → Built → Option (TcpClient × Clients)
emplace clients host throws = none
emplace clients host undefined_address = none
emplace clients host (built c) =
    some (
      c,
      record { entries = put Bytes-discrete clients.entries host c; opened = clients.opened + 1 },
    )

find_or_emplace : Network → Clients → HostId → Option TcpClient → Option (TcpClient × Clients)
unfolding emplace
find_or_emplace net clients host none = emplace clients host (new_client net clients.opened host)
find_or_emplace net clients host (some c) = some (c, clients)

-- The body of the loop of `send`, up to the request.
client_for : Network → Clients → HostId → Option (TcpClient × Clients)
unfolding find_or_emplace
client_for net clients host =
    find_or_emplace net clients host (get Bytes-discrete clients.entries host)

add_client : TcpClient → Option (List TcpClient × Clients) → Option (List TcpClient × Clients)
add_client c none = none
add_client c (some (cs, clients)) = some (c ∷ cs, clients)

then_rest :
    Option (TcpClient × Clients)
    → (Clients → Option (List TcpClient × Clients))
    → Option (List TcpClient × Clients)
unfolding add_client
then_rest none rest = none
then_rest (some (c, clients)) rest = add_client c (rest clients)

-- The clients on which `send` makes its requests to a group.
unfoldable pub group_clients : Network → Clients → List HostId → Option (List TcpClient × Clients)
unfolding client_for then_rest
group_clients net clients [] = some ([], clients)
group_clients net clients (host ∷ group) =
    then_rest (client_for net clients host) (λ clients'. group_clients net clients' group)

only_clients : Option (TcpClient × Clients) → Option Clients
only_clients none = none
only_clients (some (c, clients)) = some clients

-- What the constructor of the paper's participant puts into the map.
unfoldable pub participant_clients : Network → ℕ → HostId → Option Clients
unfolding emplace only_clients
participant_clients net opened coordinator = only_clients (
    emplace (record { entries = empty; opened = opened }) coordinator
      (new_client net opened coordinator))

-- The same, of the new version's participant.
unfoldable pub new_participant_clients : Network → ℕ → HostId → Option Clients
unfolding emplace only_clients
new_participant_clients net opened coordinator = only_clients (
    emplace (record { entries = empty; opened = opened }) coordinator
      (new_client net opened coordinator))

-- `clients[coordinator]->` of `sendToCoordinator`; `none` is a null pointer.
unfoldable pub coordinator_client : Clients → HostId → Option TcpClient
coordinator_client clients coordinator = get Bytes-discrete clients.entries coordinator
