-- ===== src/Node/Requests/EndToEnd.antt =====
-- From the packet of a handler on one node to the thread that it starts on another.
use cornus.Base.{ℕ, ◌+◌, ◌<◌, ◌≡◌, some, [], ◌∷◌, Bytes-discrete, All, length, codes}
use cornus.Base.Dict.{get}
use cornus.Handler.Prog.{Packet}
use cornus.Handler.Wire.{packet_request}
use cornus.Handler.Wire.Clean.{IsClean}
use cornus.Node.Requests.{node_server, acknowledge}
use cornus.Node.Requests.Arriving.{IsWritable}
use cornus.Tcp.Request.{header_delim, message_end, Visit}
use cornus.Tcp.Frame.{max_message_size}

-- The server of a node has a callback for every endpoint that the constructor names.
KnownLiterals : ℕ → Type 0
KnownLiterals port =
    All (λ e. get Bytes-discrete (node_server port).callbacks (codes e) ≡ some acknowledge)
      ("VOTEREQ" ∷ "VOTEYES" ∷ "ABORT" ∷ "COMMIT" ∷ "WILLCOMMIT" ∷ "DECISIONCOMPLETED"
        ∷ "OVERRIDECOMMIT" ∷ [])

-- A packet whose request the network can carry.
pub record IsSendable (visit : Visit) (p : Packet) : Type 0 where
  pub writable : IsWritable p
  pub parts : IsClean header_delim message_end p
  pub size :
      length (packet_request visit p).endpoint + length (packet_request visit p).request + 2
      < max_message_size
