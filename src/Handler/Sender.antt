-- ===== src/Handler/Sender.antt =====
-- Cornus/include/transactionHandlers/Sender.hpp. The requests of one `send` go out on threads of
-- their own and all responses are awaited; here they are effects in the order of the group, and the
-- network may deliver them in any order. The map of open connections is in
-- Handler/Links.
use cornus.Base.{String, none, some, Bytes, List, [], ◌∷◌, codes}
use cornus.Config.Transaction.{HostId, TransactionConfig}
use cornus.Config.Host.{HostConfig}
use cornus.Handler.Prog.{Packet, send, Prog, ret, ◌>>◌, perform, record_event}

pub record Sender : Type 0 where
  pub config : TransactionConfig
  pub hostname : HostId
  pub host_config : HostConfig

-- The request of `send` for one host of the group.
abbrev pub group_packet : Sender → String → Bytes → HostId → Packet
group_packet s type req_config h = record {
  to = h;
  endpoint = type;
  config = some req_config;
  txid = s.config.txid;
  sender = s.hostname;
}

-- `send`: a request for each host, of which the responses are awaited together.
unfoldable pub send_group : Sender → String → Bytes → List HostId → Prog (Unit {0})
send_group s type req_config [] = ret tt
send_group s type req_config (h ∷ group) = do
  perform (send (group_packet s type req_config h))
  send_group s type req_config group

unfoldable pub send_to_participants : Sender → String → Bytes → Prog (Unit {0})
unfolding send_group
send_to_participants s type req_config = send_group s type req_config s.config.participants

unfoldable pub send_to_replicators : Sender → String → Bytes → Prog (Unit {0})
unfolding send_group
send_to_replicators s type req_config = send_group s type req_config s.host_config.replicators

unfoldable pub send_to_coordinator : Sender → String → Prog (Unit {0})
send_to_coordinator s type = perform (
    send (record {
      to = s.config.coordinator;
      endpoint = type;
      config = none;
      txid = s.config.txid;
      sender = s.hostname;
    }))

-- `watch.record`
abbrev pub watch : String → Prog (Unit {0})
watch event = perform (record_event (codes event))
