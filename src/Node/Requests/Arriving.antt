-- ===== src/Node/Requests/Arriving.antt =====
-- What a packet of a handler makes of the node that it reaches.
use cornus.Base.{
  ℕ, ◌<◌, ◌^◌, ◌≡◌, refl, String, Option, none, some, Bytes, Bytes-discrete, ℕ_discrete, List, [],
  ◌∷◌, codes, arith,
}
use cornus.Base.Split.{avoids}
use cornus.Base.Dict.{get, put, lookup, without}
use cornus.Base.Decimal.{to_string, stoul-to_string}
use cornus.Handler.Prog.{RequestType, Packet}
use cornus.Handler.Wire.{packet_params, packet_request}
use cornus.Handler.Wire.Clean.{IsClean, CleanKeys, params-Both}
use cornus.Node.Handlers.{
  Event, starts, finishes, tells, Callback, on_new_request, on_old_request, Kind, coordinator_kind,
  participant_kind, replicator_kind, committer_kind, MapName, Version, paper_version, new_version,
  is_transaction_handler,
}
use cornus.Node.Requests.{
  ◌>>=◌, get_tx_id, start_events, new_request_events, old_request_events, thread_events,
}
use cornus.Tcp.Request.{key_value_delim, pair_delim, Visit, TcpRequest, parse_request, get_param}
use cornus.Tcp.Request.RoundTrip.{IsText, Visits, TextParams, lookup-Both, get_param-parse_request}

-- The texts that a packet carries hold neither delimiter of the parameters.
pub record IsWritable (p : Packet) : Type 0 where
  pub txid : p.txid < 2 ^ 64
  pub texts : IsClean key_value_delim pair_delim p

keys-Clean : CleanKeys key_value_delim pair_delim
unfolding codes avoids
keys-Clean = (refl, (refl, (refl, (refl, (refl, (refl, tt))))))

module _ (p : Packet) (w : IsWritable p) where
  get-txid : get Bytes-discrete (packet_params p) (codes "txid") ≡ some (to_string p.txid)
  unfolding get lookup packet_params put without codes Bytes-discrete ℕ_discrete
  get-txid = refl

  get-config :
      (c : Option Bytes)
      → get Bytes-discrete (packet_params (record p { config = c })) (codes "config") ≡ c
  unfolding get lookup packet_params put without codes Bytes-discrete ℕ_discrete
  get-config none = refl
  get-config (some config) = refl

  module _ (visit : Visit) (visits : Visits visit) where
    packet-TextParams : TextParams visit visits (packet_params p)
    unfolding get
    packet-TextParams k v e =
        lookup-Both IsText (packet_params p).entries k v
          (params-Both key_value_delim pair_delim p w.texts (omega arith) (omega arith) keys-Clean)
          e

    -- The request as the other node reads it.
    abbrev received : TcpRequest
    received = parse_request (codes p.endpoint) (packet_request visit p).request

    received_param :
        (k : String) → get_param received (codes k) ≡ get Bytes-discrete (packet_params p) (codes k)
    unfolding packet_request
    received_param k =
        get_param-parse_request visit visits (codes p.endpoint) (packet_params p) packet-TextParams
          (codes k)

    received_tx_id : get_tx_id received ≡ some p.txid
    unfolding get_tx_id
    received_tx_id = rw (received_param "txid", get-txid, stoul-to_string p.txid w.txid) refl

-- The events that a packet is to lead to; `none` ends the process. The paper's version has no replicators
-- and committers.
abbrev pub events_of : Version → Callback → ℕ → Option Bytes → Option (List Event)
events_of version (on_new_request kind type transactions) txid none = none
events_of new_version (on_new_request kind type transactions) txid (some config) =
    some (starts kind config txid transactions ∷ finishes txid transactions ∷ [])
events_of paper_version (on_new_request replicator_kind type transactions) txid (some config) = none
events_of paper_version (on_new_request committer_kind type transactions) txid (some config) = none
events_of paper_version (on_new_request coordinator_kind type transactions) txid (some config) =
    some (starts coordinator_kind config txid transactions ∷ finishes txid transactions ∷ [])
events_of paper_version (on_new_request participant_kind type transactions) txid (some config) =
    some (starts participant_kind config txid transactions ∷ finishes txid transactions ∷ [])
events_of version (on_old_request type transactions) txid config =
    some (tells txid type transactions ∷ [])

-- The last test of `onNewRequest`, for a packet's configuration.
started :
    (version : Version) (kind : Kind) (type : RequestType) (m : MapName) (txid : ℕ)
    (config : Option Bytes)
    → (config >>= start_events version kind m txid)
      ≡ events_of version (on_new_request kind type m) txid config
unfolding start_events is_transaction_handler
started version kind type m txid none = refl
started new_version kind type m txid (some c) = refl
started paper_version coordinator_kind type m txid (some c) = refl
started paper_version participant_kind type m txid (some c) = refl
started paper_version replicator_kind type m txid (some c) = refl
started paper_version committer_kind type m txid (some c) = refl

pub thread_events-packet_request :
    (version : Version) (visit : Visit) (visits : Visits visit) (p : Packet) (callback : Callback)
    → IsWritable p
    → thread_events version callback
        (parse_request (codes p.endpoint) (packet_request visit p).request)
      ≡ events_of version callback p.txid p.config
unfolding thread_events new_request_events old_request_events
thread_events-packet_request version visit visits p (on_old_request type m) w =
    rw (received_tx_id p w visit visits) refl
thread_events-packet_request version visit visits p (on_new_request kind type m) w =
    rw
      (
        received_tx_id p w visit visits,
        received_param p w visit visits "config",
        get-config p w p.config,
      )
      (started version kind type m p.txid p.config)
