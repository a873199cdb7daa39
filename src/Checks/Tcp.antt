-- ===== src/Checks/Tcp.antt =====
-- Parameters of requests, sending and addresses on concrete inputs.
use cornus.Base.{
  ℕ, zero, suc, ◌≡◌, ◌≢◌, refl, true, some, List, [], ◌∷◌, ◌++◌, Bytes, Bytes-discrete, All, codes,
  length, arith, ℕ_discrete,
}
use cornus.Base.Dict.{empty, get, put, lookup, without}
use cornus.Base.Split.{Lacks, avoids, avoids-All}
use cornus.Tcp.Request.{
  header_delim, message_end, key_value_delim, pair_delim, Params, parse_request, params_request,
  get_param,
}
use cornus.Tcp.Request.RoundTrip.{IsText, lookup-Both, TextParams, get_param-parse_request}
use cornus.Tcp.Frame.{decoded, get_request}
use cornus.Tcp.Frame.RoundTrip.{NoEnd, IsPart, message, get_request-pipelined}
use cornus.Tcp.Socket.{SendAnswer, takes, refuses, try_send_data}
use cornus.Tcp.Socket.Laws.{SentOf, Accepts, try_send_data-SentOf}
use cornus.Tcp.Client.{parse_address}
use cornus.Tcp.Client.Address.{parse_address-new_host_config}
use cornus.Checks.Visit.{in_order, in_order-Visits}
use cornus.Checks.Config.{host2, host2_config, host2_built}

ends_at : (d e : ℕ) (s : Bytes) → All (λ c. (c ≢ d) × (c ≢ e)) s → Lacks e s
ends_at d e [] h = tt
ends_at d e (c ∷ s) (h, hs) = (h.1, ends_at d e s hs)

pub ends : (s : Bytes) → IsPart s → NoEnd s
ends s h = ends_at header_delim message_end s h

abbrev vote : Bytes
vote = codes "VOTEYES"

abbrev params : Params
params =
    put Bytes-discrete (put Bytes-discrete empty (codes "txid") (codes "65537")) (codes "type") vote

-- Both texts can stand in a request.
texts :
    (k v : Bytes)
    → avoids key_value_delim pair_delim k ≡ true
    → avoids key_value_delim pair_delim v ≡ true
    → IsText k × IsText v
texts k v h h' =
    (avoids-All key_value_delim pair_delim k h, avoids-All key_value_delim pair_delim v h')

params-Text : TextParams in_order in_order-Visits params
unfolding codes avoids get lookup put without Bytes-discrete ℕ_discrete
params-Text k v e =
    lookup-Both IsText params.entries k v
      (texts (codes "type") vote refl refl, (texts (codes "txid") (codes "65537") refl refl, tt)) e

get_param-parse_request_example :
    get_param (parse_request vote (params_request in_order vote params).request) (codes "txid")
    ≡ get Bytes-discrete params (codes "txid")
get_param-parse_request_example =
    get_param-parse_request in_order in_order-Visits vote params params-Text (codes "txid")

abbrev pub hello : Bytes
hello = codes "hello"

abbrev pub world : Bytes
world = codes "world"

pub hello-IsPart : IsPart hello
unfolding codes avoids
hello-IsPart = avoids-All header_delim message_end hello refl

pub world-IsPart : IsPart world
unfolding codes avoids
world-IsPart = avoids-All header_delim message_end world refl

get_request-pipelined_example :
    get_request (message hello world ++ message hello world)
    ≡ decoded (parse_request (message hello world ++ hello) world)
get_request-pipelined_example = get_request-pipelined hello world hello world world-IsPart

-- `send` takes one byte at each of `n` calls.
pub eager : ℕ → List SendAnswer
eager zero = []
eager (suc n) = takes 1 ∷ eager n

pub eager-Accepts : (n : ℕ) → All Accepts (eager n)
unfolding eager
eager-Accepts zero = tt
eager-Accepts (suc n) = (omega arith, eager-Accepts n)

pub length-eager : (n : ℕ) → length (eager n) ≡ n
unfolding eager
length-eager zero = refl
length-eager (suc n) = omega (arith, length-eager n)

try_send_data-SentOf_example : SentOf world (try_send_data (takes 2 ∷ refuses ∷ []) world)
try_send_data-SentOf_example = try_send_data-SentOf (takes 2 ∷ refuses ∷ []) world

parse_address-new_host_config_example :
    parse_address host2_config.id ≡ some (host2_config.host, host2_config.port)
unfolding codes avoids
parse_address-new_host_config_example =
    parse_address-new_host_config host2 host2_config
      (ends_at b':' b':' host2.host (avoids-All b':' b':' host2.host refl)) (omega arith)
      host2_built
