-- ===== src/Tcp/Request.antt =====
-- The classes TCPRequest and TCPResponse. The parameters of a request are an unordered_map, and the
-- order in which a loop visits its entries is the library's choice: the argument `visit`.
pub mod RoundTrip
pub mod Written
use cornus.Base.{
  ℕ, Bool, true, false, Option, none, some, List, [], ◌∷◌, ◌++◌, ◌≡◌, Bytes, Bytes-discrete, codes,
  eqb, if◌then◌else◌, not, ◌||◌,
}
use cornus.Base.Split.{has_byte, before, behind}
use cornus.Base.Dict.{Dict, empty, get, put}

abbrev pub header_delim : ℕ
header_delim = b'\t'

abbrev pub message_end : ℕ
message_end = b'\n'

abbrev pub key_value_delim : ℕ
key_value_delim = 0x1e

abbrev pub pair_delim : ℕ
pair_delim = 0x1f

abbrev pub Params : Type 0
Params = Dict Bytes Bytes

abbrev pub Visit : Type 0
Visit = Params → List (Bytes × Bytes)

pub record TcpRequest : Type 0 where
  pub endpoint : Bytes
  pub request : Bytes
  pub params : Params

pub record TcpResponse : Type 0 where
  pub response : Bytes

abbrev pub tcp_ok : TcpResponse
tcp_ok = record { response = codes "OK" }

-- What the calls of `std::getline` on one stream read, until one fails: the last text is there only
-- if bytes follow the last delimiter. `cur` is the text so far.
get_lines : ℕ → Bytes → Bytes → List Bytes
get_lines d [] [] = []
get_lines d [] (c ∷ cur) = (c ∷ cur) ∷ []
get_lines d (c ∷ s) cur = elim (eqb c d) [
  | true ↦ cur ∷ get_lines d s []
  | false ↦ get_lines d s (cur ++ c ∷ [])
]

-- The loop of the constructor over the pairs.
read_pairs : List Bytes → Params → Params
unfolding has_byte before behind
read_pairs [] params = params
read_pairs (pair ∷ pairs) params =
    let key = before key_value_delim pair in
    let val = before key_value_delim (behind key_value_delim pair) in
    let rest = read_pairs pairs (put Bytes-discrete params key val) in
    if not (has_byte key_value_delim pair) then params else rest

-- `TCPRequest(endpoint, request)`, for both kinds of references.
unfoldable pub parse_request : Bytes → Bytes → TcpRequest
unfolding get_lines read_pairs
parse_request endpoint request = record {
  endpoint = endpoint;
  request = request;
  params = read_pairs (get_lines pair_delim request []) empty;
}

-- The loop of `writeParams`.
write_pairs : List (Bytes × Bytes) → Bytes → Bytes
write_pairs [] request = request
write_pairs ((param, val) ∷ pairs) request =
    write_pairs pairs (request ++ (param ++ (key_value_delim ∷ (val ++ (pair_delim ∷ [])))))

unfoldable pub write_params : Visit → TcpRequest → TcpRequest
unfolding write_pairs
write_params visit r = record r { request = write_pairs (visit r.params) [] }

-- `TCPRequest(endpoint, params)`, for both kinds of references.
unfoldable pub params_request : Visit → Bytes → Params → TcpRequest
unfolding write_params
params_request visit endpoint params =
    write_params visit (record { endpoint = endpoint; request = []; params = params })

unfoldable pub set_param : Visit → TcpRequest → Bytes → Bytes → TcpRequest
unfolding write_params
set_param visit r param value =
    write_params visit (record r { params = put Bytes-discrete r.params param value })

-- `none` where the assertion fails.
unfoldable pub get_param : TcpRequest → Bytes → Option Bytes
get_param r param = get Bytes-discrete r.params param

-- The pairs as `operator<<` prints them.
print_pairs : List (Bytes × Bytes) → Bytes
print_pairs [] = []
print_pairs ((param, val) ∷ pairs) =
    codes "{ param: "
    ++ (param ++ (codes ", val: \"" ++ (val ++ (codes "\" }, " ++ print_pairs pairs))))

unfoldable pub print_request : Visit → TcpRequest → Bytes
unfolding print_pairs
print_request visit r =
    codes "TCP Request = { endpoint = \""
    ++ (r.endpoint
        ++ (codes "\", request = \""
            ++ (r.request
                ++ (codes "\", params: {" ++ (print_pairs (visit r.params) ++ codes "}}")))))

unfoldable pub print_response : TcpResponse → Bytes
print_response r = codes "TCP Response = { response = \"" ++ (r.response ++ codes "\"}")
