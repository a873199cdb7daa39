-- ===== src/Tcp/Frame.antt =====
-- How requests and responses stand on a byte stream: `encodeIntoBuffer` of both classes, `getRequest`
-- and `tryDecodeResponse`. A buffer is the list of its bytes in use.
pub mod RoundTrip
pub mod Size
use cornus.Base.{
  ℕ, suc, ◌+◌, ◌-◌, Bool, true, false, Option, none, some, List, [], ◌∷◌, ◌++◌, Bytes, eqb, ltb,
  leb, length, take, drop, if◌then◌else◌,
}
use cornus.Tcp.Request.{header_delim, message_end, TcpRequest, TcpResponse, parse_request}

abbrev pub max_message_size : ℕ
max_message_size = 512

-- `none` is the result -1.
unfoldable pub encode_request : TcpRequest → Option Bytes
encode_request r =
    if leb max_message_size (length r.endpoint + length r.request + 2)
    then none
    else some (r.endpoint ++ (header_delim ∷ (r.request ++ (message_end ∷ []))))

unfoldable pub encode_response : TcpResponse → Option Bytes
encode_response r =
    if leb max_message_size (length r.response + 1)
    then none
    else some (r.response ++ (message_end ∷ []))

-- The loop of `getRequest`: the last position of each delimiter.
scan : Bytes → ℕ → Option ℕ → Option ℕ → Option ℕ × Option ℕ
scan [] i header end = (header, end)
scan (c ∷ msg) i header end =
    scan msg (i + 1) (if eqb c header_delim then some i else header)
      (if eqb c message_end then some i else end)

-- `throws`: where the end stands before the header's delimiter, the length of the request wraps
-- around, and the constructor of `std::string` throws `std::length_error`.
pub data Decoded : Type 0 where
  incomplete throws : Decoded
  decoded : TcpRequest → Decoded

cut_request : Bytes → Option ℕ × Option ℕ → Decoded
cut_request msg (some h, some e) =
    if ltb h e
    then decoded (parse_request (take h msg) (take (e - h - 1) (drop (h + 1) msg)))
    else throws
cut_request msg (some h, none) = incomplete
cut_request msg (none, e) = incomplete

unfoldable pub get_request : Bytes → Decoded
unfolding scan cut_request
get_request msg = cut_request msg (scan msg 0 none none)

-- The loop of `tryDecodeResponse`.
first_end : Bytes → ℕ → Option ℕ
first_end [] i = none
first_end (c ∷ buffer) i = elim (eqb c message_end) [
  | true ↦ some i
  | false ↦ first_end buffer (i + 1)
]

cut_response : Bytes → Option ℕ → Option TcpResponse
cut_response buffer none = none
cut_response buffer (some i) = some (record { response = take i buffer })

unfoldable pub try_decode_response : Bytes → Option TcpResponse
unfolding first_end cut_response
try_decode_response buffer = cut_response buffer (first_end buffer 0)
