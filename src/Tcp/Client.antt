-- ===== src/Tcp/Client.antt =====
-- The class TCPClient. Name lookup, byte order and `connect` are the operating system's: a record of
-- functions. Where the C++ program reads through an empty optional or past its buffer, the model says
-- `undefined`.
pub mod Address
pub mod Call
pub mod Ending
use cornus.Base.{
  ℕ, zero, suc, ◌+◌, ◌-◌, Bool, true, false, Option, none, some, List, [], ◌∷◌, ◌++◌, Bytes, length,
  take, if◌then◌else◌, not,
}
use cornus.Base.Split.{has_byte, before, behind}
use cornus.Base.Decimal.{stoi}
use cornus.Tcp.Request.{TcpRequest, TcpResponse}
use cornus.Tcp.Frame.{max_message_size, encode_request, try_decode_response}
use cornus.Tcp.Socket.{
  Arrival, Received, failed, received, recv, SendAnswer, Sending, all_sent, send_failed, blocked,
  try_send_data,
}

-- A socket address of the family AF_INET: the address and the port in network order.
pub record SockAddr : Type 0 where
  pub addr : Bytes
  pub port : ℕ

pub record Network : Type 0 where
  -- The descriptor that the call of `socket` gives behind so many others.
  pub socket : ℕ → ℕ
  -- `none` is a null result.
  pub gethostbyname : Bytes → Option Bytes
  pub htons : ℕ → ℕ
  -- Whether `connect` succeeds.
  pub connect : SockAddr → Bool

pub record TcpClient : Type 0 where
  pub sockfd : ℕ
  pub valid : Bool
  pub peer : SockAddr

address_of : Network → ℕ → Option Bytes → Option SockAddr
address_of net port none = none
address_of net port (some h_addr) = some (record { addr = h_addr; port = net.htons port })

unfoldable pub make_client_sockaddr : Network → Bytes → ℕ → Option SockAddr
unfolding address_of
make_client_sockaddr net hostname port = address_of net port (net.gethostbyname hostname)

-- `init`, after `opened` other calls of `socket`; `none` is undefined: the empty optional is read all the same.
connect_to : Network → ℕ → Option SockAddr → Option TcpClient
connect_to net sockfd none = none
connect_to net sockfd (some addr) =
    some (record { sockfd = sockfd; valid = net.connect addr; peer = addr })

unfoldable pub init : Network → ℕ → Bytes → ℕ → Option TcpClient
unfolding make_client_sockaddr connect_to
init net opened hostname port =
    connect_to net (net.socket opened) (make_client_sockaddr net hostname port)

-- `find(":")`, the two calls of `substr`, and `stoi`. Without a colon both parts are the whole text.
port_of : Bytes → Option ℕ → Option (Bytes × ℕ)
port_of host none = none
port_of host (some port) = some (host, port)

unfoldable pub parse_address : Bytes → Option (Bytes × ℕ)
unfolding port_of
parse_address hostname =
    let port = if has_byte b':' hostname then behind b':' hostname else hostname in
    port_of (before b':' hostname) (stoi port)

-- What building a client comes to: `stoi` throws, `init` is undefined, or there is a client.
pub data Built : Type 0 where
  throws undefined_address : Built
  built : TcpClient → Built

built_by : Option TcpClient → Built
built_by none = undefined_address
built_by (some client) = built client

connect_parsed : Network → ℕ → Option (Bytes × ℕ) → Built
unfolding built_by
connect_parsed net opened none = throws
connect_parsed net opened (some (host, port)) = built_by (init net opened host port)

-- `TCPClient(hostnamecolonport)`
unfoldable pub new_client : Network → ℕ → Bytes → Built
unfolding connect_parsed
new_client net opened hostname = connect_parsed net opened (parse_address hostname)

-- What `sendRequest` comes to.
pub data Reply : Type 0 where
  gives : Option TcpResponse → Reply
  undefined out_of_fuel stuck : Reply

pub record Socket : Type 0 where
  pub arrivals : List Arrival
  pub answers : List SendAnswer
  pub sent : Bytes

-- `if (resp) return *resp;`
decode_or : Option TcpResponse → Socket → Reply × Socket → Reply × Socket
decode_or none k again = again
decode_or (some r) k again = (gives (some r), k)

-- A round of `while (true)` of `sendRequest`. After an error `bufferPointer` is one less; below 0 it wraps around,
-- and the search for the end of the response leaves the buffer.
on_error : (Bytes → Socket → Reply × Socket) → Bytes → Socket → Reply × Socket
unfolding decode_or
on_error again [] k = (undefined, k)
on_error again (c ∷ buffer) k =
    let shorter = take (length buffer) (c ∷ buffer) in
    decode_or (try_decode_response shorter) k (again shorter k)

on_reply : (Bytes → Socket → Reply × Socket) → Bytes → Socket → Received → Reply × Socket
unfolding decode_or on_error
on_reply again buffer k (failed later) = on_error again buffer (record k { arrivals = later })
on_reply again buffer k (received [] later) = (gives none, record k { arrivals = later })
on_reply again buffer k (received (b ∷ bytes) later) =
    let k' : Socket = record k { arrivals = later } in
    let longer = buffer ++ (b ∷ bytes) in
    decode_or (try_decode_response longer) k' (again longer k')

receive_loop : ℕ → Bytes → Socket → Reply × Socket
unfolding on_reply
receive_loop zero buffer k = (out_of_fuel, k)
receive_loop (suc fuel) buffer k =
    on_reply (receive_loop fuel) buffer k (recv (max_message_size - length buffer) k.arrivals)

after_sending : ℕ → Socket → Sending → Reply × Socket
unfolding receive_loop
after_sending fuel k (all_sent bytes answers) =
    receive_loop fuel [] (record k { answers = answers; sent = k.sent ++ bytes })
after_sending fuel k (send_failed bytes answers) =
    (gives none, record k { answers = answers; sent = k.sent ++ bytes })
after_sending fuel k (blocked bytes) = (stuck, record k { answers = []; sent = k.sent ++ bytes })

send_encoded : ℕ → Socket → Option Bytes → Reply × Socket
unfolding after_sending
send_encoded fuel k none = (gives none, k)
send_encoded fuel k (some message) = after_sending fuel k (try_send_data k.answers message)

-- `sendRequest`; the fuel counts calls of `recv`.
unfoldable pub send_request : ℕ → TcpClient → Socket → TcpRequest → Reply × Socket
unfolding send_encoded
send_request fuel client k req =
    if not client.valid then (gives none, k) else send_encoded fuel k (encode_request req)

-- The constructor that takes a host and a port.
abbrev pub new_client_at : Network → ℕ → Bytes → ℕ → Option TcpClient
new_client_at net opened hostname port = init net opened hostname port

-- The static `sendRequest`, on a client of its own.
request_by : ℕ → Option TcpClient → Socket → TcpRequest → Reply × Socket
unfolding send_request
request_by fuel none k req = (undefined, k)
request_by fuel (some client) k req = send_request fuel client k req

unfoldable pub send_request_to : ℕ → Network → ℕ → Bytes → ℕ → Socket → TcpRequest → Reply × Socket
unfolding request_by
send_request_to fuel net opened hostname port k req =
    request_by fuel (new_client_at net opened hostname port) k req
