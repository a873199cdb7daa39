-- ===== src/Tcp/Client/Ending.antt =====
-- The loop of a request ends whatever arrives.
use cornus.Base.{
  ℕ, zero, suc, ◌-◌, ◌+◌, ◌<◌, ◌≤◌, ◌≡◌, refl, Option, none, some, List, [], ◌∷◌, ◌++◌, Bytes, take,
  length, arith, Bool-cases, inl, inr,
}
use cornus.Tcp.Request.{TcpRequest, TcpResponse}
use cornus.Tcp.Frame.{max_message_size, encode_request, try_decode_response}
use cornus.Tcp.Socket.{
  Arrival, Received, failed, received, recv, Sending, all_sent, send_failed, blocked, try_send_data,
}
use cornus.Tcp.Socket.Laws.{arrived, recv-size, recv-failed}
use cornus.Tcp.Client.{
  TcpClient, Reply, gives, undefined, out_of_fuel, stuck, Socket, decode_or, on_error, on_reply,
  receive_loop, after_sending, send_encoded, send_request,
}

-- A result that is not for want of fuel.
abbrev pub IsReplied : Reply × Socket → Type 0
IsReplied (gives r, k) = Unit
IsReplied (undefined, k) = Unit
IsReplied (out_of_fuel, k) = ⊥
IsReplied (stuck, k) = Unit

decode-IsReplied :
    (o : Option TcpResponse) (k : Socket) (again : Reply × Socket)
    → IsReplied again
    → IsReplied (decode_or o k again)
unfolding decode_or
decode-IsReplied none k again h = h
decode-IsReplied (some r) k again h = tt

module _ (again : Bytes → Socket → Reply × Socket) (n : ℕ)
    (h : (buffer : Bytes) (k : Socket) → arrived k.arrivals < n → IsReplied (again buffer k)) where
  error-IsReplied :
      (buffer : Bytes) (k : Socket) → arrived k.arrivals < n → IsReplied (on_error again buffer k)
  unfolding on_error
  error-IsReplied [] k l = tt
  error-IsReplied (c ∷ buffer) k l =
      let shorter = take (length buffer) (c ∷ buffer) in
      decode-IsReplied (try_decode_response shorter) k (again shorter k) (h shorter k l)

  reply-IsReplied :
      (buffer : Bytes) (k : Socket) (r : Received)
      → ((later : List Arrival) → r ≡ failed later → suc (arrived later) ≤ n)
      → ((bytes : Bytes) (later : List Arrival)
          → r ≡ received bytes later
          → length bytes + arrived later ≤ n)
      → IsReplied (on_reply again buffer k r)
  unfolding on_reply
  reply-IsReplied buffer k (failed later) f g =
      error-IsReplied buffer (record k { arrivals = later }) (f later refl)
  reply-IsReplied buffer k (received [] later) f g = tt
  reply-IsReplied buffer k (received (b ∷ bytes) later) f g =
      let k' : Socket = record k { arrivals = later } in
      let longer = buffer ++ (b ∷ bytes) in
      decode-IsReplied (try_decode_response longer) k' (again longer k')
        (h longer k' (omega (arith, g (b ∷ bytes) later refl)))

receive-IsReplied :
    (fuel : ℕ) (buffer : Bytes) (k : Socket)
    → arrived k.arrivals < fuel
    → IsReplied (receive_loop fuel buffer k)
unfolding receive_loop
receive-IsReplied zero buffer k l = absurd (omega arith)
receive-IsReplied (suc fuel) buffer k l =
    reply-IsReplied (receive_loop fuel) (arrived k.arrivals)
      (λ buffer' k' l'. receive-IsReplied fuel buffer' k' (omega arith)) buffer k
      (recv (max_message_size - length buffer) k.arrivals)
      (λ later e. recv-failed (max_message_size - length buffer) k.arrivals later e)
      (λ bytes later e. recv-size (max_message_size - length buffer) k.arrivals bytes later e)

sent-IsReplied :
    (fuel : ℕ) (k : Socket) (s : Sending)
    → arrived k.arrivals < fuel
    → IsReplied (after_sending fuel k s)
unfolding after_sending
sent-IsReplied fuel k (all_sent bytes answers) l =
    receive-IsReplied fuel [] (record k { answers = answers; sent = k.sent ++ bytes }) l
sent-IsReplied fuel k (send_failed bytes answers) l = tt
sent-IsReplied fuel k (blocked bytes) l = tt

encoded-IsReplied :
    (fuel : ℕ) (k : Socket) (m : Option Bytes)
    → arrived k.arrivals < fuel
    → IsReplied (send_encoded fuel k m)
unfolding send_encoded
encoded-IsReplied fuel k none l = tt
encoded-IsReplied fuel k (some m) l = sent-IsReplied fuel k (try_send_data k.answers m) l

-- With more rounds than bytes and errors arrive, a request ends, whatever the client, the request, the
-- answers of `send` and what arrives are: the fuel does not run out.
pub send_request-IsReplied :
    (fuel : ℕ) (client : TcpClient) (k : Socket) (req : TcpRequest)
    → arrived k.arrivals < fuel
    → IsReplied (send_request fuel client k req)
unfolding send_request
send_request-IsReplied fuel client k req l = elim (Bool-cases client.valid) [
  | inl e ↦ rw e (encoded-IsReplied fuel k (encode_request req) l)
  | inr e ↦ rw e tt
]
