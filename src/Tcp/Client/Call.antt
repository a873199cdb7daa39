-- ===== src/Tcp/Client/Call.antt =====
-- A request and its response.
use mathlib.Core.List.{flatten, append-eq-nil_iff}
use cornus.Base.{
  ℕ, ◌+◌, ◌-◌, ◌≤◌, ◌<◌, ◌≡◌, ◌≢◌, refl, sym, subst, ap, ◌∙◌, true, some, List, [], ◌∷◌, ◌++◌,
  append_assoc, append-nil, Bytes, All, length, length-append, arith,
}
use cornus.Tcp.Request.{message_end, TcpRequest}
use cornus.Tcp.Frame.{max_message_size, try_decode_response}
use cornus.Tcp.Frame.RoundTrip.{
  encode_request-fits, NoEnd, message, prefix-NoEnd, text-ended, try_decode_response-append,
  try_decode_response-NoEnd,
}
use cornus.Tcp.Socket.{Arrival, SendAnswer, try_send_data}
use cornus.Tcp.Socket.Laws.{
  sent_whole, try_send_data-DoneWithin, try_send_data-SentOf, recv-fits, rounds_for, bring, Accepts,
}
use cornus.Tcp.Client.{
  TcpClient, gives, Socket, decode_or, on_reply, receive_loop, after_sending, send_encoded,
  send_request,
}

module _ (text : Bytes) (clean : NoEnd text) where
  -- Pieces that make up what the buffer lacks of the response.
  receive :
      (pieces : List Bytes) (buffer : Bytes) (k : Socket) (later : List Arrival) (fuel : ℕ)
      → k.arrivals ≡ bring pieces later
      → All (λ p. p ≢ []) pieces
      → buffer ++ flatten pieces ≡ text ++ (message_end ∷ [])
      → NoEnd buffer
      → length (text ++ (message_end ∷ [])) ≤ max_message_size
      → receive_loop (rounds_for pieces fuel) buffer k
        ≡ (gives (some (record { response = text })), record k { arrivals = later })
  unfolding receive_loop on_reply decode_or flatten
  receive [] buffer k later fuel e n whole b size =
      absurd (text-ended text (subst NoEnd (sym (append-nil buffer) ∙ whole) b))
  receive ([] ∷ pieces) buffer k later fuel e (n, ns) whole b size = absurd (n refl)
  receive ((d ∷ p) ∷ []) buffer k later fuel e (n, ns) whole b size =
      let read =
        ap try_decode_response (rw append-nil at whole)
        ∙ try_decode_response-append text [] clean in
      let room =
        recv-fits (max_message_size - length buffer) (d ∷ p) later
          (omega (arith, length-append buffer (d ∷ p), ap length (rw append-nil at whole), size)) in
      rw (e, room, read) refl
  receive ((d ∷ p) ∷ (q ∷ pieces)) buffer k later fuel e (n, (m, ns)) whole b size =
      let split = append_assoc buffer (d ∷ p) (flatten (q ∷ pieces)) ∙ whole in
      let part =
        prefix-NoEnd (buffer ++ (d ∷ p)) (flatten (q ∷ pieces)) text split
          (λ z. m (append-eq-nil_iff.0 z).0) clean in
      let room = recv-fits (max_message_size - length buffer) (d ∷ p) (bring (q ∷ pieces) later) (
        omega (
          arith,
          length-append buffer (d ∷ p),
          length-append (buffer ++ (d ∷ p)) (flatten (q ∷ pieces)),
          ap length split,
          size,
        )) in
      rw (e, room, try_decode_response-NoEnd (buffer ++ (d ∷ p)) part)
        (receive (q ∷ pieces) (buffer ++ (d ∷ p)) (record k { arrivals = bring (q ∷ pieces) later })
          later fuel refl (m, ns) split part size)

module _ (client : TcpClient) (k : Socket) (req : TcpRequest) (up : client.valid ≡ true) where
  -- A connected client sends a request that fits, with a `send` that takes a byte at least at each call
  -- and is called often enough. If the first bytes that arrive are a response and its end, which fit
  -- the buffer, in any pieces of which none is empty and the last ends with the response, then it has
  -- sent exactly the request's message, it returns exactly the response, and it reads no further. The
  -- fuel is one round for each piece, or more.
  pub send_request-receives :
      (text : Bytes) (pieces : List Bytes) (later : List Arrival) (fuel : ℕ)
      → length req.endpoint + length req.request + 2 < max_message_size
      → All Accepts k.answers
      → length (message req.endpoint req.request) < length k.answers
      → k.arrivals ≡ bring pieces later
      → All (λ p. p ≢ []) pieces
      → flatten pieces ≡ text ++ (message_end ∷ [])
      → NoEnd text
      → length (text ++ (message_end ∷ [])) ≤ max_message_size
      → (answers : List SendAnswer) × (send_request (rounds_for pieces fuel) client k req ≡ (
        gives (some (record { response = text })),
        record {
          arrivals = later;
          answers = answers;
          sent = k.sent ++ message req.endpoint req.request;
        },
      ))
  unfolding send_request send_encoded after_sending
  send_request-receives text pieces later fuel h a enough e n whole clean size =
      let m = message req.endpoint req.request in
      let (rest, all, a', l) =
        sent_whole (length k.answers) m (try_send_data k.answers m)
          (try_send_data-DoneWithin k.answers m a enough) (try_send_data-SentOf k.answers m) in
      let k' : Socket = record k { answers = rest; sent = k.sent ++ m } in
      (
        rest,
        rw (up, encode_request-fits req h, all)
            (receive text clean pieces [] k' later fuel e n whole tt size),
      )
