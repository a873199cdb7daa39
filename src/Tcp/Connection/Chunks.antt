-- ===== src/Tcp/Connection/Chunks.antt =====
-- A server handles a request that arrives in any pieces.
use mathlib.Core.List.{flatten, append-eq-nil_iff}
use cornus.Base.{
  ℕ, ◌+◌, ◌-◌, ◌≤◌, ◌<◌, ◌≡◌, ◌≢◌, refl, sym, subst, ap, ◌∙◌, List, [], ◌∷◌, ◌++◌, append_assoc,
  append-nil, Bytes, Bytes-discrete, All, length, length-append, arith,
}
use cornus.Base.Dict.{get}
use cornus.Tcp.Request.{header_delim, message_end}
use cornus.Tcp.Frame.{max_message_size, get_request}
use cornus.Tcp.Frame.RoundTrip.{
  NoEnd, IsPart, message, get_request-NoEnd, get_request-message, prefix-NoEnd, message-ended,
  body-NoEnd,
}
use cornus.Tcp.Socket.{Arrival, brings, SendAnswer}
use cornus.Tcp.Socket.Laws.{rounds_for, bring, recv-fits, Accepts}
use cornus.Tcp.Connection.{
  Callbacks, Connection, goes_on, on_decoded, continue_if, on_received, round, handle_connection,
  continue_rounds,
}
use cornus.Tcp.Connection.Serving.{reply, calls, answered, IsAnswered, served}

module _ (callbacks : Callbacks) where
  -- A piece that does not complete the message is kept.
  round_kept :
      (c : Connection) (b : ℕ) (p : Bytes) (later : List Arrival)
      → c.arrivals ≡ brings (b ∷ p) ∷ later
      → length (c.buffer ++ (b ∷ p)) ≤ max_message_size
      → NoEnd (c.buffer ++ (b ∷ p))
      → round callbacks c ≡ goes_on (record c { buffer = c.buffer ++ (b ∷ p); arrivals = later })
  unfolding round on_received on_decoded continue_if
  round_kept c b p later e fits n =
      rw
        (
          e,
          recv-fits (max_message_size - length c.buffer) (b ∷ p) later
              (omega (arith, length-append c.buffer (b ∷ p))),
          get_request-NoEnd (c.buffer ++ (b ∷ p)) n,
        )
        refl

module _ (callbacks : Callbacks) (endpoint request : Bytes) (he : IsPart endpoint)
    (hr : IsPart request) where
  -- The replies can be sent, and the message fits.
  pub record Fits (c : Connection) : Type 0 where
    pub size : length (message endpoint request) ≤ max_message_size
    pub accepts : All Accepts c.answers
    pub reply_size : length (reply callbacks endpoint request) < max_message_size
    pub enough : length (reply callbacks endpoint request) < length c.answers

  -- The rounds over the pieces of one message leave the reply and an empty buffer.
  abbrev pub Delivered : List Bytes → Connection → List Arrival → Type 0
  Delivered pieces c later =
      (answers : List SendAnswer) × ((fuel : ℕ)
        → handle_connection (rounds_for pieces fuel) callbacks c
          ≡ handle_connection fuel callbacks
              (record (answered c answers (reply callbacks endpoint request)
                (calls callbacks endpoint request)) { arrivals = later }))
      × All Accepts answers
      × (length c.answers ≤ length answers + (length (reply callbacks endpoint request) + 1))

  last_piece :
      (c : Connection) (b : ℕ) (p : Bytes) (later : List Arrival)
      → c.arrivals ≡ brings (b ∷ p) ∷ later
      → c.buffer ++ (b ∷ p) ≡ message endpoint request
      → Fits c
      → Delivered ((b ∷ p) ∷ []) c later
  unfolding handle_connection continue_rounds round on_received continue_if IsAnswered
  last_piece c b p later e whole f =
      let full : Connection = record c { buffer = c.buffer ++ (b ∷ p); arrivals = later } in
      let (answers, done, a', l) =
        served callbacks endpoint request full (get Bytes-discrete callbacks endpoint) refl whole
          f.accepts f.reply_size f.enough in
      let read = ap get_request whole ∙ get_request-message endpoint request hr in
      let room =
        recv-fits (max_message_size - length c.buffer) (b ∷ p) later
          (omega (arith, length-append c.buffer (b ∷ p), ap length whole, f.size)) in
      (answers, (λ fuel. rw (e, room, read, done) refl), a', l)

  kept_piece :
      (c : Connection) (d : ℕ) (p rest : Bytes) (later : List Arrival)
      → c.arrivals ≡ brings (d ∷ p) ∷ later
      → c.buffer ++ ((d ∷ p) ++ rest) ≡ message endpoint request
      → rest ≢ []
      → Fits c
      → (round callbacks c ≡ goes_on (record c { buffer = c.buffer ++ (d ∷ p); arrivals = later }))
        × NoEnd (c.buffer ++ (d ∷ p))
  kept_piece c d p rest later e whole n f =
      let body = endpoint ++ (header_delim ∷ request) in
      let split = append_assoc c.buffer (d ∷ p) rest ∙ whole in
      let ended = split ∙ sym (append_assoc endpoint (header_delim ∷ request) (message_end ∷ [])) in
      let clean =
        prefix-NoEnd (c.buffer ++ (d ∷ p)) rest body ended n (body-NoEnd endpoint request he hr) in
      (
        round_kept callbacks c d p later e
            (omega (arith, length-append (c.buffer ++ (d ∷ p)) rest, ap length split, f.size))
            clean,
        clean,
      )

  -- Pieces that are not empty, and make up what the buffer lacks of the message.
  pub deliver :
      (pieces : List Bytes) (c : Connection) (later : List Arrival)
      → c.arrivals ≡ bring pieces later
      → All (λ p. p ≢ []) pieces
      → c.buffer ++ flatten pieces ≡ message endpoint request
      → NoEnd c.buffer
      → Fits c
      → Delivered pieces c later
  unfolding flatten handle_connection continue_rounds
  deliver [] c later e n whole b f =
      absurd (message-ended endpoint request (subst NoEnd (sym (append-nil c.buffer) ∙ whole) b))
  deliver ([] ∷ pieces) c later e (n, ns) whole b f = absurd (n refl)
  deliver ((d ∷ p) ∷ []) c later e (n, ns) whole b f =
      last_piece c d p later e (rw append-nil at whole) f
  deliver ((d ∷ p) ∷ (q ∷ pieces)) c later e (n, (m, ns)) whole b f =
      let c1 : Connection = record c {
        buffer = c.buffer ++ (d ∷ p);
        arrivals = bring (q ∷ pieces) later;
      } in
      let (kept, clean) =
        kept_piece c d p (flatten (q ∷ pieces)) (bring (q ∷ pieces) later) e whole
          (λ z. m (append-eq-nil_iff.0 z).0) f in
      let (answers, go, a', l) =
        deliver (q ∷ pieces) c1 later refl (m, ns) (append_assoc c.buffer (d ∷ p) _ ∙ whole) clean
          (record {
            size = f.size;
            accepts = f.accepts;
            reply_size = f.reply_size;
            enough = f.enough;
          }) in
      (answers, (λ fuel. rw kept (go fuel)), a', l)
