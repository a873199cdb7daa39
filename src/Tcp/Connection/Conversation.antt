-- ===== src/Tcp/Connection/Conversation.antt =====
-- A whole connection: requests one after the other, each in pieces, and then the peer closes.
use mathlib.Core.List.{flatten}
use cornus.Base.{
  ℕ, suc, ◌+◌, ◌-◌, ◌≤◌, ◌<◌, ◌≡◌, ◌≢◌, refl, ◌∙◌, some, List, [], ◌∷◌, ◌++◌, append_assoc,
  append-nil, Bytes, All, length, length-append, arith,
}
use cornus.Tcp.Request.{TcpRequest}
use cornus.Tcp.Frame.{max_message_size}
use cornus.Tcp.Frame.RoundTrip.{IsPart, message, get_request-NoEnd}
use cornus.Tcp.Socket.{Arrival, SendAnswer}
use cornus.Tcp.Socket.Laws.{Accepts, recv_closed, rounds_for, rounds_for-add, bring}
use cornus.Tcp.Connection.{
  Callbacks, Connection, returns_zero, new_connection, handle_connection, continue_rounds, round,
  on_received, on_decoded, continue_if,
}
use cornus.Tcp.Connection.Serving.{reply, calls}
use cornus.Tcp.Connection.Chunks.{deliver, Fits}

-- A request, and the pieces in which it arrives.
pub record Exchange : Type 0 where
  pub endpoint : Bytes
  pub request : Bytes
  pub pieces : List Bytes

abbrev pub arrivals_of : List Exchange → List Arrival
arrivals_of [] = []
arrivals_of (x ∷ xs) = bring x.pieces (arrivals_of xs)

abbrev pub all_rounds : List Exchange → ℕ → ℕ
all_rounds [] fuel = fuel
all_rounds (x ∷ xs) fuel = rounds_for x.pieces (all_rounds xs fuel)

module _ (callbacks : Callbacks) where
  abbrev pub replies : List Exchange → Bytes
  replies [] = []
  replies (x ∷ xs) = reply callbacks x.endpoint x.request ++ replies xs

  abbrev pub all_calls : List Exchange → List TcpRequest
  all_calls [] = []
  all_calls (x ∷ xs) = calls callbacks x.endpoint x.request ++ all_calls xs

  -- The pieces are not empty and make up the message, which fits, as does its reply.
  pub record IsSent (x : Exchange) : Type 0 where
    pub endpoint_part : IsPart x.endpoint
    pub request_part : IsPart x.request
    pub some_bytes : All (λ p. p ≢ []) x.pieces
    pub whole : flatten x.pieces ≡ message x.endpoint x.request
    pub size : length (message x.endpoint x.request) ≤ max_message_size
    pub reply_size : length (reply callbacks x.endpoint x.request) < max_message_size

  closed_round :
      (c : Connection) (fuel : ℕ)
      → c.buffer ≡ []
      → c.arrivals ≡ []
      → handle_connection (suc fuel) callbacks c
        ≡ (some returns_zero, record c { buffer = []; arrivals = [] })
  unfolding handle_connection continue_rounds round on_received on_decoded continue_if
  closed_round c fuel b e = rw (e, b, recv_closed, get_request-NoEnd [] tt) refl

  -- How a connection ends that began with `c`.
  Ends : List Exchange → Connection → Type 0
  Ends xs c =
      (answers : List SendAnswer) × ((fuel : ℕ)
        → handle_connection (all_rounds xs (suc fuel)) callbacks c ≡ (
          some returns_zero,
          record {
            buffer = [];
            arrivals = [];
            answers = answers;
            sent = c.sent ++ replies xs;
            handled = c.handled ++ all_calls xs;
          },
        ))

  converse :
      (xs : List Exchange) (c : Connection)
      → c.buffer ≡ []
      → c.arrivals ≡ arrivals_of xs
      → All IsSent xs
      → All Accepts c.answers
      → length (replies xs) + length xs ≤ length c.answers
      → Ends xs c
  unfolding Ends
  converse [] c b e s a l =
      (c.answers, λ fuel. closed_round c fuel b e ∙ rw (append-nil, append-nil) refl)
  converse (x ∷ xs) c b e (s, ss) a l =
      let n = length-append (reply callbacks x.endpoint x.request) (replies xs) in
      let fits : Fits callbacks x.endpoint x.request s.endpoint_part s.request_part c = record {
        size = s.size;
        accepts = a;
        reply_size = s.reply_size;
        enough = omega (arith, n);
      } in
      let (answers, go, a', l') =
        deliver callbacks x.endpoint x.request s.endpoint_part s.request_part x.pieces c
          (arrivals_of xs) e s.some_bytes (rw b s.whole) (rw b tt) fits in
      let (answers', done) =
        converse xs
          (record {
            buffer = [];
            arrivals = arrivals_of xs;
            answers = answers;
            sent = c.sent ++ reply callbacks x.endpoint x.request;
            handled = c.handled ++ calls callbacks x.endpoint x.request;
          })
          refl refl ss a' (omega (arith, n)) in
      (
        answers',
        λ fuel. go (all_rounds xs (suc fuel)) ∙ done fuel ∙ rw (append_assoc, append_assoc) refl,
      )

abbrev pub count_pieces : List Exchange → ℕ
count_pieces [] = 0
count_pieces (x ∷ xs) = length x.pieces + count_pieces xs

all_rounds-add : (xs : List Exchange) (fuel : ℕ) → all_rounds xs fuel ≡ count_pieces xs + fuel
all_rounds-add [] fuel = omega arith
all_rounds-add (x ∷ xs) fuel =
    omega (arith, rounds_for-add x.pieces (all_rounds xs fuel), all_rounds-add xs fuel)

-- A client sends requests one after the other, none before the pieces of the one before have been
-- read, and closes. Each endpoint and request is free of delimiters, each message and reply fits the
-- buffer, `send` takes a byte at least at each call and is called often enough, and there are more
-- rounds than pieces. Then, however the messages are cut into pieces, the server calls the callbacks
-- of the known endpoints with exactly these requests, in order; it sends exactly their replies; it
-- ignores a request to an unknown endpoint; and it returns 0.
pub handle_connection-converse :
    (callbacks : Callbacks) (xs : List Exchange) (answers : List SendAnswer) (fuel : ℕ)
    → All (IsSent callbacks) xs
    → All Accepts answers
    → length (replies callbacks xs) + length xs ≤ length answers
    → count_pieces xs < fuel
    → (left : List SendAnswer) × (handle_connection fuel callbacks
          (new_connection (arrivals_of xs) answers)
        ≡ (
          some returns_zero,
          record {
            buffer = [];
            arrivals = [];
            answers = left;
            sent = replies callbacks xs;
            handled = all_calls callbacks xs;
          },
        ))
unfolding Ends
handle_connection-converse callbacks xs answers fuel s a l h =
    let (left, ends) =
      converse callbacks xs (new_connection (arrivals_of xs) answers) refl refl s a l in
    let more = fuel - count_pieces xs - 1 in
    let enough : fuel ≡ all_rounds xs (suc more) = omega (arith, all_rounds-add xs (suc more)) in
    (left, rw enough (ends more))
