-- ===== src/Tcp/Socket.antt =====
-- `trySendData`, and what `recv` and `send` of the operating system do with a connected socket: each
-- answers with the next entry of a script, so a script is one behaviour of the network and the peer.
pub mod Laws
use cornus.Base.{
  ℕ, zero, suc, Bool, true, false, Option, none, some, List, [], ◌∷◌, ◌++◌, Bytes, take, drop,
}

-- What has arrived at the socket, in order; behind the last entry the peer has closed.
pub data Arrival : Type 0 where
  fails : Arrival
  brings : Bytes → Arrival

-- The result -1, or the bytes received; there are none when the peer has closed or there is no room.
pub data Received : Type 0 where
  failed : List Arrival → Received
  received : Bytes → List Arrival → Received

-- The bytes that did not fit stay.
keep_rest : Bytes → List Arrival → List Arrival
keep_rest [] later = later
keep_rest (c ∷ b) later = brings (c ∷ b) ∷ later

unfoldable pub recv : ℕ → List Arrival → Received
unfolding keep_rest
recv room [] = received [] []
recv room (fails ∷ later) = failed later
recv room (brings b ∷ later) = received (take room b) (keep_rest (drop room b) later)

-- What the calls of `send` answer: -1, or how many bytes are taken at most.
pub data SendAnswer : Type 0 where
  refuses : SendAnswer
  takes : ℕ → SendAnswer

-- `trySendData`: its result, the bytes that were sent, and the script that is left; `blocked` is a call
-- of `send` that is never answered.
pub data Sending : Type 0 where
  all_sent send_failed : Bytes → List SendAnswer → Sending
  blocked : Bytes → Sending

-- `while (sent < message_len)`, by what is left to send.
continue_sending : Bytes → Bytes → List SendAnswer → Sending → Sending
continue_sending sent [] answers again = all_sent sent answers
continue_sending sent (c ∷ left) answers again = again

send_loop : List SendAnswer → Bytes → Bytes → Sending
unfolding continue_sending
send_loop [] sent left = blocked sent
send_loop (refuses ∷ answers) sent left = send_failed sent answers
send_loop (takes n ∷ answers) sent left =
    let again = send_loop answers (sent ++ take n left) (drop n left) in
    continue_sending (sent ++ take n left) (drop n left) answers again

unfoldable pub try_send_data : List SendAnswer → Bytes → Sending
unfolding send_loop
try_send_data answers message = send_loop answers [] message
