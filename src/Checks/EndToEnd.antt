-- ===== src/Checks/EndToEnd.antt =====
-- A vote request from one node to another.
use mathlib.Core.List.{flatten}
use cornus.Base.{◌≡◌, refl, Bytes, List, [], ◌∷◌, ◌++◌, append-nil, codes}
use cornus.Handler.Wire.{packet_request}
use cornus.Tcp.Request.{header_delim, message_end, params_request}
use cornus.Tcp.Frame.RoundTrip.{message}
use cornus.Tcp.Rpc.{Cut}
use cornus.Checks.Visit.{in_order}
use cornus.Checks.Connection.{some_byte}
use cornus.Checks.Requests.{vote_request}

-- The request as it stands on the network.
abbrev sent_text : Bytes
sent_text =
    message (packet_request in_order vote_request).endpoint
      (packet_request in_order vote_request).request

abbrev cut_text : List Bytes
cut_text =
    codes "VOTE"
    ∷ (codes "REQ"
        ++ (header_delim ∷ ((packet_request in_order vote_request).request ++ (message_end ∷ []))))
    ∷ []

whole_text : flatten cut_text ≡ sent_text
unfolding codes packet_request params_request flatten
whole_text = rw append-nil refl

-- The request in two pieces, and the response in two.
abbrev there : Cut sent_text
unfolding codes
there = record {
  pieces = cut_text;
  some_bytes = (some_byte _ _, (some_byte _ _, tt));
  whole = whole_text;
}

abbrev back : Cut (codes "OK" ++ (message_end ∷ []))
unfolding codes flatten
back = record {
  pieces = codes "O" ∷ (codes "K" ++ (message_end ∷ [])) ∷ [];
  some_bytes = (some_byte _ _, (some_byte _ _, tt));
  whole = refl;
}
