-- ===== src/Tcp/Frame/Size.antt =====
-- A request that has been read is no longer than the buffer that it was read from.
use cornus.Base.{
  ℕ, suc, ◌+◌, ◌-◌, ◌≤◌, ◌<◌, Option, none, some, [], ◌∷◌, Bytes, eqb, ltb, length, drop, Bool,
  true, false, length-take, Bool-cases, inl, inr, arith, if◌then◌else◌,
}
use cornus.Tcp.Request.{header_delim, message_end, parse_request}
use cornus.Tcp.Frame.{scan, Decoded, incomplete, throws, decoded, cut_request, get_request}

-- A position, where there is one, is below the bound.
Within : ℕ → Option ℕ → Type 0
Within n none = Unit
Within n (some e) = e < n

Within-mono : (n m : ℕ) (o : Option ℕ) → n ≤ m → Within n o → Within m o
unfolding Within
Within-mono n m none l w = tt
Within-mono n m (some e) l w = omega arith

next-Within :
    (i : ℕ) (b : Bool) (end : Option ℕ) → Within i end → Within (i + 1) (if b then some i else end)
unfolding Within
next-Within i true end w = omega arith
next-Within i false end w = Within-mono i (i + 1) end (omega arith) w

scan-Within :
    (msg : Bytes) (i : ℕ) (header end : Option ℕ)
    → Within i end
    → Within (i + length msg) (scan msg i header end).1
unfolding scan
scan-Within [] i header end w = Within-mono i (i + 0) end (omega arith) w
scan-Within (c ∷ msg) i header end w =
    let h' = if eqb c header_delim then some i else header in
    let e' = if eqb c message_end then some i else end in
    Within-mono (i + 1 + length msg) (i + suc (length msg)) (scan msg (i + 1) h' e').1 (omega arith)
      (scan-Within msg (i + 1) h' e' (next-Within i (eqb c message_end) end w))

-- The size that `handle_connection` takes off the buffer.
abbrev pub Fits : Bytes → Decoded → Type 0
Fits msg incomplete = Unit
Fits msg throws = Unit
Fits msg (decoded req) = length req.endpoint + length req.request + 2 ≤ length msg

cut-Fits :
    (msg : Bytes) (ends : Option ℕ × Option ℕ)
    → Within (length msg) ends.1
    → Fits msg (cut_request msg ends)
unfolding cut_request Within parse_request
cut-Fits msg (some h, some e) w = elim (Bool-cases (ltb h e)) [
  | inl l ↦
      rw (l, cut_request)
        (ground (arith, length-take msg h, length-take (drop (h + 1) msg) (e - h - 1)))
  | inr l ↦ rw (l, cut_request) tt
]
cut-Fits msg (some h, none) w = tt
cut-Fits msg (none, e) w = tt

pub get_request-Fits : (msg : Bytes) → Fits msg (get_request msg)
unfolding get_request Within
get_request-Fits msg =
    let ends = scan msg 0 none none in
    cut-Fits msg ends (
      Within-mono (0 + length msg) (length msg) ends.1 (omega arith)
        (scan-Within msg 0 none none tt))
