-- ===== src/Tcp/Frame/RoundTrip.antt =====
-- What is encoded is decoded, and nothing is decoded too early.
use cornus.Base.{
  ℕ, suc, ◌+◌, ◌-◌, ◌<◌, ◌≡◌, ◌≢◌, refl, sym, ◌∙◌, All-append, ap, ◌∙◌, Option, none, some, [], ◌∷◌,
  ◌++◌, append_assoc, Bytes, eqb, length, length-append, drop, take-append_left, if◌then◌else◌, All,
  arith,
}
use mathlib.Core.List.{append-eq-nil_iff}
use native.Mathlib.Nat.{zero-add}
use native.Mathlib.Numerals.{add-one}
use cornus.Tcp.Request.{header_delim, message_end, TcpRequest, TcpResponse, parse_request}
use cornus.Tcp.Frame.{
  max_message_size, encode_request, encode_response, scan, incomplete, decoded, cut_request,
  get_request, first_end, cut_response, try_decode_response,
}

-- The text holds no end of a message.
abbrev pub NoEnd : Bytes → Type 0
NoEnd = All (λ c. c ≢ message_end)

-- The text holds neither delimiter of a message.
abbrev pub IsPart : Bytes → Type 0
IsPart = All (λ c. (c ≢ header_delim) × (c ≢ message_end))

-- Over any text the scan comes out with some positions.
scan-append :
    (p s : Bytes) (i : ℕ) (h e : Option ℕ)
    → (h' : Option ℕ) × (e' : Option ℕ) × (scan (p ++ s) i h e ≡ scan s (i + length p) h' e')
unfolding scan
scan-append [] s i h e = (h, e, ap (λ j. scan s j h e) (omega arith))
scan-append (c ∷ p) s i h e =
    let h1 = if eqb c header_delim then some i else h in
    let e1 = if eqb c message_end then some i else e in
    let (h', e', q) = scan-append p s (i + 1) h1 e1 in
    (h', e', q ∙ ap (λ j. scan s j h' e') (shift i (length p)))
  where
    shift : (a b : ℕ) → a + 1 + b ≡ a + suc b
    shift a b = omega arith

scan_part :
    (p s : Bytes) (i : ℕ) (h e : Option ℕ)
    → IsPart p
    → scan (p ++ s) i h e ≡ scan s (i + length p) h e
unfolding scan
scan_part [] s i h e part = ap (λ j. scan s j h e) (omega arith)
scan_part (c ∷ p) s i h e (part, parts) =
    ground (arith, scan_part p s (i + 1) h e parts, ap (λ j. scan s j h e) (shift i (length p)))
  where
    shift : (a b : ℕ) → a + 1 + b ≡ a + suc b
    shift a b = omega arith

scan-NoEnd : (s : Bytes) (i : ℕ) (h : Option ℕ) → NoEnd s → (scan s i h none).1 ≡ none
unfolding scan
scan-NoEnd [] i h n = refl
scan-NoEnd (c ∷ s) i h (n, ns) =
    ground (arith, scan-NoEnd s (i + 1) (if eqb c header_delim then some i else h) ns)

incomplete_cut :
    (msg : Bytes) (found : Option ℕ × Option ℕ)
    → found.1 ≡ none
    → cut_request msg found ≡ incomplete
unfolding cut_request
incomplete_cut msg (none, e) h = refl
incomplete_cut msg (some x, none) h = refl
incomplete_cut msg (some x, some y) h = absurd (cc)

pub get_request-NoEnd : (msg : Bytes) → NoEnd msg → get_request msg ≡ incomplete
unfolding get_request
get_request-NoEnd msg n = incomplete_cut msg (scan msg 0 none none) (scan-NoEnd msg 0 none n)

-- The bytes of a message.
abbrev pub message : Bytes → Bytes → Bytes
message endpoint request = endpoint ++ (header_delim ∷ (request ++ (message_end ∷ [])))

scan-message :
    (endpoint request : Bytes)
    → IsPart request
    → scan (message endpoint request) 0 none none
      ≡ (some (length endpoint), some (length endpoint + 1 + length request))
unfolding scan
scan-message endpoint request hr =
    let (h, e, q) =
      scan-append endpoint (header_delim ∷ (request ++ (message_end ∷ []))) 0 none none in
    q ∙ rw (scan_part request (message_end ∷ []) _ (some (0 + length endpoint)) e hr) (ground arith)

drop_past : (p rest : Bytes) (c : ℕ) → drop (suc (length p)) (p ++ (c ∷ rest)) ≡ rest
drop_past [] rest c = refl
drop_past (d ∷ p) rest c = drop_past p rest c

drop_header :
    (endpoint rest : Bytes) → drop (length endpoint + 1) (endpoint ++ (header_delim ∷ rest)) ≡ rest
drop_header endpoint rest = rw add-one (drop_past endpoint rest header_delim)

cut_message :
    (endpoint request : Bytes)
    → cut_request
        (message endpoint request)
        (some (length endpoint), some (length endpoint + 1 + length request))
      ≡ decoded (parse_request endpoint request)
unfolding cut_request
cut_message endpoint request =
    let size : length endpoint + 1 + length request - length endpoint - 1 ≡ length request =
      omega arith in
    rw (take-append_left, drop_header, size, take-append_left) (ground arith)

-- Of a buffer that ends with a request and the end of a message, the text before the request's
-- delimiter is taken for the endpoint, whatever it holds.
pub get_request-message :
    (endpoint request : Bytes)
    → IsPart request
    → get_request (message endpoint request) ≡ decoded (parse_request endpoint request)
unfolding get_request
get_request-message endpoint request hr =
    rw (scan-message endpoint request hr) (cut_message endpoint request)

-- Two whole messages that are in the buffer together are taken for one request: that of the second,
-- under an endpoint made of the whole first message and the second endpoint. Only the second request
-- has to be free of delimiters for this.
pub get_request-pipelined :
    (endpoint request endpoint' request' : Bytes)
    → IsPart request'
    → get_request (message endpoint request ++ message endpoint' request')
      ≡ decoded (parse_request (message endpoint request ++ endpoint') request')
get_request-pipelined endpoint request endpoint' request' h =
    ap get_request (sym (append_assoc (message endpoint request) endpoint' _))
    ∙ get_request-message (message endpoint request ++ endpoint') request' h

first_end-message :
    (text rest : Bytes) (i : ℕ)
    → NoEnd text
    → first_end (text ++ (message_end ∷ rest)) i ≡ some (i + length text)
unfolding first_end
first_end-message [] rest i h = ground arith
first_end-message (c ∷ text) rest i (h, hs) = ground (arith, first_end-message text rest (i + 1) hs)

first_end-NoEnd : (text : Bytes) (i : ℕ) → NoEnd text → first_end text i ≡ none
unfolding first_end
first_end-NoEnd [] i h = refl
first_end-NoEnd (c ∷ text) i (h, hs) = ground (arith, first_end-NoEnd text (i + 1) hs)

-- A response is decoded from the bytes up to the first end of a message, whatever follows.
pub try_decode_response-append :
    (text rest : Bytes)
    → NoEnd text
    → try_decode_response (text ++ (message_end ∷ rest)) ≡ some (record { response = text })
unfolding try_decode_response cut_response
try_decode_response-append text rest h =
    rw (first_end-message text rest 0 h, zero-add, take-append_left)

pub try_decode_response-NoEnd : (text : Bytes) → NoEnd text → try_decode_response text ≡ none
unfolding try_decode_response cut_response
try_decode_response-NoEnd text h = rw (first_end-NoEnd text 0 h)

pub encode_response-fits :
    (r : TcpResponse)
    → length (r.response ++ (message_end ∷ [])) < max_message_size
    → encode_response r ≡ some (r.response ++ (message_end ∷ []))
unfolding encode_response
encode_response-fits r h = ground (arith, length-append r.response (message_end ∷ []))

-- A beginning of a message that lacks something lacks the end.
pub prefix-NoEnd :
    (x y body : Bytes) → x ++ y ≡ body ++ (message_end ∷ []) → y ≢ [] → NoEnd body → NoEnd x
prefix-NoEnd [] y body e n h = tt
prefix-NoEnd (c ∷ x) y [] e n h =
    let none_left : x ++ y ≡ [] = cc in absurd (n (append-eq-nil_iff.0 none_left).1)
prefix-NoEnd (c ∷ x) y (d ∷ body) e n (h, hs) = ((λ q. h (cc)), prefix-NoEnd x y body (cc) n hs)

pub message-ended : (endpoint request : Bytes) → ¬ NoEnd (message endpoint request)
message-ended [] [] (h, (hs, t)) = hs refl
message-ended [] (c ∷ request) (h, (hs, t)) = message-ended [] request (h, t)
message-ended (c ∷ endpoint) request (h, hs) = message-ended endpoint request hs

part-NoEnd : (p : Bytes) → IsPart p → NoEnd p
part-NoEnd [] h = tt
part-NoEnd (c ∷ p) (h, hs) = (h.1, part-NoEnd p hs)

pub body-NoEnd :
    (endpoint request : Bytes)
    → IsPart endpoint
    → IsPart request
    → NoEnd (endpoint ++ (header_delim ∷ request))
body-NoEnd endpoint request he hr =
    All-append (λ c. c ≢ message_end) endpoint (header_delim ∷ request) (part-NoEnd endpoint he)
      ((λ e. absurd (omega arith)), part-NoEnd request hr)

pub text-ended : (text : Bytes) → ¬ NoEnd (text ++ (message_end ∷ []))
text-ended [] (h, t) = h refl
text-ended (c ∷ text) (h, hs) = text-ended text hs

pub encode_request-fits :
    (r : TcpRequest)
    → length r.endpoint + length r.request + 2 < max_message_size
    → encode_request r ≡ some (message r.endpoint r.request)
unfolding encode_request
encode_request-fits r h = ground arith
