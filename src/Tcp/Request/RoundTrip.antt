-- ===== src/Tcp/Request/RoundTrip.antt =====
-- The parameters that one node writes into a request are those that the other reads.
use cornus.Base.{
  ℕ, none, some, List, [], ◌∷◌, ◌++◌, ◌≡◌, refl, ◌∙◌, subst, sym, Bytes, Bytes-discrete, All,
  append_assoc, append-nil, arith, ◌≢◌, All-append,
}
use cornus.Base.Split.{Lacks, has_byte-append, before-append, behind-append, before-Lacks}
use cornus.Base.Dict.{empty, get, put, get-put, lookup}
use cornus.Tcp.Request.{
  key_value_delim, pair_delim, Params, Visit, get_lines, read_pairs, parse_request, write_pairs,
  write_params, params_request, get_param,
}

-- The text can stand in a parameter: it holds neither delimiter.
abbrev pub IsText : Bytes → Type 0
IsText = All (λ c. (c ≢ key_value_delim) × (c ≢ pair_delim))

-- No key stands twice.
abbrev pub Distinct : List (Bytes × Bytes) → Type 0
Distinct [] = Unit
Distinct ((k, v) ∷ l) = (lookup Bytes-discrete k l ≡ none) × Distinct l

-- What is known of the library's order: it visits the entries of the map, and no key twice.
abbrev pub Visits : Visit → Type 0
Visits visit =
    (params : Params)
    → Distinct (visit params)
      × ((k : Bytes) → lookup Bytes-discrete k (visit params) ≡ get Bytes-discrete params k)

-- All keys and values of the pairs have a property.
abbrev pub Both : (Bytes → Type 0) → List (Bytes × Bytes) → Type 0
Both P = All (λ (p : Bytes × Bytes). P p.0 × P p.1)

abbrev AllText : List (Bytes × Bytes) → Type 0
AllText = Both IsText

module _ (P : Bytes → Type 0) where
  -- The pair that a key finds has it too.
  pub lookup-Both :
      (l : List (Bytes × Bytes)) (k v : Bytes)
      → Both P l
      → lookup Bytes-discrete k l ≡ some v
      → P k × P v
  unfolding lookup
  lookup-Both [] k v h e = absurd (cc)
  lookup-Both ((j, w) ∷ l) k v ((hj, hw), hs) e = elim (Bytes-discrete j k) [
    | yes q ↦ (subst P q hj, subst P (ground arith) hw)
    | no n ↦ lookup-Both l k v hs (ground arith)
  ]

  found-Both :
      (l : List (Bytes × Bytes))
      → Distinct l
      → ((k v : Bytes) → lookup Bytes-discrete k l ≡ some v → P k × P v)
      → Both P l
  unfolding lookup
  found-Both [] d h = tt
  found-Both ((j, v) ∷ l) (d, ds) h =
      (h j v (ground arith), found-Both l ds (λ k w e. h k w (ground arith)))

  -- What holds of the entries of a map holds of the pairs that a visit finds.
  pub visit-Both :
      (visit : Visit) (params : Params)
      → Visits visit
      → Both P params.entries
      → Both P (visit params)
  unfolding get
  visit-Both visit params visits h =
      let (d, same) = visits params in
      found-Both (visit params) d (λ k v e. lookup-Both params.entries k v h (sym (same k) ∙ e))

-- The text of the pairs, with nothing before it.
written : List (Bytes × Bytes) → Bytes
written [] = []
written ((k, v) ∷ l) = (k ++ (key_value_delim ∷ v)) ++ (pair_delim ∷ written l)

write_pairs-written :
    (l : List (Bytes × Bytes)) (out : Bytes) → write_pairs l out ≡ out ++ written l
unfolding write_pairs written
write_pairs-written [] out = rw append-nil
write_pairs-written ((k, v) ∷ l) out = simp (write_pairs-written l, append_assoc)

get_lines-append :
    (d : ℕ) (p rest cur : Bytes)
    → Lacks d p
    → get_lines d (p ++ (d ∷ rest)) cur ≡ (cur ++ p) ∷ get_lines d rest []
unfolding get_lines
get_lines-append d [] rest cur h = rw append-nil (ground arith)
get_lines-append d (c ∷ p) rest cur h =
    ground (arith, get_lines-append d p rest (cur ++ c ∷ []), append_assoc cur (c ∷ []) p)

IsText-Lacks : (p : Bytes) → IsText p → Lacks key_value_delim p × Lacks pair_delim p
IsText-Lacks [] h = (tt, tt)
IsText-Lacks (c ∷ p) (h, hs) = let (a, b) = IsText-Lacks p hs in ((h.0, a), (h.1, b))

Lacks-append : (d c : ℕ) (p q : Bytes) → Lacks d p → c ≢ d → Lacks d q → Lacks d (p ++ (c ∷ q))
Lacks-append d c p q hp hc hq = All-append (λ x. x ≢ d) p (c ∷ q) hp (hc, hq)

-- The parameters after the pairs of `l`.
puts : List (Bytes × Bytes) → Params → Params
puts [] params = params
puts ((k, v) ∷ l) params = puts l (put Bytes-discrete params k v)

read_written :
    (l : List (Bytes × Bytes)) (params : Params)
    → AllText l
    → read_pairs (get_lines pair_delim (written l) []) params ≡ puts l params
unfolding read_pairs written puts
read_written [] params h = unfold get_lines in refl
read_written ((k, v) ∷ l) params ((hk, hv), hs) =
    let (k1, k2) = IsText-Lacks k hk in
    let (v1, v2) = IsText-Lacks v hv in
    let pair = k ++ (key_value_delim ∷ v) in
    let line = Lacks-append pair_delim key_value_delim k v k2 (omega arith) v2 in
    rw
      (
        get_lines-append pair_delim pair (written l) [] line,
        has_byte-append key_value_delim k v,
        before-append key_value_delim k v k1,
        behind-append key_value_delim k v k1,
        before-Lacks key_value_delim v v1,
      )
      (read_written l (put Bytes-discrete params k v) hs)

get-puts :
    (l : List (Bytes × Bytes)) (params : Params) (k : Bytes)
    → Distinct l
    → get Bytes-discrete (puts l params) k
      ≡ elim (lookup Bytes-discrete k l) [ none ↦ get Bytes-discrete params k | some v ↦ some v ]
unfolding puts lookup
get-puts [] params k d = refl
get-puts ((j, v) ∷ l) params k (d, ds) =
    ground
      (arith, get-puts l (put Bytes-discrete params j v) k ds, get-put Bytes-discrete params j k v)

get-nothing : (k : Bytes) → get Bytes-discrete (empty {K = Bytes} {V = Bytes}) k ≡ none
unfolding get lookup
get-nothing k = refl

module _ (visit : Visit) (visits : Visits visit) where
  -- All keys and values of the map can stand in a request.
  abbrev pub TextParams : Params → Type 0
  TextParams params = (k v : Bytes) → get Bytes-discrete params k ≡ some v → IsText k × IsText v

  visit-AllText : (params : Params) → TextParams params → AllText (visit params)
  visit-AllText params h =
      let (d, same) = visits params in
      found-Both IsText (visit params) d (λ k v e. h k v (cc (same k)))

  -- The constructor that parses reads from a written request, for every key, the parameter that the
  -- constructor with parameters was given, and fails on the keys that it was not given; for keys and
  -- values without the two delimiters, and in whatever order the library visits the map.
  pub get_param-parse_request :
      (endpoint : Bytes) (params : Params)
      → TextParams params
      → (k : Bytes)
      → get_param (parse_request endpoint (params_request visit endpoint params).request) k
        ≡ get Bytes-discrete params k
  unfolding get_param parse_request params_request write_params
  get_param-parse_request endpoint params h k =
      let (d, same) = visits params in
      rw (write_pairs-written, read_written (visit params) empty (visit-AllText params h))
        (ground (arith, get-puts (visit params) empty k d, get-nothing k, same k))
