-- ===== src/Dbms/Server/Paths.antt =====
-- The server finds the log that the client has named.
use cornus.Base.{
  ℕ, String, ◌<◌, ◌≤◌, ◌^◌, ℕ_discrete, ◌≡◌, ◌≢◌, refl, Option, none, some, Bytes, Bytes-discrete,
  [], ◌∷◌, ◌++◌, codes, All, leb, eqb, Bool, true, ◌&&◌, ◌||◌, arith, ap,
}
use cornus.Base.Decimal.{to_string, stoul, stoul-to_string, to_string-digits}
use cornus.Dbms.Manager.{LogType, data_type, transaction_type}
use cornus.Dbms.Server.{PathParams, at, log_type, get_log_address, type_word, get_path}

-- A byte that stands for itself in a path: a letter, a digit, or one of `.`, `:`, `-`.
abbrev pub is_plain : ℕ → Bool
is_plain c =
    (leb b'a' c && leb c b'z')
    || (leb b'A' c && leb c b'Z')
    || (leb b'0' c && leb c b'9')
    || eqb c b'.'
    || eqb c b':'
    || eqb c b'-'

abbrev pub IsPlain : Bytes → Type 0
IsPlain w = (w ≢ []) × All (λ c. is_plain c ≡ true) w

-- The route of an endpoint: the parameters of a path that fits `/endpoint/:txId/:clId/:dOrt`.
abbrev pub Router : Type 0
Router = String → Bytes → Option PathParams

-- Documented behaviour of path parameters, on plain words.
abbrev pub Matches : Router → Type 0
Matches route =
    (e : String) (a b c : Bytes)
    → IsPlain a
    → IsPlain b
    → IsPlain c
    → (ps : PathParams) × (route e (b'/' ∷ (codes e ++ (b'/' ∷ (a ++ (b'/' ∷ (b ++ (b'/' ∷ c)))))))
        ≡ some ps)
      × (at ps "txId" ≡ some a)
      × (at ps "clId" ≡ some b)
      × (at ps "dOrt" ≡ some c)

pub type_word-IsPlain : (t : LogType) → IsPlain (type_word t)
unfolding type_word codes
type_word-IsPlain data_type = ((λ e. cc), (refl, (refl, (refl, (refl, tt)))))
type_word-IsPlain transaction_type = (
  (λ e. cc),
  (refl, (refl, (refl, (refl, (refl, (refl, (refl, (refl, (refl, (refl, (refl, tt))))))))))),
)

log_type-type_word : (t : LogType) → log_type (type_word t) ≡ some t
unfolding log_type type_word codes Bytes-discrete ℕ_discrete
log_type-type_word data_type = refl
log_type-type_word transaction_type = refl

plain_digits : (w : Bytes) → All (λ c. (b'0' ≤ c) × (c ≤ b'9')) w → All (λ c. is_plain c ≡ true) w
plain_digits [] h = tt
plain_digits (c ∷ w) (h, hs) = (ground arith, plain_digits w hs)

no_number : stoul [] ≡ none
unfolding stoul
no_number = refl

pub to_string-IsPlain : (n : ℕ) → n < 2 ^ 64 → IsPlain (to_string n)
to_string-IsPlain n h =
    let read_back = stoul-to_string n h in
    (
      (λ e. let gone = ap stoul e in let unread = no_number in cc),
      plain_digits (to_string n) (to_string-digits n),
    )

module _ (route : Router) (matches : Matches route) where
  -- The server reads back the log that a node names in a path, for every endpoint, when the id fits
  -- 64 bits and the host name is plain, and the router finds plain parameters.
  pub get_log_address-get_path :
      (e : String) (tx_id : ℕ) (host_id : Bytes) (type : LogType)
      → tx_id < 2 ^ 64
      → IsPlain host_id
      → (ps : PathParams) × (route e (get_path e tx_id host_id type) ≡ some ps)
        × (get_log_address ps ≡ some (record { tx_id = tx_id; client_id = host_id; type = type }))
  unfolding get_path get_log_address
  get_log_address-get_path e tx_id host_id type h p =
      let (ps, found, a, b, c) =
        matches e (to_string tx_id) host_id (type_word type) (to_string-IsPlain tx_id h) p
          (type_word-IsPlain type) in
      (ps, found, rw (a, b, c, stoul-to_string tx_id h, log_type-type_word type) refl)
