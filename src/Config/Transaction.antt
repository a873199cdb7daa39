-- ===== src/Config/Transaction.antt =====
-- Cornus/include/config/TransactionConfig.h: the text "coordinator participant1 participant2 …".
use cornus.Base.{
  ℕ, ◌≡◌, ◌≢◌, refl, sym, ◌∙◌, true, false, List, [], ◌∷◌, ◌++◌, append_assoc, append-nil, Bytes,
  All,
}
use cornus.Base.Decimal.{is_space}

-- "hostname:port"
abbrev pub HostId : Type 0
HostId = Bytes

pub record TransactionConfig : Type 0 where
  pub coordinator : HostId
  pub participants : List HostId
  pub txid : ℕ

-- A word that has ended; `>>` skips blanks and never yields an empty word.
abbrev flush : Bytes → List Bytes → List Bytes
flush [] ws = ws
flush (c ∷ s) ws = (c ∷ s) ∷ ws

-- The words that repeated `ss >> node` reads, the letters of the current one in `word`.
read_words : Bytes → Bytes → List Bytes
read_words [] word = flush word []
read_words (c ∷ s) word = elim (is_space c) [
  | true ↦ flush word (read_words s [])
  | false ↦ read_words s (word ++ c ∷ [])
]

-- `ss >> coordinator` leaves the coordinator empty where there is no word.
config_of : List Bytes → ℕ → TransactionConfig
config_of [] id = record { coordinator = []; participants = []; txid = id }
config_of (w ∷ ws) id = record { coordinator = w; participants = ws; txid = id }

unfoldable pub new_transaction_config : Bytes → ℕ → TransactionConfig
unfolding read_words config_of
new_transaction_config text id = config_of (read_words text []) id

append_participants : Bytes → List HostId → Bytes
append_participants tmp [] = tmp
append_participants tmp (p ∷ ps) = append_participants ((tmp ++ p) ++ b' ' ∷ []) ps

unfoldable pub config_to_string : TransactionConfig → Bytes
unfolding append_participants
config_to_string c = append_participants (c.coordinator ++ b' ' ∷ []) c.participants

-- A host name that survives the text: not empty, and without blanks.
abbrev pub IsHostName : HostId → Type 0
IsHostName h = (h ≢ []) × All (λ c. is_space c ≡ false) h

-- Each word followed by a blank.
abbrev spaced : List Bytes → Bytes
spaced [] = []
spaced (w ∷ ws) = w ++ b' ' ∷ spaced ws

append_participants-spaced :
    (tmp : Bytes) (ps : List HostId) → append_participants tmp ps ≡ tmp ++ spaced ps
unfolding append_participants
append_participants-spaced tmp [] = sym (append-nil tmp)
append_participants-spaced tmp (p ∷ ps) =
    append_participants-spaced ((tmp ++ p) ++ b' ' ∷ []) ps ∙ simp append_assoc

read_words-append :
    (w s word : Bytes)
    → All (λ c. is_space c ≡ false) w
    → read_words (w ++ s) word ≡ read_words s (word ++ w)
unfolding read_words
read_words-append [] s word h = rw append-nil
read_words-append (c ∷ w) s word h =
    rw (h.0, read_words) (rw (read_words-append w s (word ++ c ∷ []) h.1, append_assoc))

flush-ne-nil : (w : Bytes) (ws : List Bytes) → w ≢ [] → flush w ws ≡ w ∷ ws
flush-ne-nil [] ws h = absurd (h refl)
flush-ne-nil (c ∷ w) ws h = refl

read_words-spaced : (ws : List Bytes) → All IsHostName ws → read_words (spaced ws) [] ≡ ws
unfolding read_words
read_words-spaced [] h = refl
read_words-spaced (w ∷ ws) h =
    rw (read_words-append w (b' ' ∷ spaced ws) [] h.0.1)
      (rw (flush-ne-nil w (read_words (spaced ws) []) h.0.0, read_words-spaced ws h.1))

-- The text that a coordinator sends is read back as the configuration that it has, when no host name
-- is empty or holds a blank.
pub new_transaction_config-config_to_string :
    (c : TransactionConfig)
    → IsHostName c.coordinator
    → All IsHostName c.participants
    → new_transaction_config (config_to_string c) c.txid ≡ c
unfolding new_transaction_config config_to_string
new_transaction_config-config_to_string c hc hp = rw (
  append_participants-spaced (c.coordinator ++ b' ' ∷ []) c.participants,
  append_assoc,
  read_words-spaced (c.coordinator ∷ c.participants) (hc, hp),
)
