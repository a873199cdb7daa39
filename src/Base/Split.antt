-- ===== src/Base/Split.antt =====
-- Parts of a text before and behind the first occurrence of a byte.
use Prim.Native.Nat.{ℕ}
use mathlib.Core.Path.{◌≡◌, refl}
use mathlib.Core.Logic.{◌≢◌}
use mathlib.Core.Bool.{Bool, true, false, not, ◌&&◌, ◌||◌}
use mathlib.Core.List.{[], ◌∷◌, ◌++◌}
use native.Mathlib.Omega.{arith}
use cornus.Base.Tests.{eqb, if◌then◌else◌}
use cornus.Base.Text.{Bytes, All}

-- `find(d) != npos`
unfoldable pub has_byte : ℕ → Bytes → Bool
has_byte d [] = false
has_byte d (c ∷ s) = eqb c d || has_byte d s

-- One `std::getline` on a fresh stream, and what is left for the next.
unfoldable pub before : ℕ → Bytes → Bytes
before d [] = []
before d (c ∷ s) = if eqb c d then [] else c ∷ before d s

unfoldable pub behind : ℕ → Bytes → Bytes
behind d [] = []
behind d (c ∷ s) = if eqb c d then s else behind d s

abbrev pub Lacks : ℕ → Bytes → Type 0
Lacks d = All (λ c. c ≢ d)

-- Whether a text holds neither byte.
unfoldable pub avoids : ℕ → ℕ → Bytes → Bool
avoids d e [] = true
avoids d e (c ∷ s) = not (eqb c d) && (not (eqb c e) && avoids d e s)

abbrev pub Avoids : ℕ → ℕ → Bytes → Type 0
Avoids d e = All (λ c. (c ≢ d) × (c ≢ e))

pub avoids-All : (d e : ℕ) (s : Bytes) → avoids d e s ≡ true → Avoids d e s
unfolding avoids
avoids-All d e [] h = tt
avoids-All d e (c ∷ s) h =
    (((λ q. ground arith), (λ q. ground arith)), avoids-All d e s (ground arith))

pub has_byte-append : (d : ℕ) (p rest : Bytes) → has_byte d (p ++ (d ∷ rest)) ≡ true
unfolding has_byte
has_byte-append d [] rest = ground arith
has_byte-append d (c ∷ p) rest = ground (arith, has_byte-append d p rest)

pub before-append : (d : ℕ) (p rest : Bytes) → Lacks d p → before d (p ++ (d ∷ rest)) ≡ p
unfolding before
before-append d [] rest h = ground arith
before-append d (c ∷ p) rest h = ground (arith, before-append d p rest)

pub behind-append : (d : ℕ) (p rest : Bytes) → Lacks d p → behind d (p ++ (d ∷ rest)) ≡ rest
unfolding behind
behind-append d [] rest h = ground arith
behind-append d (c ∷ p) rest h = ground (arith, behind-append d p rest)

pub before-Lacks : (d : ℕ) (p : Bytes) → Lacks d p → before d p ≡ p
unfolding before
before-Lacks d [] h = refl
before-Lacks d (c ∷ p) h = ground (arith, before-Lacks d p)

pub has_byte-Lacks : (d : ℕ) (p : Bytes) → Lacks d p → has_byte d p ≡ false
unfolding has_byte
has_byte-Lacks d [] h = refl
has_byte-Lacks d (c ∷ p) h = ground (arith, has_byte-Lacks d p)
