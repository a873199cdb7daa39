-- ===== src/Base/Decimal.antt =====
-- `std::to_string` on an unsigned number and `std::stoul`, as the program uses them on ids and ports.
use Prim.Native.Nat.{ℕ, zero, suc, ◌+◌, ◌-◌, ◌*◌, ◌/◌, ◌%◌, ◌^◌, ◌<◌, ◌≤◌}
use mathlib.Core.Path.{◌≡◌, ap}
use mathlib.Core.Bool.{Bool, true, false, ◌&&◌, ◌||◌}
use mathlib.Core.List.{[], ◌∷◌}
use mathlib.Core.Option.{Option, none, some}
use native.Mathlib.Omega.{arith}
use mathlib.Core.Logic
use cornus.Base.Tests
use cornus.Base.Tests.{ltb, leb, eqb, if◌then◌else◌}
use cornus.Base.Text.{Bytes, All}

-- Each round takes the last digit off. The fuel is one more than the number.
digits : ℕ → ℕ → Bytes → Bytes
digits zero n out = out
digits (suc f) n out = elim (ltb n 10) [
  | true ↦ (b'0' + n) ∷ out
  | false ↦ digits f (n / 10) ((b'0' + n % 10) ∷ out)
]

unfoldable pub to_string : ℕ → Bytes
unfolding digits
to_string n = digits (suc n) n []

-- `isspace` in the "C" locale.
abbrev pub is_space : ℕ → Bool
is_space c = eqb c b' ' || (leb 9 c && leb c 13)

abbrev is_digit : ℕ → Bool
is_digit c = leb b'0' c && leb c b'9'

skip_spaces : Bytes → Bytes
skip_spaces [] = []
skip_spaces (c ∷ s) = if is_space c then skip_spaces s else c ∷ s

-- The number that the leading digits spell behind `n`.
value : Bytes → ℕ → ℕ
value [] n = n
value (c ∷ s) n = elim (is_digit c) [ true ↦ value s (n * 10 + (c - b'0')) | false ↦ n ]

-- `none` where `stoul` throws: no digit, or a number beyond `unsigned long`.
magnitude : Bytes → Option ℕ
unfolding value
magnitude [] = none
magnitude (c ∷ s) =
    if is_digit c
    then (if ltb (value (c ∷ s) 0) (2 ^ 64) then some (value (c ∷ s) 0) else none)
    else none

negate : Option ℕ → Option ℕ
negate none = none
negate (some n) = some ((2 ^ 64 - n) % 2 ^ 64)

signed : Bytes → Option ℕ
unfolding magnitude negate
signed [] = none
signed (c ∷ s) =
    if eqb c b'-'
    then negate (magnitude s)
    else if eqb c b'+'
    then magnitude s
    else magnitude (c ∷ s)

unfoldable pub stoul : Bytes → Option ℕ
unfolding skip_spaces signed
stoul s = signed (skip_spaces s)

value-digits : (f n : ℕ) (out : Bytes) → n < f → value (digits f n out) 0 ≡ value out n
unfolding value digits
value-digits zero n out h = absurd (omega arith)
value-digits (suc f) n out h = ground (arith, value-digits f (n / 10) ((b'0' + n % 10) ∷ out))

digits_head :
    (f n : ℕ) (out : Bytes)
    → n < f
    → (c : ℕ) × (s : Bytes) × (digits f n out ≡ c ∷ s) × (b'0' ≤ c) × (c ≤ b'9')
unfolding digits
digits_head zero n out h = absurd (omega arith)
digits_head (suc f) n out h = elim (Tests.Bool-cases (ltb n 10)) [
  | Logic.inl small ↦ (b'0' + n, out, ground arith, ground arith, ground arith)
  | Logic.inr large ↦
      let (c, s, e, lo, hi) = digits_head f (n / 10) ((b'0' + n % 10) ∷ out) (ground arith) in
      (c, s, ground arith, lo, hi)
]

stoul_digit :
    (c : ℕ) (s : Bytes)
    → b'0' ≤ c
    → c ≤ b'9'
    → value (c ∷ s) 0 < 2 ^ 64
    → stoul (c ∷ s) ≡ some (value (c ∷ s) 0)
unfolding stoul
stoul_digit c s lo hi h = ground arith

digits-All :
    (f n : ℕ) (out : Bytes)
    → n < f
    → All (λ c. (b'0' ≤ c) × (c ≤ b'9')) out
    → All (λ c. (b'0' ≤ c) × (c ≤ b'9')) (digits f n out)
unfolding digits
digits-All zero n out h a = a
digits-All (suc f) n out h a = elim (Tests.Bool-cases (ltb n 10)) [
  | Logic.inl small ↦ rw (small, digits) ((ground arith, ground arith), a)
  | Logic.inr large ↦
      rw (large, digits)
        (digits-All f (n / 10) ((b'0' + n % 10) ∷ out) (ground arith)
          ((ground arith, ground arith), a))
]

stoul_spelled :
    (t : Bytes) (n c : ℕ) (s : Bytes)
    → t ≡ c ∷ s
    → b'0' ≤ c
    → c ≤ b'9'
    → value t 0 ≡ n
    → n < 2 ^ 64
    → stoul t ≡ some n
stoul_spelled t n c s e lo hi v h = ground (arith, ap (λ x. value x 0) e, stoul_digit c s lo hi)

-- Every 64-bit number is read back from its decimal print.
pub stoul-to_string : (n : ℕ) → n < 2 ^ 64 → stoul (to_string n) ≡ some n
unfolding to_string value
stoul-to_string n h =
    let (c, s, e, lo, hi) = digits_head (suc n) n [] (omega arith) in
    stoul_spelled (digits (suc n) n []) n c s e lo hi (value-digits (suc n) n [] (omega arith)) h

-- A decimal print is one or more digits.
pub to_string-digits : (n : ℕ) → All (λ c. (b'0' ≤ c) × (c ≤ b'9')) (to_string n)
unfolding to_string
to_string-digits n = digits-All (suc n) n [] (omega arith) tt

-- `stoi`: the number as a 32-bit pattern, and `none` where it throws.
non_negative : Option ℕ → Option ℕ
non_negative none = none
non_negative (some n) = if ltb n (2 ^ 31) then some n else none

negative : Option ℕ → Option ℕ
negative none = none
negative (some n) = if leb n (2 ^ 31) then some ((2 ^ 32 - n) % 2 ^ 32) else none

signed_int : Bytes → Option ℕ
unfolding magnitude non_negative negative
signed_int [] = none
signed_int (c ∷ s) =
    if eqb c b'-'
    then negative (magnitude s)
    else if eqb c b'+'
    then non_negative (magnitude s)
    else non_negative (magnitude (c ∷ s))

unfoldable pub stoi : Bytes → Option ℕ
unfolding skip_spaces signed_int
stoi s = signed_int (skip_spaces s)

stoi_digit :
    (c : ℕ) (s : Bytes)
    → b'0' ≤ c
    → c ≤ b'9'
    → value (c ∷ s) 0 < 2 ^ 31
    → stoi (c ∷ s) ≡ some (value (c ∷ s) 0)
unfolding stoi
stoi_digit c s lo hi h = ground arith

stoi_spelled :
    (t : Bytes) (n c : ℕ) (s : Bytes)
    → t ≡ c ∷ s
    → b'0' ≤ c
    → c ≤ b'9'
    → value t 0 ≡ n
    → n < 2 ^ 31
    → stoi t ≡ some n
stoi_spelled t n c s e lo hi v h = ground (arith, ap (λ x. value x 0) e, stoi_digit c s lo hi)

-- Every number that is not negative and fits 32 bits with a sign is read back from its print.
pub stoi-to_string : (n : ℕ) → n < 2 ^ 31 → stoi (to_string n) ≡ some n
unfolding to_string value
stoi-to_string n h =
    let (c, s, e, lo, hi) = digits_head (suc n) n [] (omega arith) in
    stoi_spelled (digits (suc n) n []) n c s e lo hi (value-digits (suc n) n [] (omega arith)) h
