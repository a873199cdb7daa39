-- ===== src/Base/Dict.antt =====
-- `std::map` and `std::unordered_map` as association lists. The order of the entries stands for nothing:
-- where the program visits a map, the order of the visit is a parameter.
use mathlib.Core.Path.{◌≡◌}
use mathlib.Core.Logic.{ite}
use mathlib.Core.List.{List, [], ◌∷◌}
use mathlib.Core.Option.{Option, none, some}
use native.Mathlib.Omega.{arith}

pub record Dict {ℓ} (K V : Type ℓ) : Type ℓ where
  pub entries : List (K × V)

abbrev pub empty {ℓ} : {K V : Type ℓ} → Dict K V
empty = record { entries = [] }

module _ {ℓ} {K V : Type ℓ} (d : Discrete K) where
  unfoldable pub lookup : K → List (K × V) → Option V
  lookup k [] = none
  lookup k ((j, v) ∷ l) = ite (d j k) (some v) (lookup k l)

  unfoldable pub without : K → List (K × V) → List (K × V)
  without k [] = []
  without k ((j, v) ∷ l) = let rest = without k l in ite (d j k) rest ((j, v) ∷ rest)

  -- `m.find(k)`
  unfoldable pub get : Dict K V → K → Option V
  unfolding lookup
  get m k = lookup k m.entries

  -- `m[k] = v`
  unfoldable pub put : Dict K V → K → V → Dict K V
  unfolding without
  put m k v = record { entries = (k, v) ∷ without k m.entries }

  -- `m.erase(k)`
  unfoldable pub erase : Dict K V → K → Dict K V
  unfolding without
  erase m k = record { entries = without k m.entries }

  pub lookup-without :
      (k j : K) (l : List (K × V)) → lookup j (without k l) ≡ ite (d k j) none (lookup j l)
  unfolding lookup without
  lookup-without k j [] = ground arith
  lookup-without k j ((i, v) ∷ l) = ground (arith, lookup-without k j l)

  pub get-put :
      (m : Dict K V) (k j : K) (v : V) → get (put m k v) j ≡ ite (d k j) (some v) (get m j)
  unfolding get put lookup
  get-put m k j v = ground (arith, lookup-without k j m.entries)

  pub get-erase : (m : Dict K V) (k j : K) → get (erase m k) j ≡ ite (d k j) none (get m j)
  unfolding get erase
  get-erase m k j = lookup-without k j m.entries
