-- ===== src/Config/Host/Replicators.antt =====
-- Which nodes HostConfig chooses: the `f` that follow this one, in the order of names, around the end.
use cornus.Base.{
  length-drop, take, drop, ℕ, zero, suc, ◌+◌, ◌-◌, ◌≤◌, ◌<◌, ◌≡◌, refl, sym, List, [], ◌∷◌, ◌++◌,
  append_assoc, append-nil, arith, Bool-cases, inl, inr, length, Option-cases, none, some,
  length-append, ◌∙◌, ap,
}
use native.Mathlib.Numerals.{add-one}
use native.Mathlib.Nat.{sub-zero, zero-sub, suc-sub-suc}
use mathlib.Core.List.{Perm, perm_append_comm}
use mathlib.Core.List.Perm
use cornus.Base.Decimal.{to_string}
use cornus.Config.Transaction.{HostId}
use cornus.Config.Host.Order.{
  IsSplit, sort-IsSorted, first_not_below-IsSplit, drop-front, take-front,
}
use cornus.Config.Host.{
  HostJson, HostConfig, less, insert, sort, get_elem?, first_not_below, push_above, push_wrapped,
  choose_replicators, new_host_config, config_with,
}

get_elem?-drop {ℓ} :
    {A : Type ℓ} (xs : List A) (i : ℕ) (x : A)
    → get_elem? xs i ≡ some x
    → drop i xs ≡ x ∷ drop (suc i) xs
get_elem?-drop [] i x h = cc
get_elem?-drop (y ∷ xs) zero x h = cc
get_elem?-drop (y ∷ xs) (suc i) x h = get_elem?-drop xs i x h

get_elem?-drop-none {ℓ} :
    {A : Type ℓ} (xs : List A) (i : ℕ) → get_elem? xs i ≡ none → drop i xs ≡ []
get_elem?-drop-none [] zero h = refl
get_elem?-drop-none [] (suc i) h = refl
get_elem?-drop-none (y ∷ xs) zero h = cc
get_elem?-drop-none (y ∷ xs) (suc i) h = get_elem?-drop-none xs i h

drop_next :
    (xs : List HostId) (i : ℕ) (x : HostId)
    → get_elem? xs i ≡ some x
    → drop i xs ≡ x ∷ drop (i + 1) xs
drop_next xs i x h = rw add-one (get_elem?-drop xs i x h)

push_above-take :
    (xs : List HostId) (count i : ℕ) (out : List HostId)
    → push_above xs count i out ≡ (count - length (drop i xs), out ++ take count (drop i xs))
unfolding push_above
push_above-take xs zero i out = ground (arith, append-nil out)
push_above-take xs (suc count) i out = elim (Option-cases (get_elem? xs i)) [
  | inl e ↦ rw (e, push_above, get_elem?-drop-none xs i e, append-nil) (ground arith)
  | inr (x, e) ↦
      rw (e, push_above, push_above-take xs count (i + 1) (out ++ x ∷ []), drop_next xs i x e)
        (ground (arith, append_assoc out (x ∷ []) (take count (drop (i + 1) xs))))
]

push_wrapped-take :
    (xs : List HostId) (count i : ℕ) (out : List HostId)
    → count ≤ length (drop i xs)
    → push_wrapped xs count i out ≡ some (out ++ take count (drop i xs))
unfolding push_wrapped
push_wrapped-take xs zero i out h = ground (arith, append-nil out)
push_wrapped-take xs (suc count) i out h = elim (Option-cases (get_elem? xs i)) [
  | inl e ↦ absurd (omega (arith, ap length (get_elem?-drop-none xs i e)))
  | inr (x, e) ↦
      rw (e, push_wrapped, drop_next xs i x e)
        (push_wrapped-take xs count (i + 1) (out ++ x ∷ [])
            (omega (arith, ap length (drop_next xs i x e)))
          ∙ ap some (append_assoc out (x ∷ []) (take count (drop (i + 1) xs))))
]

take-append :
    (xs ys : List HostId) (n : ℕ) → take n xs ++ take (n - length xs) ys ≡ take n (xs ++ ys)
take-append [] ys zero = refl
take-append [] ys (suc n) = rw sub-zero
take-append (x ∷ xs) ys zero = rw zero-sub
take-append (x ∷ xs) ys (suc n) = rw suc-sub-suc (ap (◌∷◌ x) (take-append xs ys n))

take-take : (xs : List HostId) (k n : ℕ) → k ≤ n → take k (take n xs) ≡ take k xs
take-take xs zero n h = refl
take-take [] (suc k) zero h = refl
take-take [] (suc k) (suc n) h = refl
take-take (x ∷ xs) (suc k) zero h = absurd (omega arith)
take-take (x ∷ xs) (suc k) (suc n) h = ap (◌∷◌ x) (take-take xs k n (omega arith))

take-drop : (xs : List HostId) (n : ℕ) → take n xs ++ drop n xs ≡ xs
take-drop xs zero = refl
take-drop [] (suc n) = refl
take-drop (x ∷ xs) (suc n) = ap (◌∷◌ x) (take-drop xs n)

length-take : (xs : List HostId) (n : ℕ) → n ≤ length xs → length (take n xs) ≡ n
length-take xs zero h = refl
length-take [] (suc n) h = absurd (omega arith)
length-take (x ∷ xs) (suc n) h = ap suc (length-take xs n (omega arith))

-- `i` counts the entries below `id` at the front.
first_not_below-le :
    (id : HostId) (xs : List HostId) (i : ℕ) → first_not_below id xs i ≤ i + length xs
unfolding first_not_below
first_not_below-le id [] i = omega arith
first_not_below-le id (x ∷ xs) i = ground (arith, first_not_below-le id xs (i + 1))

-- The entries from the `k`-th on, then those before it.
abbrev pub rotate : ℕ → List HostId → List HostId
rotate k xs = drop k xs ++ take k xs

wrapped :
    (xs : List HostId) (f k : ℕ)
    → f ≤ length xs
    → k ≤ length xs
    → take f (drop k xs) ++ take (f - length (drop k xs)) xs ≡ take f (rotate k xs)
wrapped xs f k h hk =
    ap (◌++◌ (take f (drop k xs))) (sym (take-take xs _ k (omega (arith, length-drop xs k))))
    ∙ take-append (drop k xs) (take k xs) f

-- With enough other nodes the two loops stay within the vector, and take the first `f` entries of the
-- vector rotated to the first name that is not below `id`.
pub choose_replicators-rotate :
    (id : HostId) (xs : List HostId) (f : ℕ)
    → f ≤ length xs
    → choose_replicators id xs f ≡ some (take f (rotate (first_not_below id xs 0) xs))
unfolding choose_replicators
choose_replicators-rotate id xs f h =
    let k = first_not_below id xs 0 in
    let hk = first_not_below-le id xs 0 in
    rw (push_above-take xs f k []) (
      push_wrapped-take xs (f - length (drop k xs)) 0 (take f (drop k xs))
        (omega (arith, length-drop xs k))
      ∙ ap some (wrapped xs f k h (omega arith)))

rotate-perm : (k : ℕ) (xs : List HostId) → Perm (rotate k xs) xs
rotate-perm k xs =
    Perm.trans (perm_append_comm (drop k xs) (take k xs)) (rw take-drop (Perm.refl xs))

insert-perm : (h : HostId) (xs : List HostId) → Perm (insert h xs) (h ∷ xs)
unfolding insert
insert-perm h [] = Perm.refl (h ∷ [])
insert-perm h (x ∷ xs) = elim (Bool-cases (less x h)) [
  | inl e ↦ rw (e, insert) (Perm.trans (Perm.cons x (insert-perm h xs)) (Perm.swap h x xs))
  | inr e ↦ rw (e, insert) (Perm.refl (h ∷ x ∷ xs))
]

pub sort-perm : (xs : List HostId) → Perm (sort xs) xs
unfolding sort
sort-perm [] = Perm.refl []
sort-perm (x ∷ xs) = Perm.trans (insert-perm x (sort xs)) (Perm.cons x (sort-perm xs))

length-insert : (h : HostId) (xs : List HostId) → length (insert h xs) ≡ suc (length xs)
unfolding insert
length-insert h [] = refl
length-insert h (x ∷ xs) = ground (arith, length-insert h xs)

length-sort : (xs : List HostId) → length (sort xs) ≡ length xs
unfolding sort
length-sort [] = refl
length-sort (x ∷ xs) = omega (arith, length-insert x (sort xs), length-sort xs)

length-rotate : (k : ℕ) (xs : List HostId) → length (rotate k xs) ≡ length xs
length-rotate k xs = omega (
  arith,
  length-append (drop k xs) (take k xs),
  length-append (take k xs) (drop k xs),
  ap length (take-drop xs k),
)

abbrev pub id_of : HostJson → HostId
id_of j = j.host ++ b':' ∷ to_string j.port

-- With at least `f` other nodes the constructor succeeds. The other nodes are then a sorted list `below`
-- of names below this node's id, and a sorted list `above` of names that are not; and the replicators
-- are the first `f` names of `above` followed by `below`. There are `f` of them, and with some rest they
-- make up the list of others, so no entry is taken twice.
pub new_host_config-replicators :
    (j : HostJson)
    → j.f ≤ length j.others
    → (hc : HostConfig) × (below above rest : List HostId) × (new_host_config j ≡ some hc)
      × (hc.id ≡ id_of j)
      × (hc.replicators ≡ take j.f (above ++ below))
      × IsSplit hc.id hc.all_others below above
      × Perm hc.all_others j.others
      × (length hc.replicators ≡ j.f)
      × Perm (hc.replicators ++ rest) j.others
unfolding new_host_config
new_host_config-replicators j h =
    let id = id_of j in
    let s = sort j.others in
    let (below, above, p, n) = first_not_below-IsSplit id s 0 (sort-IsSorted j.others) in
    let at_below : first_not_below id s 0 ≡ length below = omega (arith, n) in
    let turned : rotate (first_not_below id s 0) s ≡ above ++ below =
      rw (at_below, p.whole, drop-front below above, take-front below above) refl in
    let enough : j.f ≤ length s = omega (arith, length-sort j.others) in
    let all : Perm (above ++ below) j.others =
      Perm.trans (perm_append_comm above below) (rw (sym p.whole) (sort-perm j.others)) in
    (
      config_with j id s (take j.f (above ++ below)),
      below,
      above,
      drop j.f (above ++ below),
      ground (arith, choose_replicators-rotate id s j.f enough, turned),
      refl,
      refl,
      p,
      sort-perm j.others,
      length-take (above ++ below) j.f
          (omega (arith, ap length p.whole, length-append below above, length-append above below)),
      rw (take-drop (above ++ below) j.f) all,
    )

-- With fewer, the assertion fails.
new_host_config-assert : (j : HostJson) → length j.others < j.f → new_host_config j ≡ none
unfolding new_host_config
new_host_config-assert j h = ground arith
