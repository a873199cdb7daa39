-- ===== src/Config/Host/Order.antt =====
-- The order of names that HostConfig sorts by, and where this node's own id stands among the others.
use cornus.Base.{
  ℕ, ◌+◌, ◌≡◌, refl, sym, true, false, List, [], ◌∷◌, ◌++◌, arith, All, Bool-cases, inl, inr,
  length, take, drop, ap, Bytes,
}
use cornus.Config.Transaction.{HostId}
use cornus.Config.Host.{less, insert, sort, first_not_below}

pub not_less_trans : (x y z : Bytes) → less y x ≡ false → less z y ≡ false → less z x ≡ false
unfolding less
not_less_trans [] [] [] h k = refl
not_less_trans [] [] (e ∷ z) h k = refl
not_less_trans [] (d ∷ y) [] h k = refl
not_less_trans [] (d ∷ y) (e ∷ z) h k = refl
not_less_trans (c ∷ x) [] z h k = cc
not_less_trans (c ∷ x) (d ∷ y) [] h k = cc
not_less_trans (c ∷ x) (d ∷ y) (e ∷ z) h k = ground (arith, not_less_trans x y z)

pub less_asym : (x y : Bytes) → less x y ≡ true → less y x ≡ false
unfolding less
less_asym [] [] h = cc
less_asym [] (d ∷ y) h = refl
less_asym (c ∷ x) [] h = cc
less_asym (c ∷ x) (d ∷ y) h = ground (arith, less_asym x y)

-- Each name is above none of those behind it.
abbrev pub IsSorted : List HostId → Type 0
IsSorted [] = Unit
IsSorted (x ∷ xs) = All (λ y. less y x ≡ false) xs × IsSorted xs

All-insert :
    (P : HostId → Type 0) (h : HostId) (xs : List HostId) → P h → All P xs → All P (insert h xs)
unfolding insert
All-insert P h [] p a = (p, tt)
All-insert P h (x ∷ xs) p (q, a) = elim (Bool-cases (less x h)) [
  | inl e ↦ rw (e, insert) (q, All-insert P h xs p a)
  | inr e ↦ rw (e, insert) (p, (q, a))
]

All-map :
    (P Q : HostId → Type 0) (xs : List HostId) → ((x : HostId) → P x → Q x) → All P xs → All Q xs
All-map P Q [] f a = tt
All-map P Q (x ∷ xs) f (p, a) = (f x p, All-map P Q xs f a)

insert-IsSorted : (h : HostId) (xs : List HostId) → IsSorted xs → IsSorted (insert h xs)
unfolding insert
insert-IsSorted h [] s = (tt, tt)
insert-IsSorted h (x ∷ xs) (a, s) = elim (Bool-cases (less x h)) [
  | inl e ↦
      rw (e, insert)
        (All-insert (λ y. less y x ≡ false) h xs (less_asym x h e) a, insert-IsSorted h xs s)
  | inr e ↦
      rw (e, insert)
        (
          (
            e,
            All-map (λ y. less y x ≡ false) (λ y. less y h ≡ false) xs
                (λ y p. not_less_trans h x y e p) a,
          ),
          (a, s),
        )
]

pub sort-IsSorted : (xs : List HostId) → IsSorted (sort xs)
unfolding sort
sort-IsSorted [] = tt
sort-IsSorted (x ∷ xs) = insert-IsSorted x (sort xs) (sort-IsSorted xs)

-- A sorted list falls apart into the names below `id` and the others.
pub record IsSplit (id : HostId) (xs below above : List HostId) : Type 0 where
  pub whole : xs ≡ below ++ above
  pub all_below : All (λ h. less h id ≡ true) below
  pub none_below : All (λ h. less h id ≡ false) above
  pub below_sorted : IsSorted below
  pub above_sorted : IsSorted above

All-front : (P : HostId → Type 0) (xs ys : List HostId) → All P (xs ++ ys) → All P xs
All-front P [] ys a = tt
All-front P (x ∷ xs) ys (p, a) = (p, All-front P xs ys a)

-- The loop counts the names below.
pub first_not_below-IsSplit :
    (id : HostId) (xs : List HostId) (i : ℕ)
    → IsSorted xs
    → (below above : List HostId) × IsSplit id xs below above
      × (first_not_below id xs i ≡ i + length below)
unfolding first_not_below
first_not_below-IsSplit id [] i s = (
  [],
  [],
  record { whole = refl; all_below = tt; none_below = tt; below_sorted = tt; above_sorted = tt },
  omega arith,
)
first_not_below-IsSplit id (x ∷ xs) i (a, s) = elim (Bool-cases (less x id)) [
  | inl e ↦
      let (below, above, p, n) = first_not_below-IsSplit id xs (i + 1) s in
      (
        x ∷ below,
        above,
        record {
          whole = ap (◌∷◌ x) p.whole;
          all_below = (e, p.all_below);
          none_below = p.none_below;
          below_sorted =
              (All-front (λ y. less y x ≡ false) below above (rw (sym p.whole) a), p.below_sorted);
          above_sorted = p.above_sorted;
        },
        rw (e, first_not_below) (omega (arith, n)),
      )
  | inr e ↦ (
    [],
    x ∷ xs,
    record {
      whole = refl;
      all_below = tt;
      none_below = (
        e,
        All-map (λ y. less y x ≡ false) (λ y. less y id ≡ false) xs
            (λ y p. not_less_trans id x y e p) a,
      );
      below_sorted = tt;
      above_sorted = (a, s);
    },
    rw (e, first_not_below) (omega arith),
  )
]

pub drop-front : (xs ys : List HostId) → drop (length xs) (xs ++ ys) ≡ ys
drop-front [] ys = refl
drop-front (x ∷ xs) ys = drop-front xs ys

pub take-front : (xs ys : List HostId) → take (length xs) (xs ++ ys) ≡ xs
take-front [] ys = refl
take-front (x ∷ xs) ys = ap (◌∷◌ x) (take-front xs ys)
