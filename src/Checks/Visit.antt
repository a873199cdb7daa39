-- ===== src/Checks/Visit.antt =====
-- An order in which a library may visit the parameters of a request.
use cornus.Base.{◌≡◌, refl, List, [], ◌∷◌, Bytes, Bytes-discrete, arith}
use cornus.Base.Dict.{get, lookup, without, lookup-without}
use cornus.Tcp.Request.{Visit}
use cornus.Tcp.Request.RoundTrip.{Distinct, Visits}

-- A visit of the entries as they stand, each key once.
once : List (Bytes × Bytes) → List (Bytes × Bytes)
once [] = []
once ((k, v) ∷ l) = (k, v) ∷ without Bytes-discrete k (once l)

unfoldable pub in_order : Visit
unfolding once
in_order params = once params.entries

without-Distinct :
    (k : Bytes) (l : List (Bytes × Bytes)) → Distinct l → Distinct (without Bytes-discrete k l)
unfolding without
without-Distinct k [] d = tt
without-Distinct k ((j, v) ∷ l) (d, ds) =
    let rest = without-Distinct k l ds in ground (arith, lookup-without Bytes-discrete k j l)

once-Distinct : (l : List (Bytes × Bytes)) → Distinct (once l)
unfolding once
once-Distinct [] = tt
once-Distinct ((k, v) ∷ l) = (
  ground (arith, lookup-without Bytes-discrete k k (once l)),
  without-Distinct k (once l) (once-Distinct l),
)

lookup-once :
    (j : Bytes) (l : List (Bytes × Bytes))
    → lookup Bytes-discrete j (once l) ≡ lookup Bytes-discrete j l
unfolding once lookup
lookup-once j [] = refl
lookup-once j ((k, v) ∷ l) =
    ground (arith, lookup-once j l, lookup-without Bytes-discrete k j (once l))

pub in_order-Visits : Visits in_order
unfolding in_order get
in_order-Visits params = (once-Distinct params.entries, λ k. lookup-once k params.entries)
