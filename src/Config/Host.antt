-- ===== src/Config/Host.antt =====
-- Cornus/include/config/HostConfig.hpp: the constructor of HostConfig, from the values that the JSON
-- library reads from the file. The port is not negative, and the list of others is shorter than 2^31,
-- so that the counters of type `int` do not wrap.
pub mod Fields
pub mod Order
pub mod Replicators
use Prim.Native.Nat.{compare, Ordering}
use cornus.Base.{
  ℕ, zero, suc, ◌+◌, ◌≤◌, ◌<◌, ◌≡◌, ◌≢◌, refl, sym, Bool, true, false, List, [], ◌∷◌, ◌++◌,
  append_assoc, append-nil, arith, Bytes, All, if◌then◌else◌, Bool-cases, inl, inr, codes, length,
  ltb, Option, none, some,
}
use cornus.Base.Decimal.{to_string}
use cornus.Config.Transaction.{HostId}

pub record HostJson : Type 0 where
  pub host : Bytes
  pub others : List HostId
  pub dbms_address : HostId
  pub host_num : ℕ
  pub port : ℕ
  pub timeout_millis : ℕ
  pub f : ℕ

pub record HostConfig : Type 0 where
  pub id : HostId
  pub all_others : List HostId
  pub dbms_address : HostId
  pub host_num : ℕ
  pub port : ℕ
  pub host : Bytes
  pub timeout : ℕ
  pub f : ℕ
  pub replicators : List HostId

-- `operator<` of std::string
unfoldable pub less : Bytes → Bytes → Bool
less [] [] = false
less [] (d ∷ t) = true
less (c ∷ s) [] = false
less (c ∷ s) (d ∷ t) = elim (compare c d) [
  | Ordering.lt ↦ true
  | Ordering.eq ↦ less s t
  | Ordering.gt ↦ false
]

-- `std::sort` on names: what it returns is the one sorted arrangement.
pub insert : HostId → List HostId → List HostId
unfolding less
insert h [] = h ∷ []
insert h (x ∷ xs) = if less x h then x ∷ insert h xs else h ∷ x ∷ xs

unfoldable pub sort : List HostId → List HostId
unfolding insert
sort [] = []
sort (x ∷ xs) = insert x (sort xs)

abbrev pub get_elem? {ℓ} : {A : Type ℓ} → List A → ℕ → Option A
get_elem? [] i = none
get_elem? (x ∷ xs) zero = some x
get_elem? (x ∷ xs) (suc i) = get_elem? xs i

-- `while (i < allOthers.size() && allOthers[i] < id) i++`, over the entries from `i` on.
pub first_not_below : HostId → List HostId → ℕ → ℕ
unfolding less
first_not_below id [] i = i
first_not_below id (h ∷ hs) i = elim (less h id) [
  | true ↦ first_not_below id hs (i + 1)
  | false ↦ i
]

-- `while (i < allOthers.size() && count > 0)`; returns the count that is left.
push_above : List HostId → ℕ → ℕ → List HostId → ℕ × List HostId
push_above xs zero i out = (zero, out)
push_above xs (suc count) i out = elim (get_elem? xs i) [
  | none ↦ (suc count, out)
  | some h ↦ push_above xs count (i + 1) (out ++ h ∷ [])
]

-- `while (count > 0)` from index 0; `none` for a read past the end.
push_wrapped : List HostId → ℕ → ℕ → List HostId → Option (List HostId)
push_wrapped xs zero i out = some out
push_wrapped xs (suc count) i out = elim (get_elem? xs i) [
  | none ↦ none
  | some h ↦ push_wrapped xs count (i + 1) (out ++ h ∷ [])
]

unfoldable pub choose_replicators : HostId → List HostId → ℕ → Option (List HostId)
unfolding first_not_below push_above push_wrapped
choose_replicators id xs f =
    let (count, out) = push_above xs f (first_not_below id xs 0) [] in push_wrapped xs count 0 out

pub config_with : HostJson → HostId → List HostId → List HostId → HostConfig
config_with j id sorted rs = record {
  id = id;
  all_others = sorted;
  dbms_address = j.dbms_address;
  host_num = j.host_num;
  port = j.port;
  host = j.host;
  timeout = j.timeout_millis;
  f = j.f;
  replicators = rs;
}

finish : HostJson → HostId → List HostId → Option (List HostId) → Option HostConfig
unfolding config_with
finish j id sorted none = none
finish j id sorted (some rs) = some (config_with j id sorted rs)

-- `none` where the assertion fails.
unfoldable pub new_host_config : HostJson → Option HostConfig
unfolding finish
new_host_config j =
    let id = j.host ++ b':' ∷ to_string j.port in
    if ltb (length j.others) j.f
    then none
    else finish j id (sort j.others) (choose_replicators id (sort j.others) j.f)
