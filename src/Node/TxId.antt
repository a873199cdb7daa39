-- ===== src/Node/TxId.antt =====
-- `getUniqueTransactionId` of Cornus/include/messaging/GlobalMessageHandler.hpp. The counter is a
-- `u_int32_t`, so `transactionCounter << 16` is computed modulo 2^32 before it is widened.
pub mod Racing
use cornus.Base.{ℕ, ◌+◌, ◌*◌, ◌%◌, ◌^◌, ◌<◌, ◌≡◌, ◌↔◌, arith}

pub record IdSource : Type 0 where
  pub node_id : ℕ  -- u_int16_t
  pub transaction_counter : ℕ  -- u_int32_t

-- `nodeId(hostConfig.hostNum)` keeps the low 16 bits of a `size_t`.
pub new_id_source : ℕ → IdSource
new_id_source host_num = record { node_id = host_num % 2 ^ 16; transaction_counter = 0 }

-- The function holds no lock, and the HTTP server calls it on several threads. It reads the counter for
-- the id, reads it again for `transactionCounter++`, and stores the sum.
unfoldable pub shift_counter : IdSource → ℕ
shift_counter s = (s.transaction_counter * 2 ^ 16 % 2 ^ 32 + s.node_id) % 2 ^ 64

unfoldable pub store_counter : IdSource → ℕ → IdSource
store_counter s n = record s { transaction_counter = (n + 1) % 2 ^ 32 }

-- A call that no other call overlaps.
pub get_unique_transaction_id : IdSource → ℕ × IdSource
unfolding shift_counter store_counter
get_unique_transaction_id s = (shift_counter s, store_counter s s.transaction_counter)

pub record IsValid (s : IdSource) : Type 0 where
  pub node : s.node_id < 2 ^ 16
  pub counter : s.transaction_counter < 2 ^ 32

new_id_source-IsValid : (n : ℕ) → IsValid (new_id_source n)
unfolding new_id_source
new_id_source-IsValid n = omega arith

pub get_unique_transaction_id-IsValid :
    {s : IdSource} → IsValid s → IsValid (get_unique_transaction_id s).1
unfolding get_unique_transaction_id store_counter
get_unique_transaction_id-IsValid v = omega arith

-- Two ids are equal exactly when the nodes are the same and the counters agree modulo 2^16: the id
-- separates nodes, but keeps only the low half of the counter.
pub id_collision_iff :
    (s t : IdSource)
    → IsValid s
    → IsValid t
    → ((get_unique_transaction_id s).0 ≡ (get_unique_transaction_id t).0) ↔ (
        (s.node_id ≡ t.node_id) × (s.transaction_counter % 2 ^ 16 ≡ t.transaction_counter % 2 ^ 16))
unfolding get_unique_transaction_id shift_counter
id_collision_iff s t v w = ground arith

unfoldable pub after : ℕ → IdSource → IdSource
unfolding get_unique_transaction_id
after ℕ.zero s = s
after (ℕ.suc n) s = (get_unique_transaction_id (after n s)).1

after-IsValid : (n : ℕ) {s : IdSource} → IsValid s → IsValid (after n s)
unfolding after
after-IsValid ℕ.zero v = v
after-IsValid (ℕ.suc n) v = get_unique_transaction_id-IsValid (after-IsValid n v)

after-counter :
    (n : ℕ) (s : IdSource)
    → IsValid s
    → ((after n s).node_id ≡ s.node_id)
      × ((after n s).transaction_counter ≡ (s.transaction_counter + n) % 2 ^ 32)
unfolding after get_unique_transaction_id store_counter
after-counter ℕ.zero s v = omega arith
after-counter (ℕ.suc n) s v = omega (arith, after-counter n s v)

same_half :
    (c i j : ℕ)
    → ((c + i) % 2 ^ 32 % 2 ^ 16 ≡ (c + j) % 2 ^ 32 % 2 ^ 16) ↔ (i % 2 ^ 16 ≡ j % 2 ^ 16)
same_half c i j = ((λ e. omega arith), (λ e. omega arith))

-- Where no two calls on a node overlap, the ids that it hands out after `i` and after `j` calls are
-- equal exactly when `i` and `j` agree modulo 65536: the period is 65536.
pub ids_repeat_iff :
    (s : IdSource) (i j : ℕ)
    → IsValid s
    → ((get_unique_transaction_id (after i s)).0 ≡ (get_unique_transaction_id (after j s)).0)
      ↔ (i % 2 ^ 16 ≡ j % 2 ^ 16)
ids_repeat_iff s i j v =
    let a = after-counter i s v in
    let b = after-counter j s v in
    let both = id_collision_iff (after i s) (after j s) (after-IsValid i v) (after-IsValid j v) in
    let half = same_half s.transaction_counter i j in ground (arith, both, half, a, b)
