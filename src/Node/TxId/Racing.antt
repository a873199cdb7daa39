-- ===== src/Node/TxId/Racing.antt =====
-- Calls of `getUniqueTransactionId` that overlap: the threads of the HTTP server make their steps in any
-- order.
use cornus.Base.{
  ℕ, ◌%◌, ◌^◌, ◌<◌, ◌≡◌, ◌≢◌, refl, sym, subst, ap, ◌∙◌, List, [], ◌∷◌, ite, ℕ_discrete, arith,
}
use cornus.Node.TxId.{IdSource, shift_counter, store_counter, IsValid}

-- How far a call is: before it reads the counter; with the id; with the counter that `++` has read; or
-- with the id that it has returned.
pub data Call : Type 0 where
  begins : Call
  shifted : ℕ → Call
  loaded : ℕ → ℕ → Call
  returned : ℕ → Call

pub record Calls : Type 0 where
  pub ids : IdSource
  pub calls : ℕ → Call

abbrev pub new_calls : IdSource → Calls
new_calls s = record { ids = s; calls = λ t. begins }

-- The next step of a call.
call_step : IdSource → Call → Call × IdSource
unfolding shift_counter store_counter
call_step s begins = (shifted (shift_counter s), s)
call_step s (shifted id) = (loaded id s.transaction_counter, s)
call_step s (loaded id n) = (returned id, store_counter s n)
call_step s (returned id) = (returned id, s)

set_call : Calls → ℕ → Call × IdSource → Calls
set_call c t (call, s) = record { ids = s; calls = λ u. ite (ℕ_discrete t u) call (c.calls u) }

-- The threads in the order in which they make their steps.
unfoldable pub run_calls : Calls → List ℕ → Calls
unfolding call_step set_call
run_calls c [] = c
run_calls c (t ∷ ts) = run_calls (set_call c t (call_step c.ids (c.calls t))) ts

-- The id in a call names the node, in 32 bits.
Names : ℕ → Call → Type 0
Names node begins = Unit
Names node (shifted id) = (id % 2 ^ 16 ≡ node) × (id < 2 ^ 32)
Names node (loaded id n) = (id % 2 ^ 16 ≡ node) × (id < 2 ^ 32)
Names node (returned id) = (id % 2 ^ 16 ≡ node) × (id < 2 ^ 32)

record IsNamed (node : ℕ) (c : Calls) : Type 0 where
  source : IsValid c.ids
  same : c.ids.node_id ≡ node
  named : (t : ℕ) → Names node (c.calls t)

step-Names :
    (node : ℕ) (s : IdSource) (call : Call)
    → IsValid s
    → s.node_id ≡ node
    → Names node call
    → IsValid (call_step s call).1
      × ((call_step s call).1.node_id ≡ node)
      × Names node (call_step s call).0
unfolding Names call_step shift_counter store_counter
step-Names node s begins v e n = (v, e, (omega (arith, v.node), omega (arith, v.node)))
step-Names node s (shifted id) v e n = (v, e, n)
step-Names node s (loaded id k) v e n = (record { node = v.node; counter = omega arith }, e, n)
step-Names node s (returned id) v e n = (v, e, n)

set-Names :
    (node t u : ℕ) (d : Dec (t ≡ u)) (call before : Call)
    → Names node call
    → Names node before
    → Names node (ite d call before)
set-Names node t u (yes e) call before n b = n
set-Names node t u (no e) call before n b = b

run_calls-IsNamed :
    (node : ℕ) (ts : List ℕ) (c : Calls) → IsNamed node c → IsNamed node (run_calls c ts)
unfolding run_calls set_call
run_calls-IsNamed node [] c h = h
run_calls-IsNamed node (t ∷ ts) c h =
    let (v, e, n) = step-Names node c.ids (c.calls t) h.source h.same (h.named t) in
    run_calls-IsNamed node ts (set_call c t (call_step c.ids (c.calls t))) (record {
      source = v;
      same = e;
      named = λ u.
          set-Names node t u (ℕ_discrete t u) (call_step c.ids (c.calls t)).0 (c.calls u) n
            (h.named u);
    })

new_calls-IsNamed : (s : IdSource) → IsValid s → IsNamed s.node_id (new_calls s)
unfolding Names
new_calls-IsNamed s v = record { source = v; same = refl; named = λ t. tt }

returned_named :
    (s : IdSource) (ts : List ℕ) (t id : ℕ)
    → IsValid s
    → (run_calls (new_calls s) ts).calls t ≡ returned id
    → (id % 2 ^ 16 ≡ s.node_id) × (id < 2 ^ 32)
unfolding Names
returned_named s ts t id v e =
    subst (Names s.node_id) e
      ((run_calls-IsNamed s.node_id ts (new_calls s) (new_calls-IsNamed s v)).named t)

-- On two nodes whose numbers differ in the low 16 bits, any calls run on any threads, their steps in any
-- order. Then no id that a call on the one node returns is one that a call on the other returns, and
-- both fit 32 bits.
pub returned_ids_differ :
    (s s' : IdSource) (ts ts' : List ℕ) (t t' id id' : ℕ)
    → IsValid s
    → IsValid s'
    → s.node_id ≢ s'.node_id
    → (run_calls (new_calls s) ts).calls t ≡ returned id
    → (run_calls (new_calls s') ts').calls t' ≡ returned id'
    → (id ≢ id') × (id < 2 ^ 32) × (id' < 2 ^ 32)
returned_ids_differ s s' ts ts' t t' id id' v v' d e e' =
    let (n, l) = returned_named s ts t id v e in
    let (n', l') = returned_named s' ts' t' id' v' e' in
    ((λ q. d (sym n ∙ ap (λ x. x % 2 ^ 16) q ∙ n')), l, l')
