-- ===== src/Node/Handlers/Delivery.antt =====
-- Which handler a message reaches, while other transactions come and go.
use cornus.Base.{
  ℕ, ◌<◌, ◌≡◌, ◌≢◌, refl, Option, none, some, Bytes, List, [], ◌∷◌, ◌++◌, ite, ℕ_discrete, arith,
  All, append_assoc, append-nil, ◌∙◌,
}
use cornus.Base.Dict.{get, get-put, get-erase}
use cornus.Handler.Prog.{RequestType}
use cornus.Node.Handlers.{
  Request, Kind, MapName, Node, is_map, set_map, set_handler, assign_handler, remove_from_map,
  push_to, send_message, Event, starts, finishes, tells, step, run_events,
}

module _ (txid : ℕ) (m : MapName) where
  -- The event leaves the entry of `txid` in `m` as it is.
  abbrev pub Leaves : Event → Type 0
  Leaves (starts kind config tx m') = ¬ ((tx ≡ txid) × (m' ≡ m))
  Leaves (finishes tx m') = ¬ ((tx ≡ txid) × (m' ≡ m))
  Leaves (tells tx r m') = Unit

  -- The messages among the events that are for `txid` in `m`.
  abbrev pub told : List Event → List RequestType
  told [] = []
  told (tells tx r m' ∷ es) =
      let rest = told es in ite (ℕ_discrete tx txid) (ite (is_map m' m) (r ∷ rest) rest) rest
  told (starts kind config tx m' ∷ es) = told es
  told (finishes tx m' ∷ es) = told es

module _ (txid : ℕ) (m : MapName) (a : ℕ) where
  -- The handler at `a` runs under `txid` in the map `m`, and nowhere else.
  pub record Owns (n : Node) : Type 0 where
    pub registered : get ℕ_discrete (n.maps m) txid ≡ some a
    pub used : a < n.next
    pub only :
        (tx : ℕ) (m' : MapName) → get ℕ_discrete (n.maps m') tx ≡ some a → (tx ≡ txid) × (m' ≡ m)
    pub below :
        (tx : ℕ) (m' : MapName) (b : ℕ) → get ℕ_discrete (n.maps m') tx ≡ some b → b < n.next

  starts-Owns :
      (n : Node) (kind : Kind) (config : Bytes) (tx : ℕ) (m' : MapName)
      → Owns n
      → ¬ ((tx ≡ txid) × (m' ≡ m))
      → Owns (assign_handler n kind config tx m').1
  unfolding assign_handler set_map
  starts-Owns n kind config tx m' o l = record {
    registered = ground (arith, get-put ℕ_discrete (n.maps m') tx txid n.next, o.registered);
    used = omega (arith, o.used);
    only = λ tx2 m2 e.
        ground (arith, get-put ℕ_discrete (n.maps m') tx tx2 n.next, o.only tx2 m2, o.used);
    below = λ tx2 m2 b e.
        ground (arith, get-put ℕ_discrete (n.maps m') tx tx2 n.next, o.below tx2 m2 b);
  }

  finishes-Owns :
      (n : Node) (tx : ℕ) (m' : MapName)
      → Owns n
      → ¬ ((tx ≡ txid) × (m' ≡ m))
      → Owns (remove_from_map n tx m')
  unfolding remove_from_map set_map
  finishes-Owns n tx m' o l = record {
    registered = ground (arith, get-erase ℕ_discrete (n.maps m') tx txid, o.registered);
    used = o.used;
    only = λ tx2 m2 e. ground (arith, get-erase ℕ_discrete (n.maps m') tx tx2, o.only tx2 m2);
    below = λ tx2 m2 b e. ground (arith, get-erase ℕ_discrete (n.maps m') tx tx2, o.below tx2 m2 b);
  }

  push-Owns : (n : Node) (r : Request) (b : Option ℕ) → Owns n → Owns (push_to n r b)
  unfolding push_to
  push-Owns n r none o = o
  push-Owns n r (some b) o = record {
    registered = o.registered;
    used = o.used;
    only = o.only;
    below = o.below;
  }

  step-Owns : (n : Node) (e : Event) → Owns n → Leaves txid m e → Owns (step n e)
  unfolding step send_message
  step-Owns n (starts kind config tx m') o l = starts-Owns n kind config tx m' o l
  step-Owns n (finishes tx m') o l = finishes-Owns n tx m' o l
  step-Owns n (tells tx r m') o l =
      push-Owns n (record { type = r; txid = tx }) (get ℕ_discrete (n.maps m') tx) o

  abbrev queue : Node → List RequestType
  queue n = (n.store a).messages

  push_other :
      (n : Node) (r : Request) (b : Option ℕ) → b ≢ some a → queue (push_to n r b) ≡ queue n
  unfolding push_to set_handler
  push_other n r none h = refl
  push_other n r (some b) h = ground arith

  push_own :
      (n : Node) (r : Request) (b : Option ℕ)
      → b ≡ some a
      → queue (push_to n r b) ≡ queue n ++ r.type ∷ []
  unfolding push_to set_handler
  push_own n r none h = absurd (cc)
  push_own n r (some b) h = ground arith

  told_here :
      (tx : ℕ) (r : RequestType) (m' : MapName)
      → tx ≡ txid
      → m' ≡ m
      → told txid m (tells tx r m' ∷ []) ≡ r ∷ []
  told_here tx r m' e f = ground arith

  told_elsewhere :
      (tx : ℕ) (r : RequestType) (m' : MapName)
      → ¬ ((tx ≡ txid) × (m' ≡ m))
      → told txid m (tells tx r m' ∷ []) ≡ []
  told_elsewhere tx r m' h = ground arith

  sent_elsewhere :
      (n : Node) (tx : ℕ) (r : RequestType) (m' : MapName)
      → Owns n
      → ¬ ((tx ≡ txid) × (m' ≡ m))
      → queue (send_message n tx r m') ≡ queue n ++ told txid m (tells tx r m' ∷ [])
  unfolding send_message
  sent_elsewhere n tx r m' o h =
      rw (told_elsewhere tx r m' h, append-nil)
        (push_other n (record { type = r; txid = tx }) (get ℕ_discrete (n.maps m') tx)
          (λ q. h (o.only tx m' q)))

  sent_here :
      (n : Node) (tx : ℕ) (r : RequestType) (m' : MapName)
      → Owns n
      → tx ≡ txid
      → m' ≡ m
      → queue (send_message n tx r m') ≡ queue n ++ told txid m (tells tx r m' ∷ [])
  unfolding send_message
  sent_here n tx r m' o e f = rw (told_here tx r m' e f) (
      push_own n (record { type = r; txid = tx }) (get ℕ_discrete (n.maps m') tx)
        (ground (arith, o.registered)))

  step-queue :
      (n : Node) (e : Event)
      → Owns n
      → Leaves txid m e
      → queue (step n e) ≡ queue n ++ told txid m (e ∷ [])
  unfolding step assign_handler remove_from_map set_handler
  step-queue n (starts kind config tx m') o l = rw append-nil (ground (arith, o.used))
  step-queue n (finishes tx m') o l = rw append-nil refl
  step-queue n (tells tx r m') o l = elim (ℕ_discrete tx txid) [
    | yes e ↦ elim (is_map m' m) [
      | yes f ↦ sent_here n tx r m' o e f
      | no f ↦ sent_elsewhere n tx r m' o (λ b. f b.1)
    ]
    | no e ↦ sent_elsewhere n tx r m' o (λ b. e b.0)
  ]

  told-cons :
      (e : Event) (es : List Event) → told txid m (e ∷ es) ≡ told txid m (e ∷ []) ++ told txid m es
  told-cons (starts kind config tx m') es = refl
  told-cons (finishes tx m') es = refl
  told-cons (tells tx r m') es = ground arith

  -- While the events on a node start and remove no handler under the id and in the map of a running
  -- handler, its queue grows by the messages for that id and map, in their order, and by no others; it
  -- stays the one that the map names.
  pub run_events-told :
      (n : Node)
      → Owns n
      → (es : List Event) → All (Leaves txid m) es
      → Owns (run_events n es) × (queue (run_events n es) ≡ queue n ++ told txid m es)
  unfolding run_events
  run_events-told n o [] l = (o, rw append-nil refl)
  run_events-told n o (e ∷ es) (l, ls) =
      let (o', q) = run_events-told (step n e) (step-Owns n e o l) es ls in
      (o', q ∙ rw (step-queue n e o l, append_assoc, told-cons e es) refl)

-- All entries of the maps are handlers in use.
abbrev pub IsValid : Node → Type 0
IsValid n = (tx : ℕ) (m : MapName) (b : ℕ) → get ℕ_discrete (n.maps m) tx ≡ some b → b < n.next

-- On a node whose maps name only handlers in use, `createNode` puts a new handler with an empty queue
-- under the id, whatever stood there; the queues of the handlers in use stay as they were.
pub assign_handler-Owns :
    (n : Node) (kind : Kind) (config : Bytes) (txid : ℕ) (m : MapName)
    → IsValid n
    → let (a, n') = assign_handler n kind config txid m in
      Owns txid m a n'
      × ((n'.store a).messages ≡ [])
      × ((b : ℕ) → b < n.next → n'.store b ≡ n.store b)
unfolding assign_handler set_map set_handler
assign_handler-Owns n kind config txid m v = (
  record {
    registered = ground (arith, get-put ℕ_discrete (n.maps m) txid txid n.next);
    used = omega arith;
    only =
        λ tx2 m2 e. ground (arith, get-put ℕ_discrete (n.maps m) txid tx2 n.next, v tx2 m2 n.next);
    below = λ tx2 m2 b e. ground (arith, get-put ℕ_discrete (n.maps m) txid tx2 n.next, v tx2 m2 b);
  },
  ground arith,
  λ b h. ground arith,
)
