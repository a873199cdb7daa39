-- ===== src/Node/Handlers.antt =====
-- The maps of running handlers in Cornus/include/messaging/GlobalMessageHandler.hpp. A handler is an
-- object that the map and its own thread share, so the maps hold addresses in a store; what `handle`
-- changes of a handler is its queue of messages. A callback runs on a thread of its own, and each of
-- `createNode`, `removeFromMap` and `sendMessage` holds the mutex from start to end.
pub mod Delivery
use cornus.Base.{
  ℕ, suc, String, Bool, true, false, Option, none, some, Bytes, List, [], ◌∷◌, ◌++◌, ◌==◌,
  if◌then◌else◌, ite, refl, sym, ◌≢◌, ℕ_discrete, arith,
}
use cornus.Base.Dict.{Dict, empty, get, put, erase}
use cornus.Config.Transaction.{TransactionConfig, new_transaction_config}
use cornus.Handler.Prog.{
  RequestType, vote_req, vote_yes, abort, commit, will_commit, decision_completed, transaction,
}

-- The kind of handler that a message starts.
pub data Kind : Type 0 where
  coordinator_kind participant_kind replicator_kind committer_kind : Kind

-- Which of the three maps.
pub data MapName : Type 0 where
  handlers replicators committers : MapName

pub record Handler : Type 0 where
  pub kind : Kind
  pub config : TransactionConfig
  pub messages : List RequestType

pub record Node : Type 0 where
  -- The handlers by address, of which those below `next` are in use.
  pub store : ℕ → Handler
  pub next : ℕ
  pub maps : MapName → Dict ℕ ℕ

pub handlers_not_replicators : handlers ≢ replicators
handlers_not_replicators e = cc

pub handlers_not_committers : handlers ≢ committers
handlers_not_committers e = cc

pub replicators_not_committers : replicators ≢ committers
replicators_not_committers e = cc

abbrev pub is_map : Discrete MapName
is_map handlers handlers = yes refl
is_map handlers replicators = no handlers_not_replicators
is_map handlers committers = no handlers_not_committers
is_map replicators handlers = no (λ e. handlers_not_replicators (sym e))
is_map replicators replicators = yes refl
is_map replicators committers = no replicators_not_committers
is_map committers handlers = no (λ e. handlers_not_committers (sym e))
is_map committers replicators = no (λ e. replicators_not_committers (sym e))
is_map committers committers = yes refl

unfoldable pub set_map : Node → MapName → Dict ℕ ℕ → MapName → Dict ℕ ℕ
set_map n m d m' = ite (is_map m m') d (n.maps m')

set_handler : Node → ℕ → Handler → ℕ → Handler
set_handler n a h a' = ite (ℕ_discrete a a') h (n.store a')

-- What `createNode` does where the class is a TransactionHandler: the new handler takes the place of one
-- with the same id.
unfoldable pub assign_handler : Node → Kind → Bytes → ℕ → MapName → ℕ × Node
unfolding set_map set_handler new_transaction_config
assign_handler n kind config txid m =
    let h : Handler = record {
      kind = kind;
      config = new_transaction_config config txid;
      messages = [];
    } in
    (
      n.next,
      record n {
        store = set_handler n n.next h;
        next = suc n.next;
        maps = set_map n m (put ℕ_discrete (n.maps m) txid n.next);
      },
    )

-- The version that is compiled; the source as it stands defines PAPER_VERSION.
pub data Version : Type 0 where
  paper_version new_version : Version

-- `std::is_base_of_v<TransactionHandler, Node>`: replicators and committers are handlers of the new
-- version only.
unfoldable pub is_transaction_handler : Version → Kind → Bool
is_transaction_handler new_version kind = true
is_transaction_handler paper_version coordinator_kind = true
is_transaction_handler paper_version participant_kind = true
is_transaction_handler paper_version replicator_kind = false
is_transaction_handler paper_version committer_kind = false

-- `createNode`; `none` is the exception "bad call to create node!".
unfoldable pub create_node : Version → Node → Kind → Bytes → ℕ → MapName → Option (ℕ × Node)
unfolding is_transaction_handler assign_handler
create_node version n kind config txid m =
    if is_transaction_handler version kind then some (assign_handler n kind config txid m) else none

-- `removeFromMap`
unfoldable pub remove_from_map : Node → ℕ → MapName → Node
unfolding set_map
remove_from_map n txid m = record n { maps = set_map n m (erase ℕ_discrete (n.maps m) txid) }

-- `Request` of Cornus/include/messaging/Request.h
pub record Request : Type 0 where
  pub type : RequestType
  pub txid : ℕ

-- `handle`: the message goes into the handler's queue. Its transaction id is not read any more, so the
-- queue here holds the types.
abbrev pub handle : Handler → Request → Handler
handle h request = record h { messages = h.messages ++ request.type ∷ [] }

push_to : Node → Request → Option ℕ → Node
unfolding set_handler
push_to n request none = n
push_to n request (some a) = record n { store = set_handler n a (handle (n.store a) request) }

-- `sendMessage`: a message without a handler is dropped.
unfoldable pub send_message : Node → ℕ → RequestType → MapName → Node
unfolding push_to
send_message n txid r m =
    push_to n (record { type = r; txid = txid }) (get ℕ_discrete (n.maps m) txid)

-- What the callback of an endpoint does.
pub data Callback : Type 0 where
  on_new_request : Kind → RequestType → MapName → Callback
  on_old_request : RequestType → MapName → Callback

-- The callbacks that the constructor registers.
unfoldable pub callback : String → Option Callback
callback e =
    if e == "VOTEREQ"
    then some (on_new_request participant_kind vote_req handlers)
    else if e == "VOTEYES"
    then some (on_old_request vote_yes handlers)
    else if e == "ABORT"
    then some (on_old_request abort handlers)
    else if e == "COMMIT"
    then some (on_old_request commit handlers)
    else if e == "WILLCOMMIT"
    then some (on_new_request replicator_kind will_commit replicators)
    else if e == "DECISIONCOMPLETED"
    then some (on_old_request decision_completed replicators)
    else if e == "OVERRIDECOMMIT"
    then some (on_new_request committer_kind commit committers)
    else none

-- One critical section on the node: the start of a handler, for which `createNode` does not throw, its
-- removal after `handleTransaction`, or a message for a running one.
pub data Event : Type 0 where
  starts : Kind → Bytes → ℕ → MapName → Event
  finishes : ℕ → MapName → Event
  tells : ℕ → RequestType → MapName → Event

unfoldable pub step : Node → Event → Node
unfolding assign_handler remove_from_map send_message
step n (starts kind config txid m) = (assign_handler n kind config txid m).1
step n (finishes txid m) = remove_from_map n txid m
step n (tells txid r m) = send_message n txid r m

unfoldable pub run_events : Node → List Event → Node
unfolding step
run_events n [] = n
run_events n (e ∷ es) = run_events (step n e) es
