-- ===== src/Checks/Node.antt =====
-- The maps of running handlers on concrete events.
use cornus.Base.{◌≡◌, refl, codes, List, [], ◌∷◌, ◌++◌, arith, ℕ_discrete, some, true, false}
use cornus.Base.Dict.{empty, get, lookup}
use cornus.Handler.Prog.{RequestType, vote_yes, abort}
use cornus.Node.TypeName.{Reference, CppType, type_name}
use cornus.Node.Handlers.{
  coordinator_kind, participant_kind, handlers, Node, assign_handler, Event, starts, finishes,
  tells, run_events,
}
use cornus.Node.Handlers.Delivery.{Owns, told, IsValid, run_events-told, assign_handler-Owns}
use cornus.Node.Queue
use cornus.Node.Queue.{Mailbox, pushes, waits, waits_with_timeout, wakes, happens, history}
use cornus.Node.Queue.Order.{passed, pushed, passed-history}
use cornus.Node.Queue.Deadline.{wait_ends}

abbrev pub idle : Node
idle = record {
  store = λ _. record {
    kind = coordinator_kind;
    config = record { coordinator = []; participants = []; txid = 0 };
    messages = [];
  };
  next = 0;
  maps = λ _. empty;
}

pub idle-IsValid : IsValid idle
unfolding get lookup
idle-IsValid tx m b e = absurd (cc)

abbrev running : Node
running = (assign_handler idle coordinator_kind (codes "a:1 b:2 ") 7 handlers).1

abbrev mixed : List Event
mixed =
    tells 7 vote_yes handlers
    ∷ starts participant_kind (codes "c:1 a:1 ") 8 handlers
    ∷ tells 8 abort handlers
    ∷ finishes 8 handlers
    ∷ tells 7 vote_yes handlers
    ∷ []

run_events-told_example :
    Owns 7 handlers 0 (run_events running mixed)
    × (((run_events running mixed).store 0).messages
        ≡ (running.store 0).messages ++ told 7 handlers mixed)
unfolding assign_handler
run_events-told_example =
    run_events-told 7 handlers 0 running
      (assign_handler-Owns idle coordinator_kind (codes "a:1 b:2 ") 7 handlers idle-IsValid).0 mixed
      (tt, ((λ e. omega (arith, e.0)), (tt, ((λ e. omega (arith, e.0)), (tt, tt)))))

two_votes : told 7 handlers mixed ≡ vote_yes ∷ vote_yes ∷ []
unfolding ℕ_discrete
two_votes = refl

abbrev no_mail : Mailbox RequestType
no_mail = record {
  messages = record { q = []; timeout_start = 0 };
  reader = Queue.idle;
  returned = [];
}

abbrev busy : List (Queue.Event RequestType)
busy = waits_with_timeout 5 10 ∷ pushes abort ∷ pushes vote_yes ∷ wakes 12 ∷ []

passed-history_example : passed (history no_mail busy) ≡ [] ++ pushed busy
passed-history_example = passed-history no_mail busy

wait_ends_example :
    (happens
      (history (happens no_mail (waits_with_timeout 5 10)) (wakes 14 ∷ []))
      (wakes 15)).reader
    ≡ Queue.idle
wait_ends_example = wait_ends no_mail 5 10 15 (wakes 14 ∷ []) refl (tt, tt) (omega arith)

abbrev const_int : Reference → CppType
const_int r = record {
  name = codes "i";
  demangled = some (codes "int");
  is_const = true;
  is_volatile = false;
  reference = r;
}

-- `const int &` is named as `const int` is.
type_name_test : type_name (const_int Reference.lvalue_reference) ≡ codes "int const"
unfolding type_name codes
type_name_test = refl
