-- ===== src/Handler/Alone.antt =====
-- A handler that runs to its end with a queue of messages that have arrived; a wait on the empty
-- queue times out. The DBMS is the one of Dbms/Manager.
pub mod Logs
use cornus.Base.{
  ℕ, String, Bool, ◌≡◌, refl, Option, none, some, Bytes, List, [], ◌∷◌, ◌++◌, append_assoc,
  append-nil, arith,
}
use cornus.Config.Transaction.{HostId}
use cornus.Dbms.Manager
use cornus.Dbms.Manager.{LogManager}
use cornus.Handler.Prog.{
  RequestType, Packet, Cmd, log_once, log_write, log_read, send, set_timeout_start, wait,
  vote_request, work_commit, record_event, Answer, Prog, ret, crash, act, ◌>>=◌, ◌>>◌,
}
use cornus.Handler.Sender.{Sender, group_packet, send_group}

pub record Node : Type 0 where
  pub dbms : LogManager
  pub mail : List RequestType
  -- The vote of the worker.
  pub accepts : Bool
  -- The messages that the handler has sent, and the calls of `worker.COMMIT`, in order.
  pub sent : List Packet
  pub work : List Bytes

logged : Option String × LogManager → Node → Option String × Node
logged (r, m) n = (r, record n { dbms = m })

received : List RequestType → Node → Option RequestType × Node
received [] n = (none, n)
received (r ∷ rest) n = (some r, record n { mail = rest })

-- `none` is an exception of the DBMS.
perform_on : (c : Cmd) → Node → Option (Answer c) × Node
unfolding logged received
perform_on (log_once d a) n = logged (Manager.log_once n.dbms a d) n
perform_on (log_write d a) n = logged (Manager.log_write n.dbms a d) n
perform_on (log_read a) n = logged (Manager.log_read n.dbms a) n
perform_on (send p) n = (some tt, record n { sent = n.sent ++ p ∷ [] })
perform_on set_timeout_start n = (some tt, n)
perform_on (wait t) n = let (r, n') = received n.mail n in (some r, n')
perform_on (vote_request c) n = (some n.accepts, n)
perform_on (work_commit h) n = (some tt, record n { work = n.work ++ h ∷ [] })
perform_on (record_event e) n = (some tt, n)

abbrev pub resume :
    {A B : Type 0} → (A → Node → Option B × Node) → Option A × Node → Option B × Node
resume f (none, n) = (none, n)
resume f (some a, n) = f a n

unfoldable pub alone : {A : Type 0} → Prog A → Node → Option A × Node
unfolding perform_on
alone (ret a) n = (some a, n)
alone crash n = (none, n)
alone (act c k) n = resume (λ r. alone (k r)) (perform_on c n)

resume_bind :
    {A B C : Type 0} (f : A → Prog B) (g : B → Prog C) (x : Option A × Node)
    → ((a : A) (n : Node) → alone (f a >>= g) n ≡ resume (λ b. alone (g b)) (alone (f a) n))
    → resume (λ a. alone (f a >>= g)) x ≡ resume (λ b. alone (g b)) (resume (λ a. alone (f a)) x)
resume_bind f g (none, n) h = refl
resume_bind f g (some a, n) h = h a n

pub alone-bind :
    {A B : Type 0} (m : Prog A) (f : A → Prog B) (n : Node)
    → alone (m >>= f) n ≡ resume (λ a. alone (f a)) (alone m n)
unfolding alone
alone-bind (ret a) f n = refl
alone-bind crash f n = refl
alone-bind (act c k) f n = resume_bind k f (perform_on c n) (λ r n'. alone-bind (k r) f n')

-- The requests of one `send`.
abbrev pub packets : Sender → String → Bytes → List HostId → List Packet
packets s type c [] = []
packets s type c (h ∷ hs) = group_packet s type c h ∷ packets s type c hs

pub alone-send_group :
    (s : Sender) (type : String) (c : Bytes) (hs : List HostId) (n : Node)
    → alone (send_group s type c hs) n
      ≡ (some tt, record n { sent = n.sent ++ packets s type c hs })
unfolding alone send_group perform_on
alone-send_group s type c [] n = rw append-nil
alone-send_group s type c (h ∷ hs) n = rw (alone-send_group s type c hs, append_assoc)
