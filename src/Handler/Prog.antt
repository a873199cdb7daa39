-- ===== src/Handler/Prog.antt =====
-- What a transaction handler does to the rest of the system, one effect at a time: calls of the DBMS,
-- messages, waiting, the worker and the timer. A handler is a tree of effects, so the same definition
-- runs alone and interleaved with others.
use mathlib.Core.Path.{fun_ext}
use cornus.Base.{ℕ, String, ◌≡◌, refl, ap, Bool, Option, Bytes}
use cornus.Config.Transaction.{HostId}
use cornus.Dbms.Manager.{LogAddress}

-- `RequestType` of Cornus/include/messaging/Request.h
pub data RequestType : Type 0 where
  transaction vote_req vote_yes abort will_commit decision_completed commit : RequestType

-- A TCPRequest as a handler builds it: its endpoint, which is also the parameter "type", and the
-- parameters "config" (where the handler gives one), "txid" and "sender".
pub record Packet : Type 0 where
  pub to : HostId
  pub endpoint : String
  pub config : Option Bytes
  pub txid : ℕ
  pub sender : HostId

pub data Cmd : Type 0 where
  log_once log_write : String → LogAddress → Cmd
  log_read : LogAddress → Cmd
  -- One request; what the response says is not read. That the handler waits for it is in
  -- Protocol/Waiting.
  send : Packet → Cmd
  -- `setTimeoutStart` of the handler's queue
  set_timeout_start : Cmd
  -- `waitForNextMessage` with a timeout in milliseconds
  wait : ℕ → Cmd
  -- `worker.VOTE_REQ` and `worker.COMMIT`
  vote_request work_commit : Bytes → Cmd
  -- `watch.record`
  record_event : Bytes → Cmd

-- What an effect answers.
abbrev pub Answer : Cmd → Type 0
Answer (log_once d a) = String
Answer (log_write d a) = String
Answer (log_read a) = String
Answer (send p) = Unit
Answer set_timeout_start = Unit
Answer (wait t) = Option RequestType
Answer (vote_request c) = Bool
Answer (work_commit h) = Unit
Answer (record_event e) = Unit

-- `crash` is a failed assertion or an exception that nobody catches.
pub data Prog (A : Type 0) : Type 0 where
  ret : A → Prog A
  crash : Prog A
  act : (c : Cmd) → (Answer c → Prog A) → Prog A

infixl 5 ◌>>=◌ ◌>>◌
abbrev pub ◌>>=◌ : {A B : Type 0} → Prog A → (A → Prog B) → Prog B
ret a >>= f = f a
crash >>= f = crash
act c k >>= f = act c (λ r. k r >>= f)

abbrev pub ◌>>◌ : {B : Type 0} → Prog (Unit {0}) → Prog B → Prog B
m >> k = m >>= λ _. k

abbrev pub perform : (c : Cmd) → Prog (Answer c)
perform c = act c (λ r. ret r)

pub bind_assoc :
    {A B C : Type 0} (m : Prog A) (f : A → Prog B) (g : B → Prog C)
    → (m >>= f >>= g) ≡ (m >>= λ a. f a >>= g)
bind_assoc (ret a) f g = refl
bind_assoc crash f g = refl
bind_assoc (act c k) f g = ap (act c) (fun_ext λ r. bind_assoc (k r) f g)
