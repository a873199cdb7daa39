-- ===== src/Handler/Paper.antt =====
-- The paper's version: TransactionHandler.hpp, Coordinator.h and Participant.h of
-- Cornus/include/transactionHandlers/. `voting` is the coordinator's loop; its fuel bounds the messages
-- that it reads, and `none` says that the fuel ran out.
pub mod Scan
pub mod Ends
use cornus.Base.{
  ℕ, zero, suc, ◌+◌, String, not, Option, none, some, List, [], ◌∷◌, ◌++◌, codes, ◌==◌, eqb,
  if◌then◌else◌, length,
}
use cornus.Base.Decimal.{to_string}
use cornus.Config.Transaction.{HostId, config_to_string}
use cornus.Dbms.Manager.{LogAddress, LogType}
use cornus.Handler.Prog.{
  RequestType, log_once, log_write, wait, set_timeout_start, vote_request, work_commit,
  record_event, Prog, ret, crash, ◌>>=◌, ◌>>◌, perform,
}
use cornus.Handler.Sender.{Sender, send_to_participants, send_to_coordinator, watch}

-- The transaction log of a host for this transaction.
abbrev pub log_of : Sender → HostId → LogAddress
log_of s h = record { tx_id = s.config.txid; client_id = h; type = LogType.transaction_type }

-- `for (auto otherParticipantId : config.participants)`
unfoldable pub termination_loop : Sender → List HostId → Prog String
termination_loop s [] = ret "COMMIT"
termination_loop s (p ∷ ps) = do
  resp ← perform (log_once "ABORT" (log_of s p))
  if resp == "ABORT"
      then ret "ABORT"
      else if resp == "COMMIT"
      then ret "COMMIT"
      else if resp == "VOTEYES"
      then termination_loop s ps
      else crash

unfoldable pub termination_protocol : Sender → Prog String
unfolding termination_loop
termination_protocol s = termination_loop s s.config.participants

-- One message in the voting phase: go on with a number of votes, or a decision.
unfoldable pub receive_vote : Sender → ℕ → RequestType → Prog (ℕ × Option String)
receive_vote s votes r = elim r [
  | RequestType.vote_yes ↦ do
    perform (record_event (codes "recv-vote-" ++ to_string (votes + 1)))
    if eqb (votes + 1) (length s.config.participants)
        then ret (votes + 1, some "COMMIT")
        else ret (votes + 1, none)
  | RequestType.abort ↦ ret (votes, some "ABORT")
  | _ ↦ ret (votes, none)
]

-- With a decision the loop is left, and otherwise it goes on.
unfoldable pub continue_voting :
    (ℕ → Prog (Option String)) → ℕ × Option String → Prog (Option String)
continue_voting loop (votes, none) = loop votes
continue_voting loop (votes, some decision) = ret (some decision)

-- `while (decision == "")`
unfoldable pub voting : ℕ → Sender → ℕ → Prog (Option String)
unfolding receive_vote continue_voting termination_protocol
voting zero s votes = ret none
voting (suc fuel) s votes = do
  p_request ← perform (wait s.host_config.timeout)
  elim p_request [
    | some r ↦ receive_vote s votes r >>= continue_voting (voting fuel s)
    | none ↦ do decision ← termination_protocol s; ret (some decision)
  ]

unfoldable pub announce : Sender → Option String → Prog (Option String)
unfolding send_to_participants
announce s none = ret none
announce s (some decision) = do
  watch "decided"
  send_to_participants s decision []
  watch "decision-sent"
  ret (some decision)

-- PaperCoordinator::handleTransaction
unfoldable pub coordinator : ℕ → Sender → Prog (Option String)
unfolding send_to_participants voting announce
coordinator fuel s = do
  watch "start-coordinator"
  send_to_participants s "VOTEREQ" (config_to_string s.config)
  watch "sent-vote-reqs"
  perform set_timeout_start
  decision ← voting fuel s 0
  announce s decision

-- The decision in a participant's execution phase.
unfoldable pub execution : Sender → Option RequestType → Prog String
unfolding termination_protocol
execution s none = termination_protocol s
execution s (some r) = do
  watch "received-decision"
  elim r [ RequestType.commit ↦ ret "COMMIT" | RequestType.abort ↦ ret "ABORT" | _ ↦ crash ]

-- After the decision is logged: a COMMIT is handed to the worker.
unfoldable pub finish_decision : Sender → String → Prog String
finish_decision s decision =
    if decision == "COMMIT"
    then (do perform (work_commit s.hostname); watch "committed"; ret decision)
    else ret decision

unfoldable pub apply_decision : Sender → String → Prog String
unfolding finish_decision
apply_decision s decision = do
  _ ← perform (log_write decision (log_of s s.hostname))
  finish_decision s decision

unfoldable pub refuse : Sender → Prog String
unfolding send_to_coordinator
refuse s = do send_to_coordinator s "ABORT"; ret "ABORT"

-- From the answer to the own LOG_ONCE on.
unfoldable pub voted : Sender → String → Prog String
unfolding send_to_coordinator execution apply_decision refuse
voted s resp =
    if resp == "VOTEYES"
    then (do
      watch "responding-yes"
      send_to_coordinator s "VOTEYES"
      watch "sent-yes"
      perform set_timeout_start
      commit_request ← perform (wait s.host_config.timeout)
      decision ← execution s commit_request
      apply_decision s decision)
    else refuse s

-- PaperParticipant::handleTransaction
unfoldable pub participant : Sender → Prog String
unfolding voted refuse
participant s = do
  watch "start-participant"
  ok ← perform (vote_request (config_to_string s.config))
  if not ok
      then refuse s
      else do resp ← perform (log_once "VOTEYES" (log_of s s.hostname)); voted s resp
