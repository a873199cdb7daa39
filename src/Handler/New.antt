-- ===== src/Handler/New.antt =====
-- The new version: TransactionHandler2.hpp, Coordinator2.h, Participant2.h, Replicator.h and
-- Committer.h of Cornus/include/transactionHandlers/. The coordinator reads its votes as that of the
-- paper's version does, so `receive_vote` is the same; the fuel of `new_voting` bounds the messages.
pub mod Outcomes
pub mod Parties
use cornus.Base.{
  ℕ, zero, suc, ◌*◌, String, Bool, true, false, not, Option, none, some, Bytes, List, [], ◌∷◌, ◌==◌,
  ◌||◌, if◌then◌else◌,
}
use cornus.Config.Transaction.{HostId, config_to_string}
use cornus.Dbms.Manager.{LogAddress}
use cornus.Handler.Prog.{
  RequestType, commit, abort, decision_completed, Cmd, log_read, log_write, wait, set_timeout_start,
  vote_request, work_commit, Prog, ret, crash, ◌>>=◌, ◌>>◌, perform,
}
use cornus.Handler.Sender.{
  Sender, send_to_participants, send_to_replicators, send_to_coordinator, watch,
}
use cornus.Handler.Paper.{log_of, receive_vote, continue_voting}

-- The log of this node.
abbrev pub own_log : Sender → LogAddress
own_log s = log_of s s.hostname

-- What `terminationProtocol` does with the text of the log.
unfoldable pub settle_own : Sender → String → Prog String
settle_own s prev =
    if prev == "COMMIT" || prev == "ABORT"
    then ret prev
    else (do _ ← perform (log_write "ABORT" (own_log s)); ret "ABORT")

unfoldable pub new_termination_protocol : Sender → Prog String
unfolding settle_own
new_termination_protocol s = do prev ← perform (log_read (own_log s)); settle_own s prev

unfoldable pub override : Sender → String → Prog (Unit {0})
unfolding send_to_participants
override s prev =
    if prev == "ABORT"
    then send_to_participants s "OVERRIDECOMMIT" (config_to_string s.config)
    else ret tt

-- What `logFinal` does with the text of the log.
unfoldable pub replace_by : Sender → String → String → Prog (Unit {0})
unfolding override
replace_by s decision prev =
    if not (prev == decision)
    then (do _ ← perform (log_write decision (own_log s)); override s prev)
    else ret tt

-- The parameters `txid` and `host` are not used: the log is the one of this node.
unfoldable pub log_final : Sender → String → ℕ → HostId → Prog (Unit {0})
unfolding replace_by
log_final s decision txid host = do
  prev ← perform (log_read (own_log s))
  replace_by s decision prev

-- `while (decision == "")`
unfoldable pub new_voting : ℕ → Sender → ℕ → Prog (Option String)
unfolding receive_vote continue_voting
new_voting zero s votes = ret none
new_voting (suc fuel) s votes = do
  p_request ← perform (wait s.host_config.timeout)
  elim p_request [
    | some r ↦ receive_vote s votes r >>= continue_voting (new_voting fuel s)
    | none ↦ ret (some "ABORT")
  ]

unfoldable pub replicate : Sender → Option String → Prog (Option String)
unfolding send_to_replicators
replicate s none = ret none
replicate s (some decision) = do
  watch "decided"
  if decision == "COMMIT"
      then (do send_to_replicators s "WILLCOMMIT" (config_to_string s.config); ret (some decision))
      else ret (some decision)

-- NewCoordinator::handleTransaction
unfoldable pub new_coordinator : ℕ → Sender → Prog (Option String)
unfolding send_to_participants new_voting replicate
new_coordinator fuel s = do
  watch "start-coordinator"
  send_to_participants s "VOTEREQ" (config_to_string s.config)
  watch "sent-vote-reqs"
  perform set_timeout_start
  decision ← new_voting fuel s 0
  replicate s decision

unfoldable pub tell_decision : Sender → String → Prog (Unit {0})
unfolding send_to_participants
tell_decision s decision = do send_to_participants s decision []; watch "decision-sent"

-- NewCoordinator::finishTransaction
unfoldable pub finish_transaction : Sender → String → Prog (Unit {0})
unfolding log_final send_to_replicators tell_decision
finish_transaction s decision =
    if decision == "COMMIT"
    then (do
      log_final s decision s.config.txid s.hostname
      send_to_replicators s "DECISIONCOMPLETED" []
      tell_decision s decision)
    else tell_decision s decision

-- The decision in a participant's execution phase.
unfoldable pub new_execution : Sender → Option RequestType → Prog String
unfolding new_termination_protocol
new_execution s none = new_termination_protocol s
new_execution s (some r) = do
  watch "received-decision"
  elim r [ RequestType.commit ↦ ret "COMMIT" | RequestType.abort ↦ ret "ABORT" | _ ↦ crash ]

unfoldable pub new_finish : Sender → String → Prog String
new_finish s decision =
    if decision == "COMMIT"
    then (do perform (work_commit s.hostname); watch "committed"; ret decision)
    else ret decision

-- NewParticipant::handleTransaction
unfoldable pub new_participant : Sender → Prog String
unfolding send_to_coordinator new_execution new_finish
new_participant s = do
  watch "start-participant"
  ok ← perform (vote_request (config_to_string s.config))
  if not ok then (do send_to_coordinator s "ABORT"; ret "ABORT") else (do
    watch "responding-yes"
    send_to_coordinator s "VOTEYES"
    watch "sent-yes"
    perform set_timeout_start
    commit_request ← perform (wait (s.host_config.timeout * 10))
    decision ← new_execution s commit_request
    new_finish s decision)

-- A Replicator's test on what it waited for.
abbrev pub is_completed : Option RequestType → Bool
is_completed (some RequestType.decision_completed) = true
is_completed _ = false

-- Replicator::handleTransaction
unfoldable pub replicator : Sender → Prog String
unfolding log_final
replicator s = do
  watch "start-replicator"
  perform set_timeout_start
  completed ← perform (wait s.host_config.timeout)
  (if not (is_completed completed)
      then log_final s "COMMIT" s.config.txid s.config.coordinator
      else ret tt)
  watch "completed"
  ret ""

-- Committer::handleTransaction
unfoldable pub committer : Sender → Prog String
committer s = do perform (work_commit s.hostname); ret "COMMIT"
