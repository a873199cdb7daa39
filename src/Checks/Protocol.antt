-- ===== src/Checks/Protocol.antt =====
-- One transaction with one participant, run to its decision.
use cornus.Base.{
  String, false, ◌≡◌, ◌≢◌, refl, some, List, [], ◌∷◌, ◌++◌, ◌⊎◌, inl, inr, codes, Bytes-discrete,
  ℕ_discrete, arith,
}
use cornus.Base.Dict.{get, put, lookup, without}
use cornus.Base.Decimal.{to_string}
use cornus.Config.Transaction.{HostId, TransactionConfig}
use cornus.Config.Host.{HostConfig}
use cornus.Handler.Prog.{Cmd, Prog, ret, crash, act, work_commit}
use cornus.Dbms.Manager.{log_once, log_write}
use cornus.Handler.Paper.{coordinator, participant}
use cornus.Protocol.Durable.{decision_stays}
use cornus.Protocol.World.{log_at}
use cornus.Protocol.Effects.{happens}
use cornus.Dbms.History.{decision_at}
use cornus.Protocol.Waiting.{Waiting, start_waiting, waiting_here}
use cornus.Protocol.Nonblocking.{Solo, CoordinatorSolo, nonblocking}
use cornus.Dbms.Calls.{IsDecision, vote_accepted}
use cornus.Protocol.System.{
  In, Shared, Effect, update, participant_acts, start, request_type, deliver,
}
use cornus.Protocol.Agreement.{
  coordinator_decides, participant_decides, agreement, decision_logged, work_is_Prepared, no_crash,
  Prepared, Unprepared,
}
use cornus.Protocol.Schedule.{Move, coordinator_moves, participant_moves, arrives, Run, run}

abbrev node : HostId
node = codes "a:1"

abbrev other : HostId
other = codes "b:2"

abbrev one_participant : TransactionConfig
one_participant = record { coordinator = node; participants = other ∷ []; txid = 65536 }

abbrev any_host : HostId → HostConfig
any_host h = record {
  id = h;
  all_others = [];
  dbms_address = codes "d:9";
  host_num = 0;
  port = 1;
  host = h;
  timeout = 500;
  f = 0;
  replicators = [];
}

abbrev voting_moves : List Move
voting_moves =
    coordinator_moves ∷ coordinator_moves ∷ coordinator_moves ∷ coordinator_moves
    ∷ participant_moves ∷ participant_moves ∷ participant_moves ∷ participant_moves
    ∷ participant_moves ∷ arrives ∷ participant_moves ∷ participant_moves ∷ coordinator_moves
    ∷ coordinator_moves ∷ coordinator_moves ∷ coordinator_moves ∷ coordinator_moves ∷ arrives
    ∷ participant_moves ∷ participant_moves ∷ participant_moves ∷ []

abbrev logged : Run one_participant any_host 3
logged = run one_participant any_host 3 other (inl refl) voting_moves

abbrev finished : Run one_participant any_host 3
finished =
    run one_participant any_host 3 other (inl refl)
      (voting_moves ++ participant_moves ∷ participant_moves ∷ [])

apart : ¬ In node (other ∷ [])
unfolding codes
apart (inl e) = ground arith
apart (inr h) = h

coordinator_commits : finished.last.coord ≡ ret (some "COMMIT")
unfolding run start log_once log_write coordinator participant codes Bytes-discrete ℕ_discrete get
    put lookup without to_string request_type deliver
coordinator_commits = refl

participant_commits : finished.last.part other ≡ ret "COMMIT"
unfolding run start log_once log_write coordinator participant codes Bytes-discrete ℕ_discrete get
    put lookup without to_string request_type deliver
participant_commits = refl

agreement_example : ◌≡◌ {A = String} "COMMIT" "COMMIT"
agreement_example =
    agreement one_participant any_host 3 finished.last apart finished.reach "COMMIT" "COMMIT"
      (coordinator_decides coordinator_commits)
      (participant_decides other (inl refl) participant_commits)

decision_logged_example :
    ((◌≡◌ {A = String} "COMMIT" "COMMIT")
      × ((p : HostId) → In p (other ∷ []) → Prepared one_participant finished.last p))
    ⊎ ((◌≡◌ {A = String} "COMMIT" "ABORT")
        × ((p : HostId) × In p (other ∷ []) × Unprepared one_participant finished.last p))
decision_logged_example =
    decision_logged one_participant any_host 3 finished.last apart finished.reach "COMMIT"
      (coordinator_decides coordinator_commits)

-- The participant is about to hand the transaction to its worker.
next_work : (k : Unit {0} → Prog String) × (logged.last.part other ≡ act (work_commit other) k)
unfolding run start log_once log_write coordinator participant codes Bytes-discrete ℕ_discrete get
    put lookup without to_string request_type deliver
next_work = (_, refl)

work_is_Prepared_example : Prepared one_participant logged.last other
work_is_Prepared_example =
    work_is_Prepared one_participant any_host 3 logged.last apart logged.reach other other
      next_work.0 (inl refl) next_work.1 other (inl refl)

no_crash_example :
    (finished.last.coord ≢ crash)
    × ((p : HostId) → In p (other ∷ []) → finished.last.part p ≢ crash)
no_crash_example = no_crash one_participant any_host 3 finished.last apart finished.reach

-- From the start, with nothing heard.
nonblocking_example :
    let s = start_waiting one_participant any_host 3 in
    ((p : HostId)
      → In p (other ∷ [])
      → (t : Waiting) × (d : String) × Solo p s t
        × (t.system.part p ≡ ret d)
        × (t.part_waits p ≡ false)
        × IsDecision d)
    × ((t : Waiting) × (d : String) × CoordinatorSolo node s t
        × (t.system.coord ≡ ret (some d))
        × (t.coord_waits ≡ false)
        × IsDecision d)
nonblocking_example =
    nonblocking one_participant any_host 3 apart (omega arith)
      (start_waiting one_participant any_host 3) waiting_here

-- The coordinator hears nothing in time and writes ABORT to the log of the participant, which is about to
-- log its vote.
abbrev preempting_moves : List Move
preempting_moves =
    coordinator_moves ∷ coordinator_moves ∷ coordinator_moves ∷ coordinator_moves
    ∷ coordinator_moves ∷ coordinator_moves ∷ participant_moves ∷ participant_moves ∷ []

abbrev overtaken : Run one_participant any_host 3
overtaken = run one_participant any_host 3 other (inl refl) preempting_moves

abbrev voting_call : Cmd
voting_call = Cmd.log_once "VOTEYES" (log_at one_participant other)

next_vote :
    (k : String → Prog String) × (overtaken.last.part other ≡ act voting_call k)
    × (decision_at overtaken.last.shared.dbms 65536 other ≡ "ABORT")
unfolding run start log_once log_write coordinator participant codes Bytes-discrete ℕ_discrete get
    put lookup without to_string request_type deliver decision_at
next_vote = (_, refl, refl)

abbrev vote_happens :
    (a : String) × (s' : Shared) × Effect other overtaken.last.shared voting_call a s'
vote_happens =
    happens one_participant other overtaken.last.shared voting_call (other, refl, vote_accepted)

decision_stays_example :
    decision_at vote_happens.1.dbms 65536 other ≡ decision_at overtaken.last.shared.dbms 65536 other
decision_stays_example =
    decision_stays one_participant any_host 3 apart overtaken.last
      (record overtaken.last {
        shared = vote_happens.1;
        part = update overtaken.last.part other (next_vote.0 vote_happens.0);
      })
      overtaken.reach
      (participant_acts other voting_call next_vote.0 vote_happens.0 vote_happens.1 (inl refl)
        next_vote.1 vote_happens.2)
      other (inl refl) (inr next_vote.2)
