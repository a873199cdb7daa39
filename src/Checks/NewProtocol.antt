-- ===== src/Checks/NewProtocol.antt =====
-- One transaction of the new version with one participant and one replicator: it commits, the
-- participant gives up waiting, and the replicator logs COMMIT.
use cornus.Base.{
  false, String, ◌≡◌, ◌≢◌, refl, true, some, List, [], ◌∷◌, ◌++◌, All, ◌⊎◌, inl, inr, codes,
  Bytes-discrete, ℕ_discrete, arith,
}
use cornus.Base.Dict.{get, put, lookup, without}
use cornus.Base.Decimal.{to_string}
use cornus.Config.Transaction.{HostId, TransactionConfig}
use cornus.Config.Host.{HostConfig}
use cornus.Handler.Prog.{ret, crash}
use cornus.Dbms.History.{decision_at}
use cornus.Dbms.Manager.{log_once, log_write, log_read}
use cornus.Handler.New.{new_coordinator, new_participant, finish_transaction, replicator}
use cornus.Node.Handlers.{callback}
use cornus.Protocol.System.{In, deliver}
use cornus.NewProtocol.Waiting.{Waiting, start_waiting, waiting_here}
use cornus.NewProtocol.Nonblocking.{Solo, new_nonblocking}
use cornus.Dbms.Calls.{IsDecision}
use cornus.NewProtocol.System.{start, handlers_message, thread_prog, accepts, gives_up}
use cornus.NewProtocol.Agreement.{
  coordinator_commits, commit_is_unanimous, commit_or_late, new_no_crash,
}
use cornus.NewProtocol.Schedule.{
  Move, coordinator_moves, background_starts, background_moves, participant_moves, thread_moves,
  arrives, starts, Run, run,
}

abbrev node : HostId
node = codes "a:1"

abbrev other : HostId
other = codes "b:2"

abbrev third : HostId
third = codes "c:3"

abbrev one_participant : TransactionConfig
one_participant = record { coordinator = node; participants = other ∷ []; txid = 65536 }

abbrev any_host : HostId → HostConfig
any_host h = record {
  id = h;
  all_others = [];
  dbms_address = codes "d:9";
  host_num = 0;
  port = 1;
  host = h;
  timeout = 500;
  f = 1;
  replicators = third ∷ [];
}

abbrev deciding_moves : List Move
deciding_moves =
    coordinator_moves ∷ coordinator_moves ∷ coordinator_moves ∷ coordinator_moves
    ∷ participant_moves ∷ participant_moves ∷ participant_moves ∷ participant_moves ∷ arrives
    ∷ coordinator_moves ∷ coordinator_moves ∷ coordinator_moves ∷ coordinator_moves ∷ []

abbrev late_moves : List Move
late_moves =
    participant_moves ∷ participant_moves ∷ participant_moves ∷ participant_moves
    ∷ participant_moves ∷ starts ∷ thread_moves ∷ thread_moves ∷ thread_moves ∷ thread_moves
    ∷ thread_moves ∷ thread_moves ∷ background_starts ∷ background_moves ∷ background_moves
    ∷ background_moves ∷ background_moves ∷ background_moves ∷ []

abbrev late : Run one_participant any_host 3
late = run one_participant any_host 3 other (inl refl) (deciding_moves ++ late_moves)

apart : ¬ In node (other ∷ [])
unfolding codes
apart (inl e) = ground arith
apart (inr h) = h

-- The coordinator has returned COMMIT and its background thread has ended, the participant has returned
-- ABORT, and the replicator has logged COMMIT.
late_run :
    (late.last.coord ≡ ret (some "COMMIT"))
    × (late.last.background ≡ some (ret tt))
    × (late.last.part other ≡ ret "ABORT")
    × (decision_at late.last.shared.dbms 65536 third ≡ "COMMIT")
unfolding run start log_once log_write log_read new_coordinator new_participant replicator codes
    Bytes-discrete ℕ_discrete get put lookup without to_string deliver callback handlers_message
    thread_prog accepts gives_up finish_transaction decision_at
late_run = (refl, refl, refl, refl)

commit_is_unanimous_example : late.last.accepted other ≡ true
commit_is_unanimous_example =
    commit_is_unanimous one_participant any_host 3 late.last apart late.reach
      (coordinator_commits late_run.0) other (inl refl)

commit_or_late_example :
    (late.last.coord ≢ ret (some "ABORT"))
    × ((p : HostId) (d : String)
        → In p (other ∷ [])
        → late.last.part p ≡ ret d
        → (d ≡ "COMMIT") ⊎ ((d ≡ "ABORT") × (late.last.gave_up p ≡ true)))
commit_or_late_example =
    commit_or_late one_participant any_host 3 late.last apart late.reach
      (coordinator_commits late_run.0)

new_no_crash_example :
    (late.last.coord ≢ crash)
    × (late.last.background ≢ some crash)
    × ((p : HostId) → In p (other ∷ []) → late.last.part p ≢ crash)
    × All (λ t. t.prog ≢ crash) late.last.threads
new_no_crash_example = new_no_crash one_participant any_host 3 late.last apart late.reach

-- From the start, with nothing heard.
new_nonblocking_example :
    (t : Waiting) × (d : String) × Solo other (start_waiting one_participant any_host 3) t
    × (t.system.part other ≡ ret d)
    × (t.waits other ≡ false)
    × IsDecision d
new_nonblocking_example =
    new_nonblocking one_participant any_host 3 apart other (inl refl)
      (start_waiting one_participant any_host 3) waiting_here

-- The participant's node is the replicator too. The participant reads its log before the replicator
-- writes COMMIT there, and then writes ABORT.
abbrev own_replicator : HostId → HostConfig
own_replicator h = record (any_host h) { replicators = other ∷ [] }

abbrev racing_moves : List Move
racing_moves =
    participant_moves ∷ participant_moves ∷ participant_moves ∷ participant_moves ∷ starts
    ∷ thread_moves ∷ thread_moves ∷ thread_moves ∷ thread_moves ∷ thread_moves ∷ []

abbrev replicated : Run one_participant own_replicator 3
replicated = run one_participant own_replicator 3 other (inl refl) (deciding_moves ++ racing_moves)

abbrev overwritten : Run one_participant own_replicator 3
overwritten =
    run one_participant own_replicator 3 other (inl refl)
      (deciding_moves ++ racing_moves ++ participant_moves ∷ [])

lost_run :
    (replicated.last.coord ≡ ret (some "COMMIT"))
    × (decision_at replicated.last.shared.dbms 65536 other ≡ "COMMIT")
    × (decision_at overwritten.last.shared.dbms 65536 other ≡ "ABORT")
unfolding run start log_once log_write log_read new_coordinator new_participant replicator codes
    Bytes-discrete ℕ_discrete get put lookup without to_string deliver callback handlers_message
    thread_prog accepts gives_up decision_at
lost_run = (refl, refl, refl)
