-- ===== src/Checks/Handlers.antt =====
-- The handlers run alone on concrete queues.
use cornus.Base.{
  ◌≡◌, refl, some, true, Bytes, codes, List, [], ◌∷◌, ◌++◌, ◌==◌, if◌then◌else◌, arith, inl,
}
use cornus.Config.Transaction.{config_to_string}
use cornus.Dbms.Manager.{LogManager, new_log_manager}
use cornus.Dbms.History.{AllWords}
use cornus.Dbms.Steps.{decision_at-new}
use cornus.Dbms.Calls.{Sets}
use cornus.Handler.Prog.{RequestType}
use cornus.Handler.Sender.{Sender}
use cornus.Handler.Alone.{Node, alone, packets}
use cornus.Handler.Paper.{coordinator}
use cornus.Handler.Paper.Ends.{coordinator-decides, decision, Leaves}
use cornus.Handler.New.{replicator, new_participant, new_coordinator}
use cornus.Handler.New.Outcomes.{final_overrides, own_decision}
use cornus.Handler.New.Parties.{
  will_commit, replicator-Sets, new_participant-silent, new_decision, new_coordinator-decides,
}

abbrev here : Bytes
here = codes "a:1"

abbrev there : Bytes
there = codes "b:2"

abbrev sender : Sender
sender = record {
  config = record { coordinator = here; participants = there ∷ []; txid = 7 };
  hostname = there;
  host_config = record {
    id = there;
    all_others = here ∷ [];
    dbms_address = codes "d:9";
    host_num = 1;
    port = 2;
    host = codes "b";
    timeout = 500;
    f = 1;
    replicators = here ∷ [];
  };
}

abbrev node : Node
node = record {
  dbms = new_log_manager;
  mail = RequestType.vote_yes ∷ [];
  accepts = true;
  sent = [];
  work = [];
}

words : AllWords new_log_manager
words tx cl = inl (decision_at-new tx cl)

replicator-Sets_example :
    let silent = record node { mail = [] } in
    (m' : LogManager) × (alone (replicator sender) silent
      ≡ (some "", record silent { dbms = m'; sent = [] ++ final_overrides sender silent "COMMIT" }))
    × Sets new_log_manager m' 7 there "COMMIT"
replicator-Sets_example = replicator-Sets sender node

new_participant-silent_example :
    let d = own_decision sender node in
    (n' : Node) × (alone (new_participant sender) (record node { mail = []; accepts = true })
      ≡ (some d, n'))
    × (n'.work ≡ (if d == "COMMIT" then [] ++ there ∷ [] else []))
    × Sets new_log_manager n'.dbms 7 there d
new_participant-silent_example = new_participant-silent sender node

new_coordinator-decides_example :
    let d = new_decision sender node 0 (RequestType.vote_yes ∷ []) in
    (rest : List RequestType) × (alone (new_coordinator 2 sender) node ≡ (
      some (some d),
      record node {
        mail = rest;
        sent =
            ([] ++ packets sender "VOTEREQ" (config_to_string sender.config) (there ∷ []))
            ++ will_commit sender node d;
      },
    ))
new_coordinator-decides_example = new_coordinator-decides sender node 2 (omega arith)

coordinator-decides_example :
    let d = decision sender 0 (RequestType.vote_yes ∷ []) new_log_manager in
    (rest : List RequestType) × (dbms : LogManager) × (alone (coordinator 2 sender) node ≡ (
      some (some d),
      record node {
        mail = rest;
        dbms = dbms;
        sent =
            ([] ++ packets sender "VOTEREQ" (config_to_string sender.config) (there ∷ []))
            ++ packets sender d [] (there ∷ []);
      },
    ))
    × Leaves sender 0 (RequestType.vote_yes ∷ []) new_log_manager dbms
coordinator-decides_example = coordinator-decides sender node 2 (omega arith) words

-- One vote is enough for one participant, and none is not.
one_vote_commits : decision sender 0 (RequestType.vote_yes ∷ []) new_log_manager ≡ "COMMIT"
one_vote_commits = refl

no_vote_aborts : new_decision sender node 0 [] ≡ "ABORT"
no_vote_aborts = refl

-- Without messages the logs decide: nobody has voted yet.
silence_aborts : decision sender 0 [] new_log_manager ≡ "ABORT"
silence_aborts = rw (decision_at-new 7 there) refl
