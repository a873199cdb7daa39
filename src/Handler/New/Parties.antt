-- ===== src/Handler/New/Parties.antt =====
-- Whole handlers of the new version, each run alone: a replicator, a participant that hears nothing,
-- and a coordinator.
use cornus.Base.{
  ℕ, zero, suc, ◌+◌, ◌<◌, String, true, ◌≡◌, refl, some, List, [], ◌∷◌, ◌++◌, ◌==◌, if◌then◌else◌,
  inl, inr, arith, append-nil, length, ◌∙◌, Bool-cases, eqb,
}
use cornus.Config.Transaction.{config_to_string}
use cornus.Dbms.Manager.{LogManager}
use cornus.Dbms.Calls.{Sets}
use cornus.Handler.Prog.{RequestType, Packet, ret}
use cornus.Handler.Sender.{
  Sender, send_to_participants, send_to_coordinator, send_to_replicators, send_group,
}
use cornus.Handler.Paper.{receive_vote, continue_voting}
use cornus.Handler.New.{
  new_termination_protocol, log_final, replicator, new_participant, new_execution, new_finish,
  new_voting, new_coordinator, replicate,
}
use cornus.Handler.Poll.{polled, decided, polled-last, polled-more, polled-abort, polled-none}
use cornus.Handler.Alone.{Node, alone, alone-bind, alone-send_group, packets}
use cornus.Handler.New.Outcomes.{
  final_overrides, own_decision, log_final-Sets, new_termination_protocol-Sets,
}

module _ (s : Sender) (n : Node) where
  -- A replicator that receives nothing in time leaves COMMIT in the log of its own node and changes no
  -- other transaction log, that of a coordinator on another node included. It sends OVERRIDECOMMIT to all participants
  -- exactly when its own log held ABORT.
  pub replicator-Sets :
      let silent = record n { mail = [] } in
      (m' : LogManager) × (alone (replicator s) silent ≡ (
        some "",
        record silent { dbms = m'; sent = n.sent ++ final_overrides s silent "COMMIT" },
      ))
      × Sets n.dbms m' s.config.txid s.hostname "COMMIT"
  unfolding replicator alone
  replicator-Sets =
      let silent = record n { mail = [] } in
      let (m', f, sets) =
        log_final-Sets s silent "COMMIT" (inl refl) s.config.txid s.config.coordinator in
      (
        m',
        alone-bind (log_final s "COMMIT" s.config.txid s.config.coordinator) _ silent ∙ rw f refl,
        sets,
      )

  finish-alone :
      (d : String)
      → alone (new_finish s d) n
        ≡ (some d, record n { work = if d == "COMMIT" then n.work ++ s.hostname ∷ [] else n.work })
  unfolding new_finish alone
  finish-alone d = elim (Bool-cases (d == "COMMIT")) [ inl q ↦ rw q refl | inr q ↦ rw q refl ]

module _ (s : Sender) (n : Node) where
  -- A participant that votes yes and then receives nothing in time decides by the log of its own node:
  -- it returns COMMIT and calls its worker when that holds COMMIT, and otherwise returns ABORT and
  -- leaves ABORT there. It changes no other transaction log.
  pub new_participant-silent :
      let d = own_decision s n in
      (n' : Node) × (alone (new_participant s) (record n { mail = []; accepts = true })
        ≡ (some d, n'))
      × (n'.work ≡ (if d == "COMMIT" then n.work ++ s.hostname ∷ [] else n.work))
      × Sets n.dbms n'.dbms s.config.txid s.hostname d
  unfolding new_participant alone send_to_coordinator new_execution
  new_participant-silent =
      let silent =
        (alone (send_to_coordinator s "VOTEYES") (record n { mail = []; accepts = true })).1 in
      let (m', f, sets) = new_termination_protocol-Sets s silent in
      let finished = finish-alone s (record silent { dbms = m' }) (own_decision s n) in
      let work' = if own_decision s n == "COMMIT" then n.work ++ s.hostname ∷ [] else n.work in
      (
        record silent { dbms = m'; work = work' },
        alone-bind (new_termination_protocol s) (new_finish s) silent ∙ rw f finished,
        refl,
        sets,
      )

module _ (s : Sender) (n : Node) where
  -- What the votes among the messages decide; the new version aborts without a decision.
  abbrev pub new_decision : ℕ → List RequestType → String
  new_decision votes mail = decided "ABORT" (polled (length s.config.participants) votes mail)

  new_voting-decides :
      (fuel votes : ℕ) (mail : List RequestType)
      → length mail < fuel
      → (rest : List RequestType) × (alone (new_voting fuel s votes) (record n { mail = mail })
          ≡ (some (some (new_decision votes mail)), record n { mail = rest }))
  unfolding new_voting alone receive_vote continue_voting
  new_voting-decides zero votes mail h = absurd (omega arith)
  new_voting-decides (suc fuel) votes [] h =
      ([], rw (polled-none (length s.config.participants) votes) refl)
  new_voting-decides (suc fuel) votes (RequestType.vote_yes ∷ rest) h =
      let needed = length s.config.participants in
      elim (Bool-cases (eqb (votes + 1) needed)) [
        | inl q ↦ (rest, rw (q, polled-last needed votes rest q) refl)
        | inr q ↦
            let (left, e) = new_voting-decides fuel (votes + 1) rest (omega arith) in
            (left, rw (q, polled-more needed votes rest q) e)
      ]
  new_voting-decides (suc fuel) votes (RequestType.abort ∷ rest) h =
      (rest, rw (polled-abort (length s.config.participants) votes rest) refl)
  new_voting-decides (suc fuel) votes (RequestType.transaction ∷ rest) h =
      new_voting-decides fuel votes rest (omega arith)
  new_voting-decides (suc fuel) votes (RequestType.vote_req ∷ rest) h =
      new_voting-decides fuel votes rest (omega arith)
  new_voting-decides (suc fuel) votes (RequestType.will_commit ∷ rest) h =
      new_voting-decides fuel votes rest (omega arith)
  new_voting-decides (suc fuel) votes (RequestType.decision_completed ∷ rest) h =
      new_voting-decides fuel votes rest (omega arith)
  new_voting-decides (suc fuel) votes (RequestType.commit ∷ rest) h =
      new_voting-decides fuel votes rest (omega arith)

module _ (s : Sender) (n : Node) where
  abbrev pub will_commit : String → List Packet
  will_commit d =
      if d == "COMMIT"
      then packets s "WILLCOMMIT" (config_to_string s.config) s.host_config.replicators
      else []

  replicate-alone :
      (d : String) (n' : Node)
      → alone (replicate s (some d)) n'
        ≡ (some (some d), record n' { sent = n'.sent ++ will_commit d })
  unfolding replicate send_to_replicators alone
  replicate-alone d n' = elim (Bool-cases (d == "COMMIT")) [
    | inl q ↦ rw q (
        alone-bind (send_group s "WILLCOMMIT" (config_to_string s.config) s.host_config.replicators)
          (λ _. ret (some d)) n'
        ∙ rw alone-send_group refl)
    | inr q ↦ rw (q, append-nil) refl
  ]

  -- With fuel for the messages in its queue, the coordinator of the new version ends with the decision
  -- of a reference function of these messages: COMMIT if there is a participant and the votes before
  -- the first ABORT are as many as the participants, and otherwise ABORT. It has then sent VOTEREQ to
  -- all participants and, exactly when it ends with COMMIT, WILLCOMMIT to its replicators, and has not
  -- touched the DBMS.
  pub new_coordinator-decides :
      (fuel : ℕ)
      → length n.mail < fuel
      → let d = new_decision s n 0 n.mail in
        (rest : List RequestType) × (alone (new_coordinator fuel s) n ≡ (
          some (some d),
          record n {
            mail = rest;
            sent =
                (n.sent ++ packets s "VOTEREQ" (config_to_string s.config) s.config.participants)
                ++ will_commit d;
          },
        ))
  unfolding new_coordinator send_to_participants alone
  new_coordinator-decides fuel h =
      let c = config_to_string s.config in
      let asked = record n { sent = n.sent ++ packets s "VOTEREQ" c s.config.participants } in
      let (rest, e) = new_voting-decides s asked fuel 0 n.mail h in
      (
        rest,
        alone-bind (send_group s "VOTEREQ" c s.config.participants) _ n
            ∙ rw alone-send_group (
                alone-bind (new_voting fuel s 0) (replicate s) asked
                ∙ rw e
                    (replicate-alone (new_decision s n 0 n.mail) (record asked { mail = rest }))),
      )
