-- ===== src/Handler/Paper/Ends.antt =====
-- The coordinator of the paper's version ends, run alone with the messages that have arrived.
use cornus.Base.{
  ℕ, zero, suc, ◌+◌, ◌<◌, String, ◌≡◌, refl, some, List, [], ◌∷◌, ◌++◌, ◌⊎◌, inl, inr, arith,
  length, ◌∙◌, Bool-cases, eqb, none,
}
use cornus.Config.Transaction.{config_to_string}
use cornus.Dbms.Manager.{LogManager}
use cornus.Dbms.History.{AllWords}
use cornus.Handler.Prog.{RequestType, ret}
use cornus.Handler.Sender.{Sender, send_to_participants, send_group}
use cornus.Handler.Paper.{
  termination_loop, termination_protocol, voting, receive_vote, continue_voting, announce,
  coordinator,
}
use cornus.Handler.Poll.{polled, decided, polled-last, polled-more, polled-abort, polled-none}
use cornus.Handler.Alone.{Node, alone, alone-bind, alone-send_group, packets}
use cornus.Handler.Paper.Scan.{scan_logs, Keeps, Keeps-refl, loop-Scans}

module _ (s : Sender) where
  -- The votes among the messages decide, and without a decision the words in the logs.
  abbrev pub decision : ℕ → List RequestType → LogManager → String
  decision votes mail m =
      decided (scan_logs m s.config.txid s.config.participants)
        (polled (length s.config.participants) votes mail)

  -- The logs that a decision leaves: without one among the messages each may have turned from WORKING to
  -- ABORT.
  abbrev pub Leaves : ℕ → List RequestType → LogManager → LogManager → Type 0
  Leaves votes mail m m' =
      Keeps m m' × ((polled (length s.config.participants) votes mail ≡ none) ⊎ (m' ≡ m))

  voting-decides :
      (fuel votes : ℕ) (n : Node) (mail : List RequestType)
      → length mail < fuel
      → AllWords n.dbms
      → (rest : List RequestType) × (dbms : LogManager) × (alone
            (voting fuel s votes)
            (record n { mail = mail })
          ≡ (some (some (decision votes mail n.dbms)), record n { mail = rest; dbms = dbms }))
        × Leaves votes mail n.dbms dbms
  unfolding voting alone receive_vote continue_voting termination_protocol
  voting-decides zero votes n mail h w = absurd (omega arith)
  voting-decides (suc fuel) votes n [] h w =
      let silent = record n { mail = [] } in
      let (m', e, keeps) = loop-Scans s s.config.participants silent w in
      let quiet = polled-none (length s.config.participants) votes in
      (
        [],
        m',
        alone-bind (termination_loop s s.config.participants) (λ d. ret (some d)) silent
            ∙ rw (e, quiet) refl,
        (keeps, inl quiet),
      )
  voting-decides (suc fuel) votes n (RequestType.vote_yes ∷ rest) h w =
      let needed = length s.config.participants in
      elim (Bool-cases (eqb (votes + 1) needed)) [
        | inl q ↦ (
          rest,
          n.dbms,
          rw (q, polled-last needed votes rest q) refl,
          (Keeps-refl n.dbms, inr refl),
        )
        | inr q ↦
            let (left, m', e, l) = voting-decides fuel (votes + 1) n rest (omega arith) w in
            let more = polled-more needed votes rest q in (left, m', rw (q, more) e, rw more l)
      ]
  voting-decides (suc fuel) votes n (RequestType.abort ∷ rest) h w = (
    rest,
    n.dbms,
    rw (polled-abort (length s.config.participants) votes rest) refl,
    (Keeps-refl n.dbms, inr refl),
  )
  voting-decides (suc fuel) votes n (RequestType.transaction ∷ rest) h w =
      voting-decides fuel votes n rest (omega arith) w
  voting-decides (suc fuel) votes n (RequestType.vote_req ∷ rest) h w =
      voting-decides fuel votes n rest (omega arith) w
  voting-decides (suc fuel) votes n (RequestType.will_commit ∷ rest) h w =
      voting-decides fuel votes n rest (omega arith) w
  voting-decides (suc fuel) votes n (RequestType.decision_completed ∷ rest) h w =
      voting-decides fuel votes n rest (omega arith) w
  voting-decides (suc fuel) votes n (RequestType.commit ∷ rest) h w =
      voting-decides fuel votes n rest (omega arith) w

module _ (s : Sender) (n : Node) where
  -- With fuel for the messages in its queue, and one of the four words in every transaction log, the
  -- coordinator of the paper's version ends with the decision of a reference function of the messages
  -- and the logs: COMMIT if there is a participant and the votes before the first ABORT are as many as
  -- the participants; else ABORT if there is an ABORT; else what the first of the participants' logs
  -- decides that does not hold VOTEYES, COMMIT if it holds that and ABORT otherwise; and COMMIT if
  -- there is no such log. It has then sent VOTEREQ and afterwards its decision to all participants. If
  -- the messages decide, the DBMS is as it was; else each transaction log is as it was, or has turned
  -- from WORKING to ABORT.
  pub coordinator-decides :
      (fuel : ℕ)
      → length n.mail < fuel
      → AllWords n.dbms
      → let d = decision s 0 n.mail n.dbms in
        (rest : List RequestType) × (dbms : LogManager) × (alone (coordinator fuel s) n ≡ (
          some (some d),
          record n {
            mail = rest;
            dbms = dbms;
            sent =
                (n.sent ++ packets s "VOTEREQ" (config_to_string s.config) s.config.participants)
                ++ packets s d [] s.config.participants;
          },
        ))
        × Leaves s 0 n.mail n.dbms dbms
  unfolding coordinator send_to_participants alone announce
  coordinator-decides fuel h w =
      let c = config_to_string s.config in
      let d = decision s 0 n.mail n.dbms in
      let asked = record n { sent = n.sent ++ packets s "VOTEREQ" c s.config.participants } in
      let (rest, m', e, leaves) = voting-decides s fuel 0 asked n.mail h w in
      let decided = record asked { mail = rest; dbms = m' } in
      (
        rest,
        m',
        alone-bind (send_group s "VOTEREQ" c s.config.participants) _ n
            ∙ rw alone-send_group (
                alone-bind (voting fuel s 0) (announce s) asked
                ∙ rw e (
                    alone-bind (send_group s d [] s.config.participants) _ decided
                    ∙ rw alone-send_group refl)),
        leaves,
      )
