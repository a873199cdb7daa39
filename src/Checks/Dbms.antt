-- ===== src/Checks/Dbms.antt =====
-- The logs of the simulated DBMS on concrete requests.
use cornus.Base.{◌≡◌, refl, none, some, [], ◌∷◌, inl, Bytes, codes, Bytes-discrete, ℕ_discrete}
use cornus.Base.Dict.{get, put, lookup, without}
use cornus.Dbms.Manager.{new_log_manager, log_once, log_write}
use cornus.Dbms.Manager.Refines.{
  Request, once, write, read, target, serve, addressed, Refines, serve-Refines,
}
use cornus.Dbms.History.{run, decision_at, transaction_address, IsWord, run-IsWord, once_settles}
use cornus.Dbms.Steps.{decision_at-new}

abbrev client : Bytes
client = codes "b:2"

abbrev votes_yes : Request
votes_yes = once (transaction_address 7 client) "VOTEYES"

first_answer : (serve new_log_manager votes_yes).0 ≡ some "VOTEYES"
unfolding serve log_once codes Bytes-discrete ℕ_discrete get put lookup without
first_answer = refl

once_settles_example :
    let later =
      run (serve new_log_manager votes_yes).1 (read (transaction_address 8 client) ∷ []) in
    ((serve later (once (transaction_address 7 client) "ABORT")).0 ≡ some "VOTEYES")
    × ((serve later (read (transaction_address 7 client))).0 ≡ some "VOTEYES")
once_settles_example =
    once_settles 7 client new_log_manager "VOTEYES" first_answer
      (read (transaction_address 8 client) ∷ []) ((λ o. o), tt) "ABORT"

run-IsWord_example : IsWord (decision_at (run new_log_manager (votes_yes ∷ [])) 7 client)
run-IsWord_example =
    run-IsWord new_log_manager (votes_yes ∷ []) (λ tx cl. inl (decision_at-new tx cl)) 7 client

serve-Refines_example :
    Refines new_log_manager
      (target votes_yes)
      (addressed new_log_manager votes_yes)
      (serve new_log_manager votes_yes)
serve-Refines_example = serve-Refines new_log_manager votes_yes

-- LOG_WRITE of a text that is no decision throws; the log stays as it was.
bad_write : (serve new_log_manager (write (transaction_address 7 client) "MAYBE")).0 ≡ none
unfolding serve log_write codes Bytes-discrete ℕ_discrete get put lookup without
bad_write = refl
