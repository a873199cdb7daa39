-- ===== src/Handler/Poll.antt =====
-- How the messages that have arrived decide a vote: a reference for the loops of both coordinators.
use cornus.Base.{
  ℕ, suc, ◌+◌, String, ◌≡◌, Bool, true, false, ◌&&◌, Option, none, some, List, [], ◌∷◌, ltb, leb,
  eqb, if◌then◌else◌, arith,
}
use cornus.Handler.Prog.{RequestType}

-- The messages before the first ABORT.
abbrev pub before_abort : List RequestType → List RequestType
before_abort [] = []
before_abort (RequestType.abort ∷ rs) = []
before_abort (r ∷ rs) = r ∷ before_abort rs

abbrev pub votes_in : List RequestType → ℕ
votes_in [] = 0
votes_in (RequestType.vote_yes ∷ rs) = suc (votes_in rs)
votes_in (r ∷ rs) = votes_in rs

abbrev pub has_abort : List RequestType → Bool
has_abort [] = false
has_abort (RequestType.abort ∷ rs) = true
has_abort (r ∷ rs) = has_abort rs

-- After `votes` votes, of which fewer than `needed`: COMMIT if those before the first ABORT are enough,
-- else ABORT if there is one, and else nothing is decided.
abbrev pub polled : ℕ → ℕ → List RequestType → Option String
polled needed votes mail =
    if ltb votes needed && leb needed (votes + votes_in (before_abort mail))
    then some "COMMIT"
    else if has_abort mail
    then some "ABORT"
    else none

-- The decision, where `late` is decided without one.
abbrev pub decided : String → Option String → String
decided late none = late
decided late (some d) = d

module _ (needed votes : ℕ) (rest : List RequestType) where
  pub polled-last :
      eqb (votes + 1) needed ≡ true
      → polled needed votes (RequestType.vote_yes ∷ rest) ≡ some "COMMIT"
  polled-last h = ground arith

  pub polled-more :
      eqb (votes + 1) needed ≡ false
      → polled needed votes (RequestType.vote_yes ∷ rest) ≡ polled needed (votes + 1) rest
  polled-more h = ground arith

  pub polled-abort : polled needed votes (RequestType.abort ∷ rest) ≡ some "ABORT"
  polled-abort = ground arith

pub polled-none : (needed votes : ℕ) → polled needed votes [] ≡ none
polled-none needed votes = ground arith
