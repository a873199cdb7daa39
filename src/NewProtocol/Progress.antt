-- ===== src/NewProtocol/Progress.antt =====
-- What has been settled in one transaction of the new version: which workers have accepted or refused,
-- which votes are sent, who has given up waiting, and the coordinator's decision.
use cornus.Base.{String, ◌≡◌, Bool, true, Option, none, some, arith}
use cornus.Config.Transaction.{HostId, TransactionConfig}
use cornus.Handler.Prog.{Cmd, Answer}
use cornus.Protocol.System.{update}
use cornus.Protocol.World.{World, Later, AllYes, Turn}
use cornus.Protocol.World.Mono.{Later-refl, Later-trans, AllYes-mono}

pub record Progress : Type 0 where
  -- A verdict is `yes_vote` once the worker has accepted, and `veto` once it has refused.
  pub settled : World
  -- The participant's wait has timed out.
  pub gave_up : HostId → Bool
  pub decision : Option String

-- What is settled stays.
pub record Grows (v w : Progress) : Type 0 where
  pub settled_grows : Later v.settled w.settled
  pub gave_up_stays : (p : HostId) → v.gave_up p ≡ true → w.gave_up p ≡ true
  pub decision_stays : (d : String) → v.decision ≡ some d → w.decision ≡ some d

pub Grows-refl : (w : Progress) → Grows w w
Grows-refl w = record {
  settled_grows = Later-refl w.settled;
  gave_up_stays = λ p h. h;
  decision_stays = λ d h. h;
}

pub Grows-trans : {u v w : Progress} → Grows u v → Grows v w → Grows u w
Grows-trans a b = record {
  settled_grows = Later-trans a.settled_grows b.settled_grows;
  gave_up_stays = λ p h. b.gave_up_stays p (a.gave_up_stays p h);
  decision_stays = λ d h. b.decision_stays d (a.decision_stays d h);
}

-- The votes change as `l` says, and nothing else.
pub settled-Grows :
    {w : Progress} {x : World} → Later w.settled x → Grows w (record w { settled = x })
settled-Grows l = record { settled_grows = l; gave_up_stays = λ p h. h; decision_stays = λ d h. h }

pub decided-Grows :
    {w : Progress} {d : String} → w.decision ≡ none → Grows w (record w { decision = some d })
decided-Grows {w} e = record {
  settled_grows = Later-refl w.settled;
  gave_up_stays = λ p h. h;
  decision_stays = λ x h. absurd (cc);
}

unfoldable pub give_up : Progress → HostId → Progress
give_up w p = record w { gave_up = update w.gave_up p true }

pub give_up-Grows : (w : Progress) (p : HostId) → Grows w (give_up w p)
unfolding give_up
give_up-Grows w p = record {
  settled_grows = Later-refl w.settled;
  gave_up_stays = λ q h. ground arith;
  decision_stays = λ d h. h;
}

-- A condition on what follows: a world, what the handler may still do, and the answer.
abbrev pub Follow : Cmd → Type 1
Follow c = Progress → Turn → Answer c → Type 0

module _ (config : TransactionConfig) where
  -- Every worker has accepted and the coordinator has decided COMMIT.
  abbrev pub Committed : Progress → Type 0
  Committed w = AllYes config w.settled × (w.decision ≡ some "COMMIT")

  pub Committed-mono : {v w : Progress} → Grows v w → Committed v → Committed w
  Committed-mono l (y, d) = (AllYes-mono config l.settled_grows y, l.decision_stays "COMMIT" d)
