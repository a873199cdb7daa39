-- ===== src/NewProtocol/Safe.antt =====
-- When a handler of the new version is safe to run: COMMIT is written, sent and worked on only when every
-- worker has accepted and the coordinator has decided so, and whatever is answered the rest stays so.
-- The coordinator decides where it records the event "decided"; from then on it stands at `fresh`, as its
-- background thread does, and so may not wait, nor vote since it is no participant.
pub mod Mono
use cornus.Base.{ℕ, suc, ◌≤◌, String, ◌≡◌, ◌≢◌, Bool, true, false, Option, none, some, ◌⊎◌}
use cornus.Config.Transaction.{HostId, TransactionConfig}
use cornus.Handler.Prog.{
  RequestType, vote_yes, abort, commit, decision_completed, Packet, Cmd, log_once, log_write,
  log_read, send, set_timeout_start, wait, vote_request, work_commit, record_event, Answer, Prog,
  ret, crash, act,
}
use cornus.Node.Handlers.{
  Kind, participant_kind, replicator_kind, committer_kind, MapName, handlers, replicators, Callback,
  on_new_request, on_old_request, callback,
}
use cornus.Protocol.System.{In}
use cornus.Protocol.World.{
  yes_vote, veto, AllYes, Turn, counted, fresh, ready, spent, aside, tally, log_at,
}
use cornus.NewProtocol.Progress.{Progress, Grows, Committed, Follow}
use cornus.Protocol.Mail.{one_vote}
use cornus.NewProtocol.System.{handlers_message}

module _ (config : TransactionConfig) where
  -- What a log may be set to: COMMIT only once it is decided.
  abbrev pub Sound : Progress → String → Type 0
  Sound w d = ((d ≡ "COMMIT") × Committed config w) ⊎ (d ≡ "ABORT")

  -- What the coordinator may decide.
  abbrev pub MayDecide : Progress → String → Type 0
  MayDecide w d = ((d ≡ "COMMIT") × AllYes config w.settled) ⊎ (d ≡ "ABORT")

  -- What it has decided.
  abbrev pub Decided : Progress → String → Type 0
  Decided w d =
      ((d ≡ "COMMIT") × Committed config w) ⊎ ((d ≡ "ABORT") × (w.decision ≡ some "ABORT"))

  -- What a message in a queue of `handlers` says.
  abbrev pub Told : Progress → HostId → RequestType → Type 0
  Told w h RequestType.abort = (h ≡ config.coordinator) ⊎ (w.decision ≡ some "ABORT")
  Told w h RequestType.commit = Committed config w
  Told w h RequestType.vote_yes = h ≡ config.coordinator
  Told w h _ = ⊥

  abbrev pub Arriving : Progress → HostId → RequestType → MapName → Type 0
  Arriving w h r handlers = Told w h r
  Arriving w h r replicators = r ≡ decision_completed
  Arriving w h r MapName.committers = ⊥

  -- What a message under way says, by the callback that it reaches.
  abbrev pub Conveys : Progress → HostId → Option Callback → Type 0
  Conveys w h none = Unit
  Conveys w h (some (on_old_request r m)) = Arriving w h r m
  Conveys w h (some (on_new_request replicator_kind r m)) = Committed config w
  Conveys w h (some (on_new_request committer_kind r m)) = Committed config w
  Conveys w h (some (on_new_request _ r m)) = Unit

  abbrev pub MaySend : Progress → Turn → Packet → (Turn → Type 0) → Type 0
  MaySend w t p K =
      (Conveys w p.to (callback p.endpoint)
        × (one_vote (handlers_message (callback p.endpoint)) ≡ 0)
        × K t)
      ⊎ ((callback p.endpoint ≡ some (on_old_request vote_yes handlers))
          × (p.to ≡ config.coordinator)
          × (t ≡ ready)
          × K spent)

  module _ (me : HostId) where
    -- The effect is allowed, and whatever may be answered, the rest is safe.
    abbrev pub Permit : Progress → Turn → (c : Cmd) → Follow c → Type 0
    Permit w t (log_once d a) K = ⊥
    Permit w t (log_write d a) K =
        (a ≡ log_at config me)
        × Sound w d
        × ((w' : Progress) → Grows w w' → (r : String) → K w' t r)
    Permit w t (log_read a) K =
        (a ≡ log_at config me)
        × ((w' : Progress)
            → Grows w w'
            → (r : String) → (r ≡ "COMMIT" → Committed config w')
            → K w' t r)
    Permit w t (send p) K = MaySend w t p (λ t'. (w' : Progress) → Grows w w' → K w' t' tt)
    Permit w t set_timeout_start K = (w' : Progress) → Grows w w' → K w' t tt
    Permit w t (wait n) K =
        (t ≢ fresh)
        × ((w' : Progress) → Grows w w' → (t ≡ spent → w'.gave_up me ≡ true) → K w' t none)
        × ((w' : Progress) → Grows w w' → Told w' me abort → K w' t (some abort))
        × ((w' : Progress) → Grows w w' → Committed config w' → K w' t (some commit))
        × ((w' : Progress)
            → Grows w w'
            → (n : ℕ) → t ≡ counted n
            → suc n ≤ tally w'.settled config.participants
            → K w' (counted (suc n)) (some vote_yes))
        × ((w' : Progress) → Grows w w' → t ≡ aside → K w' t (some decision_completed))
    Permit w t (vote_request c) K =
        In me config.participants
        × (t ≡ fresh)
        × ((w' : Progress) → Grows w w' → w'.settled.verdict me ≡ yes_vote → K w' ready true)
        × ((w' : Progress) → Grows w w' → w'.settled.verdict me ≡ veto → K w' spent false)
    Permit w t (work_commit h) K = Committed config w × ((w' : Progress) → Grows w w' → K w' t tt)
    Permit w t (record_event e) K =
        ((w' : Progress) → Grows w w' → K w' t tt)
        ⊎ ((n : ℕ) × (d : String) × (t ≡ counted n)
            × MayDecide w d
            × ((w' : Progress) → Grows w w' → w'.decision ≡ some d → K w' fresh tt))

    module _ {A : Type 0} (Post : Progress → A → Type 0) where
      abbrev pub Safe : Progress → Turn → Prog A → Type 0
      Safe w t (ret a) = Post w a
      Safe w t crash = ⊥
      Safe w t (act c k) = Permit w t c (λ w' t' r. Safe w' t' (k r))

      -- Safe now and whatever is settled meanwhile.
      abbrev pub SafeFrom : Progress → Turn → Prog A → Type 0
      SafeFrom w t m = (w' : Progress) → Grows w w' → Safe w' t m
