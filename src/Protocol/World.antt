-- ===== src/Protocol/World.antt =====
-- What has been settled about the votes, and when a handler is safe to run: whatever the others settle
-- meanwhile, each of its effects is allowed and its result is justified.
pub mod Mono
use cornus.Base.{
  ℕ, suc, ◌≤◌, ◌+◌, String, ◌≡◌, ◌≢◌, refl, Bool, true, false, Option, none, some, List, [], ◌∷◌,
  All, arith, ◌⊎◌, inl, inr, length, if◌then◌else◌,
}
use cornus.Config.Transaction.{HostId, TransactionConfig}
use cornus.Dbms.Manager.{LogAddress, LogType}
use cornus.Handler.Prog.{
  RequestType, vote_yes, abort, commit, Packet, Cmd, log_once, log_write, log_read, send,
  set_timeout_start, wait, vote_request, work_commit, record_event, Answer, Prog, ret, crash, act,
}
use cornus.Protocol.System.{In, request_type}

-- The vote of a participant: not settled, its log has taken VOTEYES, or it never will.
pub data Verdict : Type 0 where
  undecided yes_vote veto : Verdict

pub record World : Type 0 where
  pub verdict : HostId → Verdict
  -- the participant has sent its VOTEYES
  pub sent : HostId → Bool
  pub honest : (p : HostId) → sent p ≡ true → verdict p ≡ yes_vote

-- What is settled stays.
pub record Later (v w : World) : Type 0 where
  pub yes_stays : (p : HostId) → v.verdict p ≡ yes_vote → w.verdict p ≡ yes_vote
  pub veto_stays : (p : HostId) → v.verdict p ≡ veto → w.verdict p ≡ veto
  pub sent_stays : (p : HostId) → v.sent p ≡ true → w.sent p ≡ true

-- What a handler may still do: the coordinator has counted some votes; a participant has its vote,
-- has to send it, or has nothing left; another thread stands aside of both.
pub data Turn : Type 0 where
  counted : ℕ → Turn
  fresh ready spent aside : Turn

abbrev pub one_if : Bool → ℕ
one_if true = 1
one_if false = 0

unfoldable pub tally : World → List HostId → ℕ
tally w [] = 0
tally w (p ∷ ps) = one_if (w.sent p) + tally w ps

module _ (config : TransactionConfig) where
  abbrev pub AllYes : World → Type 0
  AllYes w = All (λ p. w.verdict p ≡ yes_vote) config.participants

  abbrev pub SomeVeto : World → Type 0
  SomeVeto w = (p : HostId) × In p config.participants × (w.verdict p ≡ veto)

  -- COMMIT needs every vote, ABORT a veto.
  abbrev pub Legit : World → String → Type 0
  Legit w d = ((d ≡ "COMMIT") × AllYes w) ⊎ ((d ≡ "ABORT") × SomeVeto w)

  -- What LOG_ONCE("ABORT") may answer on the log of `h`.
  abbrev pub Reply : World → HostId → String → Type 0
  Reply w h r = Legit w r ⊎ ((r ≡ "VOTEYES") × (w.verdict h ≡ yes_vote))

  abbrev pub log_at : HostId → LogAddress
  log_at h = record { tx_id = config.txid; client_id = h; type = LogType.transaction_type }

  -- A condition on what follows: a world, what the handler may still do, and the answer.
  abbrev pub Follow : Cmd → Type 1
  Follow c = World → Turn → Answer c → Type 0

  -- A message that the receiver may rely on.
  abbrev pub MaySend :
      HostId → World → Turn → Packet → (Turn → Type 0) → Option RequestType → Type 0
  MaySend me w t p K none = K t
  MaySend me w t p K (some RequestType.abort) = SomeVeto w × K t
  MaySend me w t p K (some RequestType.commit) = AllYes w × (p.to ≢ config.coordinator) × K t
  MaySend me w t p K (some RequestType.vote_yes) =
      (p.to ≡ config.coordinator) × (p.sender ≡ me) × (t ≡ ready) × K spent
  MaySend me w t p K (some _) = ⊥

  module _ (me : HostId) where
    -- The effect is allowed, and whatever may be answered, the rest is safe.
    abbrev pub Permit : World → Turn → (c : Cmd) → Follow c → Type 0
    Permit w t (log_once d a) K =
        ((h : HostId) × (a ≡ log_at h)
          × In h config.participants
          × (d ≡ "ABORT")
          × ((w' : World) → Later w w' → (r : String) → Reply w' h r → K w' t r))
        ⊎ ((a ≡ log_at me)
            × (d ≡ "VOTEYES")
            × (t ≡ fresh)
            × ((w' : World) → Later w w' → w'.verdict me ≡ yes_vote → K w' ready "VOTEYES")
            × ((w' : World) → Later w w' → SomeVeto w' → K w' spent "ABORT"))
    Permit w t (log_write d a) K =
        (a ≡ log_at me)
        × In me config.participants
        × (t ≡ spent)
        × (w.verdict me ≡ yes_vote)
        × Legit w d
        × ((w' : World) → Later w w' → (r : String) → K w' t r)
    Permit w t (log_read a) K = ⊥
    Permit w t (send p) K =
        MaySend me w t p (λ t'. (w' : World) → Later w w' → K w' t' tt) (request_type p.endpoint)
    Permit w t set_timeout_start K = (w' : World) → Later w w' → K w' t tt
    Permit w t (wait n) K =
        ((w' : World) → Later w w' → K w' t none)
        × ((w' : World) → Later w w' → SomeVeto w' → K w' t (some abort))
        × ((w' : World) → Later w w' → AllYes w' → me ≢ config.coordinator → K w' t (some commit))
        × ((w' : World)
            → Later w w'
            → (n : ℕ) → t ≡ counted n
            → suc n ≤ tally w' config.participants
            → K w' (counted (suc n)) (some vote_yes))
    Permit w t (vote_request c) K =
        (t ≡ fresh)
        × ((w' : World) → Later w w' → K w' fresh true)
        × ((w' : World) → Later w w' → SomeVeto w' → K w' spent false)
    Permit w t (work_commit h) K = AllYes w × ((w' : World) → Later w w' → K w' t tt)
    Permit w t (record_event e) K = (w' : World) → Later w w' → K w' t tt

    module _ {A : Type 0} (Post : World → A → Type 0) where
      abbrev pub Safe : World → Turn → Prog A → Type 0
      Safe w t (ret a) = Post w a
      Safe w t crash = ⊥
      Safe w t (act c k) = Permit w t c (λ w' t' r. Safe w' t' (k r))
