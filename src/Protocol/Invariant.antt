-- ===== src/Protocol/Invariant.antt =====
-- The invariant of one transaction: what is settled, and how the state of every node, log, queue and
-- message agrees with it.
pub mod Settle
pub mod Seats
pub mod Messages
pub mod Coordinator
pub mod Participant
use cornus.Base.{
  ℕ, ◌≤◌, ◌+◌, String, ◌≡◌, ◌≢◌, Bool, true, false, Option, none, some, List, [], ◌∷◌, All, ◌⊎◌,
}
use cornus.Config.Transaction.{HostId, TransactionConfig}
use cornus.Dbms.History.{decision_at}
use cornus.Handler.Prog.{RequestType, vote_yes, Packet}
use cornus.Protocol.System.{Shared, System, In, request_type}
use cornus.Protocol.World.{
  World, undecided, yes_vote, veto, Turn, counted, fresh, ready, spent, tally, AllYes, SomeVeto,
  Legit, Safe,
}
use cornus.Protocol.Handlers.{CoordPost}
use cornus.Protocol.Mail.{queued_votes, net_votes}

-- How a participant stands: its turn, its vote and what its transaction log holds.
pub data Seat (config : TransactionConfig) (w : World) (p : HostId) (t : Turn) (v : String)
    : Type 0 where
  waiting :
      t ≡ fresh → w.verdict p ≡ undecided → w.sent p ≡ false → v ≡ "WORKING" → Seat config w p t v
  preempted : t ≡ fresh → w.verdict p ≡ veto → w.sent p ≡ false → v ≡ "ABORT" → Seat config w p t v
  out : t ≡ spent → w.verdict p ≡ veto → (v ≡ "WORKING") ⊎ (v ≡ "ABORT") → Seat config w p t v
  to_send :
      t ≡ ready → w.verdict p ≡ yes_vote → w.sent p ≡ false → v ≡ "VOTEYES" → Seat config w p t v
  voted :
      t ≡ spent → w.verdict p ≡ yes_vote → (v ≡ "VOTEYES") ⊎ Legit config w v → Seat config w p t v

module _ (config : TransactionConfig) where
  -- What a message tells its receiver.
  abbrev pub Tells : World → HostId → Option RequestType → Type 0
  Tells w h none = Unit
  Tells w h (some RequestType.abort) = SomeVeto config w
  Tells w h (some RequestType.commit) = AllYes config w × (h ≢ config.coordinator)
  Tells w h (some RequestType.vote_yes) = h ≡ config.coordinator
  Tells w h (some _) = ⊥

  abbrev pub PacketOk : World → Packet → Type 0
  PacketOk w p = Tells w p.to (request_type p.endpoint)

module _ (config : TransactionConfig) where
  pub record SharedOk (w : World) (turns : HostId → Turn) (votes : ℕ) (s : Shared) : Type 0 where
    pub seats :
        (p : HostId)
        → In p config.participants
        → Seat config w p (turns p) (decision_at s.dbms config.txid p)
    pub packets : All (PacketOk config w) s.net
    pub queues : (h : HostId) → All (λ r. Tells config w h (some r)) (s.inbox h)
    pub counts :
        votes + queued_votes (s.inbox config.coordinator) + net_votes request_type s.net
        ≤ tally w config.participants

  pub record Inv (fuel : ℕ) (s : System) : Type 0 where
    pub world : World
    pub turns : HostId → Turn
    pub votes : ℕ
    pub coord_safe :
        Safe config config.coordinator (CoordPost config fuel) world (counted votes) s.coord
    pub part_safe :
        (p : HostId)
        → In p config.participants
        → Safe config p (Legit config) world (turns p) (s.part p)
    pub shared_ok : SharedOk world turns votes s.shared
