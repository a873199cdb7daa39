-- ===== src/NewProtocol/Moves.antt =====
-- The background thread, the replicators, the committers and the network keep the invariant.
use cornus.Base.{String, ◌≡◌, subst, some, List, ◌∷◌, ◌++◌, All, All-middle}
use cornus.Config.Transaction.{TransactionConfig}
use cornus.Handler.Prog.{Packet, Cmd, Answer, Prog, act}
use cornus.Protocol.System.{In, Shared, Effect}
use cornus.Protocol.World.{fresh, aside}
use cornus.NewProtocol.Progress.{Progress}
use cornus.Protocol.Mail
use cornus.NewProtocol.System.{System, Thread, view, rejoin}
use cornus.NewProtocol.Safe.{Safe}
use cornus.NewProtocol.Handlers.Coordinator.{Done}
use cornus.NewProtocol.Invariant.{PacketOk, SharedOk, ThreadOk, Inv}
use cornus.NewProtocol.Invariant.Role.{effect_kept}
use cornus.NewProtocol.Invariant.Parties.{thread_role, Beside, remail}

module _ (config : TransactionConfig) (apart : ¬ In config.coordinator config.participants)
    (s : System) (inv : Inv config s) where
  abbrev w : Progress
  w = inv.world

  -- A message leaves the network.
  pub taken :
      (xs ys : List Packet) (p : Packet)
      → s.shared.net ≡ xs ++ p ∷ ys
      → PacketOk config w p
        × SharedOk config w inv.turns inv.votes (record s.shared { net = xs ++ ys })
  taken xs ys p e =
      let (mine, m) = Mail.removed _ _ _ _ _ _ _ _ inv.shared_ok.mail xs ys p e in
      (
        mine,
        remail config apart w inv.turns inv.votes s.shared inv.shared_ok inv.votes (xs ++ ys)
            s.shared.inbox m,
      )

  -- The threads have changed, and the network.
  pub threaded :
      (sh : Shared) (ts : List Thread)
      → SharedOk config w inv.turns inv.votes sh
      → All (ThreadOk config w) ts
      → Inv config (record s { shared = sh; threads = ts })
  threaded sh ts o h = record {
    world = w;
    turns = inv.turns;
    votes = inv.votes;
    coord_turn = inv.coord_turn;
    coord_stand = inv.coord_stand;
    coord_safe = inv.coord_safe;
    background_safe = inv.background_safe;
    part_safe = inv.part_safe;
    threads_ok = h;
    accepted_ok = inv.accepted_ok;
    gave_up_ok = inv.gave_up_ok;
    shared_ok = o;
  }

  pub background_kept :
      (sh : Shared) (b : Prog (Unit {0}))
      → SharedOk config w inv.turns inv.votes sh
      → Safe config config.coordinator Done w fresh b
      → Inv config (record s { shared = sh; background = some b })
  background_kept sh b o h = record {
    world = w;
    turns = inv.turns;
    votes = inv.votes;
    coord_turn = inv.coord_turn;
    coord_stand = inv.coord_stand;
    coord_safe = inv.coord_safe;
    background_safe = h;
    part_safe = inv.part_safe;
    threads_ok = inv.threads_ok;
    accepted_ok = inv.accepted_ok;
    gave_up_ok = inv.gave_up_ok;
    shared_ok = o;
  }

  pub thread_kept :
      (ts us : List Thread) (t : Thread) (c : Cmd) (k : Answer c → Prog String) (r : Answer c)
      (sh : Shared)
      → s.threads ≡ ts ++ t ∷ us
      → t.prog ≡ act c k
      → Effect t.host (view s.shared t) c r sh
      → Inv config (record s {
        shared = rejoin s.shared sh;
        threads = ts ++ record t { queue = sh.inbox t.host; prog = k r } ∷ us;
      })
  thread_kept ts us t c k r sh g e f =
      let ((safe, queue), put) =
        All-middle (ThreadOk config w) ts us t (subst (All (ThreadOk config w)) g inv.threads_ok) in
      let (o, queue', safe') =
        effect_kept config t.host w aside (view s.shared t)
          (Beside config apart w inv.turns inv.votes s.shared inv.shared_ok t queue)
          (thread_role config apart w inv.turns inv.votes s.shared inv.shared_ok t queue)
          inv.shared_ok.logs c r sh (λ w' t' a. Safe config t.host Done w' t' (k a)) f
          (subst (Safe config t.host Done w aside) e safe) in
      threaded (rejoin s.shared sh) _ o
        (put (record t { queue = sh.inbox t.host; prog = k r }) (safe', queue'))
