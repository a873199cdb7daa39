-- ===== src/Protocol/Nonblocking.antt =====
-- A participant or the coordinator of the paper's version that goes on while no other handler does.
use cornus.Base.{
  ℕ, String, ◌≡◌, subst, inl, inr, refl, Option, none, some, false, length, ◌<◌, ◌≤◌, arith,
}
use cornus.Config.Transaction.{HostId, TransactionConfig}
use cornus.Config.Host.{HostConfig}
use cornus.Dbms.Calls.{IsDecision, accepted, vote_accepted}
use cornus.Handler.Prog.{
  Cmd, log_once, log_write, log_read, send, set_timeout_start, wait, vote_request, work_commit,
  record_event, Answer, Prog, ret, crash, act,
}
use cornus.Protocol.System.{
  coordinator_acts, In, Shared, Effect, participant_acts, Reach, next, update_self,
}
use cornus.Protocol.World.{counted, World, Turn, Legit, Permit, Follow, Safe}
use cornus.Protocol.Handlers.{CoordPost}
use cornus.Protocol.Preserve.{Reach-Inv}
use cornus.Protocol.Effects.{Proper, happens}
use cornus.Protocol.Waiting.{
  MayRun, Waiting, coordinator_run, participant_run, coordinator_answered, participant_answered,
  WaitingReach, WaitingReach-Reach,
}
use cornus.Protocol.Agreement.{coordinator_decides, participant_decides, Decides-Legit, no_crash}

-- Effects of the participant `p` and responses to its requests: no other handler does anything, and no
-- message moves. The participant does nothing but ask while it waits for responses.
pub data Solo (p : HostId) : Waiting → Waiting → Type 0 where
  rests : {s : Waiting} → Solo p s s
  is_answered : {s t : Waiting} → Solo p (participant_answered s p) t → Solo p s t
  acts :
      {s t : Waiting} (c : Cmd) (k : Answer c → Prog String) (r : Answer c) (sh : Shared)
      → s.system.part p ≡ act c k
      → MayRun c (s.part_waits p)
      → Effect p s.system.shared c r sh
      → Solo p (participant_run s p c (k r) sh) t
      → Solo p s t

-- Effects of the coordinator and responses to its requests.
pub data CoordinatorSolo (coordinator : HostId) : Waiting → Waiting → Type 0 where
  coordinator_rests : {s : Waiting} → CoordinatorSolo coordinator s s
  coordinator_is_answered :
      {s t : Waiting}
      → CoordinatorSolo coordinator (coordinator_answered s) t
      → CoordinatorSolo coordinator s t
  coordinator_goes :
      {s t : Waiting} (c : Cmd) (k : Answer c → Prog (Option String)) (r : Answer c) (sh : Shared)
      → s.system.coord ≡ act c k
      → MayRun c s.coord_waits
      → Effect coordinator s.system.shared c r sh
      → CoordinatorSolo coordinator (coordinator_run s c (k r) sh) t
      → CoordinatorSolo coordinator s t

module _ (config : TransactionConfig) where
  Legit-IsDecision : (w : World) (d : String) → Legit config w d → IsDecision d
  Legit-IsDecision w d (inl h) = inl h.0
  Legit-IsDecision w d (inr h) = inr h.0

  Permit-Proper :
      (me : HostId) (w : World) (t : Turn) (c : Cmd) (K : Follow config c)
      → Permit config me w t c K
      → Proper config c
  Permit-Proper me w t (log_once d a) K (inl (h, e, i, q, k)) = (h, e, accepted d (inr q))
  Permit-Proper me w t (log_once d a) K (inr (e, q, f, k, n)) = (me, e, rw q vote_accepted)
  Permit-Proper me w t (log_write d a) K (e, i, f, y, g, k) =
      (me, e, accepted d (Legit-IsDecision w d g))
  Permit-Proper me w t (log_read a) K h = absurd h
  Permit-Proper me w t (send p) K h = tt
  Permit-Proper me w t set_timeout_start K h = tt
  Permit-Proper me w t (wait n) K h = tt
  Permit-Proper me w t (vote_request c) K h = tt
  Permit-Proper me w t (work_commit x) K h = tt
  Permit-Proper me w t (record_event e) K h = tt

module _ (config : TransactionConfig) (hosts : HostId → HostConfig) (fuel : ℕ)
    (apart : ¬ In config.coordinator config.participants) (p : HostId)
    (i : In p config.participants) where
  abbrev Returns : Waiting → Type 0
  Returns s =
      (t : Waiting) × (d : String) × Solo p s t
      × (t.system.part p ≡ ret d)
      × (t.part_waits p ≡ false)
      × IsDecision d

  returns :
      (m : Prog String) (s : Waiting)
      → Reach config hosts fuel s.system
      → s.system.part p ≡ m
      → Returns s
  returns (ret d) s r e =
      let decided =
        Decides-Legit config (Reach-Inv config fuel apart r) (participant_decides p i e) in
      (
        participant_answered s p,
        d,
        is_answered rests,
        e,
        update_self s.part_waits p false,
        Legit-IsDecision config (Reach-Inv config fuel apart r).world d decided,
      )
  returns crash s r e = absurd ((no_crash config hosts fuel s.system apart r).1 p i e)
  returns (act c k) s r e =
      let inv = Reach-Inv config fuel apart r in
      let allowed =
        subst (Safe config p (Legit config) inv.world (inv.turns p)) e (inv.part_safe p i) in
      let (a, sh, f) =
        happens config p s.system.shared c
          (Permit-Proper config p inv.world (inv.turns p) c _ allowed) in
      let (t, d, solo, done, heard, ok) =
        returns (k a) (participant_run (participant_answered s p) p c (k a) sh)
          (next r (participant_acts p c k a sh i e f)) (update_self s.system.part p (k a)) in
      (
        t,
        d,
        is_answered (acts c k a sh e (inr (update_self s.part_waits p false)) f solo),
        done,
        heard,
        ok,
      )

module _ (config : TransactionConfig) (hosts : HostId → HostConfig) (fuel : ℕ)
    (apart : ¬ In config.coordinator config.participants)
    (enough : length config.participants < fuel) where
  abbrev Concludes : Waiting → Type 0
  Concludes s =
      (t : Waiting) × (d : String) × CoordinatorSolo config.coordinator s t
      × (t.system.coord ≡ ret (some d))
      × (t.coord_waits ≡ false)
      × IsDecision d

  concludes :
      (m : Prog (Option String)) (s : Waiting)
      → Reach config hosts fuel s.system
      → s.system.coord ≡ m
      → Concludes s
  concludes (ret none) s r e =
      let inv = Reach-Inv config fuel apart r in
      let few : fuel ≤ length config.participants =
        subst (Safe config config.coordinator (CoordPost config fuel) inv.world (counted inv.votes))
          e inv.coord_safe in
      absurd (omega arith)
  concludes (ret (some d)) s r e =
      let inv = Reach-Inv config fuel apart r in
      let decided = Decides-Legit config inv (coordinator_decides e) in
      (
        coordinator_answered s,
        d,
        coordinator_is_answered coordinator_rests,
        e,
        refl,
        Legit-IsDecision config inv.world d decided,
      )
  concludes crash s r e = absurd ((no_crash config hosts fuel s.system apart r).0 e)
  concludes (act c k) s r e =
      let inv = Reach-Inv config fuel apart r in
      let allowed =
        subst (Safe config config.coordinator (CoordPost config fuel) inv.world (counted inv.votes))
          e inv.coord_safe in
      let (a, sh, f) =
        happens config config.coordinator s.system.shared c
          (Permit-Proper config config.coordinator inv.world (counted inv.votes) c _ allowed) in
      let (t, d, solo, done, heard, ok) =
        concludes (k a) (coordinator_run (coordinator_answered s) c (k a) sh)
          (next r (coordinator_acts c k a sh e f)) refl in
      (
        t,
        d,
        coordinator_is_answered (coordinator_goes c k a sh e (inr refl) f solo),
        done,
        heard,
        ok,
      )

  -- No handler of the paper's version needs another handler to go on. The states are those that are
  -- reachable when each handler waits for the responses to its requests before it does anything but ask
  -- again. For a transaction whose coordinator is none of its participants, and with more rounds for the
  -- coordinator than participants: from every such state each participant, and the coordinator too, can
  -- return COMMIT or ABORT, with no response to come, by finitely many effects of its own and the
  -- responses to its requests, which the other nodes' servers or the ends of the connections give, while
  -- the DBMS answers; no other handler does anything, and no message reaches a queue.
  pub nonblocking :
      (s : Waiting)
      → WaitingReach config hosts fuel s
      → ((p : HostId)
          → In p config.participants
          → (t : Waiting) × (d : String) × Solo p s t
            × (t.system.part p ≡ ret d)
            × (t.part_waits p ≡ false)
            × IsDecision d)
        × ((t : Waiting) × (d : String) × CoordinatorSolo config.coordinator s t
            × (t.system.coord ≡ ret (some d))
            × (t.coord_waits ≡ false)
            × IsDecision d)
  nonblocking s w =
      let r = WaitingReach-Reach config hosts fuel w in
      (
        (λ p i. returns config hosts fuel apart p i (s.system.part p) s r refl),
        concludes s.system.coord s r refl,
      )
