-- ===== src/NewProtocol/Nonblocking.antt =====
-- A participant of the new version that goes on while no other handler does.
use cornus.Base.{ℕ, String, ◌≡◌, subst, inl, inr, refl, false}
use cornus.Config.Transaction.{HostId, TransactionConfig}
use cornus.Config.Host.{HostConfig}
use cornus.Dbms.Calls.{IsDecision, accepted}
use cornus.Handler.Prog.{
  Cmd, log_once, log_write, log_read, send, set_timeout_start, wait, vote_request, work_commit,
  record_event, Answer, Prog, ret, crash, act,
}
use cornus.Protocol.System.{In, Shared, Effect, update_self}
use cornus.Protocol.World.{Turn}
use cornus.Protocol.Effects.{Proper, happens}
use cornus.NewProtocol.System.{participant_acts, Reach, next}
use cornus.NewProtocol.Progress.{Progress, Follow}
use cornus.NewProtocol.Safe.{Sound, Permit, Safe}
use cornus.NewProtocol.Handlers.Participant.{PartPost}
use cornus.NewProtocol.Preserve.{Reach-Inv}
use cornus.Protocol.Waiting.{MayRun}
use cornus.NewProtocol.Waiting.{
  Waiting, participant_run, participant_answered, WaitingReach, WaitingReach-Reach,
}
use cornus.NewProtocol.Agreement.{part_post, new_no_crash}

-- Effects of the participant `p` and responses to its requests: no other thread does anything, and no
-- message moves. The participant does nothing but ask while it waits for responses.
pub data Solo (p : HostId) : Waiting → Waiting → Type 0 where
  rests : {s : Waiting} → Solo p s s
  is_answered : {s t : Waiting} → Solo p (participant_answered s p) t → Solo p s t
  acts :
      {s t : Waiting} (c : Cmd) (k : Answer c → Prog String) (r : Answer c) (sh : Shared)
      → s.system.part p ≡ act c k
      → MayRun c (s.waits p)
      → Effect p s.system.shared c r sh
      → Solo p (participant_run s p c r (k r) sh) t
      → Solo p s t

module _ (config : TransactionConfig) where
  Sound-IsDecision : (w : Progress) (d : String) → Sound config w d → IsDecision d
  Sound-IsDecision w d (inl h) = inl h.0
  Sound-IsDecision w d (inr e) = inr e

  PartPost-IsDecision :
      (p : HostId) (w : Progress) (d : String) → PartPost config p w d → IsDecision d
  PartPost-IsDecision p w d (inl (inl h)) = inl h.0
  PartPost-IsDecision p w d (inl (inr h)) = inr h.0
  PartPost-IsDecision p w d (inr h) = inr h.0

  Permit-Proper :
      (me : HostId) (w : Progress) (t : Turn) (c : Cmd) (K : Follow c)
      → Permit config me w t c K
      → Proper config c
  Permit-Proper me w t (log_once d a) K h = absurd h
  Permit-Proper me w t (log_write d a) K (e, g, k) = (me, e, accepted d (Sound-IsDecision w d g))
  Permit-Proper me w t (log_read a) K (e, k) = (me, e)
  Permit-Proper me w t (send p) K h = tt
  Permit-Proper me w t set_timeout_start K h = tt
  Permit-Proper me w t (wait n) K h = tt
  Permit-Proper me w t (vote_request c) K h = tt
  Permit-Proper me w t (work_commit x) K h = tt
  Permit-Proper me w t (record_event e) K h = tt

module _ (config : TransactionConfig) (hosts : HostId → HostConfig) (fuel : ℕ)
    (apart : ¬ In config.coordinator config.participants) (p : HostId)
    (i : In p config.participants) where
  abbrev Returns : Waiting → Type 0
  Returns s =
      (t : Waiting) × (d : String) × Solo p s t
      × (t.system.part p ≡ ret d)
      × (t.waits p ≡ false)
      × IsDecision d

  returns :
      (m : Prog String) (s : Waiting)
      → Reach config hosts fuel s.system
      → s.system.part p ≡ m
      → Returns s
  returns (ret d) s r e =
      let inv = Reach-Inv config hosts fuel apart r in
      (
        participant_answered s p,
        d,
        is_answered rests,
        e,
        update_self s.waits p false,
        PartPost-IsDecision config p inv.world d (part_post config inv p d i e),
      )
  returns crash s r e = absurd ((new_no_crash config hosts fuel s.system apart r).2 p i e)
  returns (act c k) s r e =
      let inv = Reach-Inv config hosts fuel apart r in
      let allowed =
        subst (Safe config p (PartPost config p) inv.world (inv.turns p)) e (inv.part_safe p i) in
      let (a, sh, f) =
        happens config p s.system.shared c
          (Permit-Proper config p inv.world (inv.turns p) c _ allowed) in
      let (t, d, solo, done, heard, ok) =
        returns (k a) (participant_run (participant_answered s p) p c a (k a) sh)
          (next r (participant_acts p c k a sh i e f)) (update_self s.system.part p (k a)) in
      (
        t,
        d,
        is_answered (acts c k a sh e (inr (update_self s.waits p false)) f solo),
        done,
        heard,
        ok,
      )

  -- No participant of the new version needs another handler to go on. The states are those that are
  -- reachable when each participant waits for the responses to its requests. For a transaction whose
  -- coordinator is none of its participants, from every such state each participant can return COMMIT or
  -- ABORT, with no response to come, by finitely many effects of its own and the responses to its
  -- requests, which the coordinator's server or the end of the connection gives, while the DBMS answers;
  -- no other thread of the handlers does anything, and no message reaches a queue.
  pub new_nonblocking :
      (s : Waiting)
      → WaitingReach config hosts fuel s
      → (t : Waiting) × (d : String) × Solo p s t
        × (t.system.part p ≡ ret d)
        × (t.waits p ≡ false)
        × IsDecision d
  new_nonblocking s w = returns (s.system.part p) s (WaitingReach-Reach config hosts fuel w) refl
