-- ===== src/NewProtocol/Preserve.antt =====
-- The invariant holds at the start and is kept by every step.
use cornus.Base.{
  ℕ, String, ◌≡◌, refl, subst, sym, false, none, some, [], ◌∷◌, ◌++◌, All, All-append, All-middle,
  arith, inl, ◌∙◌,
}
use mathlib.Core.Bool.{false≢true}
use cornus.Config.Transaction.{HostId, TransactionConfig}
use cornus.Config.Host.{HostConfig}
use cornus.Dbms.Steps.{decision_at-new}
use cornus.Handler.Prog.{RequestType, Prog}
use cornus.Handler.New.{replicator, committer}
use cornus.Node.Handlers.{Kind, MapName, on_new_request, callback}
use cornus.Protocol.System.{In}
use cornus.Protocol.World.{undecided, fresh, counted, aside}
use cornus.NewProtocol.Progress.{Progress}
use cornus.Protocol.Mail
use cornus.NewProtocol.System.{
  System, thread_prog, node, Step, coordinator_acts, coordinator_finishes, background_acts,
  participant_acts, thread_acts, delivers, starts_thread, tells_replicator, loses, start, Reach,
  here, next,
}
use cornus.NewProtocol.Safe.{Conveys, Safe}
use cornus.NewProtocol.Safe.Mono.{Conveys-Told}
use cornus.NewProtocol.Handlers.Coordinator.{
  CoordPost, Done, new_coordinator-Safe, finish_transaction-Safe, replicator-Safe, committer-Safe,
}
use cornus.NewProtocol.Handlers.Participant.{new_participant-Safe}
use cornus.NewProtocol.Invariant.{ThreadOk, BackgroundOk, Inv}
use cornus.NewProtocol.Invariant.Role.{effect_kept}
use cornus.NewProtocol.Invariant.Parties.{background_role, Behind, remail}
use cornus.NewProtocol.Growth.{coordinator_kept, participant_kept}
use cornus.NewProtocol.Moves.{taken, threaded, background_kept, thread_kept}

module _ (config : TransactionConfig) (hosts : HostId → HostConfig) (fuel : ℕ)
    (apart : ¬ In config.coordinator config.participants) where
  -- What WILLCOMMIT and OVERRIDECOMMIT start is safe.
  started :
      (w : Progress) (h : HostId) (kind : Kind) (r : RequestType) (m : MapName) (prog : Prog String)
      → Conveys config w h (some (on_new_request kind r m))
      → thread_prog kind (node config hosts fuel h) ≡ some prog
      → Safe config h Done w aside prog
  unfolding thread_prog
  started w h Kind.replicator_kind r m prog y e =
      let same : replicator (node config hosts fuel h) ≡ prog = cc in
      subst (Safe config h Done w aside) same (replicator-Safe (node config hosts fuel h) w y)
  started w h Kind.committer_kind r m prog y e =
      let same : committer (node config hosts fuel h) ≡ prog = cc in
      subst (Safe config h Done w aside) same (committer-Safe (node config hosts fuel h) w aside y)
  started w h Kind.participant_kind r m prog y e = absurd (cc)
  started w h Kind.coordinator_kind r m prog y e = absurd (cc)

  pub Step-Inv :
      (s : System) (inv : Inv config s) {t : System} → Step config hosts fuel s t → Inv config t
  Step-Inv s inv (coordinator_acts c k r sh e f) = coordinator_kept config apart s inv c k r sh e f
  Step-Inv s inv (coordinator_finishes d e b) =
      background_kept config apart s inv s.shared _ inv.shared_ok (
        finish_transaction-Safe (node config hosts fuel config.coordinator) inv.world fresh d (
          subst (Safe config config.coordinator (CoordPost config) inv.world inv.coord_turn) e
            inv.coord_safe))
  Step-Inv s inv (background_acts c k r sh e f) =
      let (o, safe) =
        effect_kept config config.coordinator inv.world fresh s.shared
          (Behind config apart inv.world inv.turns inv.votes s.shared inv.shared_ok)
          (background_role config apart inv.world inv.turns inv.votes s.shared inv.shared_ok)
          inv.shared_ok.logs c r sh (λ w' t' a. Safe config config.coordinator Done w' t' (k a)) f
          (subst (BackgroundOk config inv.world) e inv.background_safe) in
      background_kept config apart s inv sh (k r) o safe
  Step-Inv s inv (participant_acts p c k r sh i e f) =
      participant_kept config apart s inv p c k r sh i e f
  Step-Inv s inv (thread_acts ts us t c k r sh g e f) =
      thread_kept config apart s inv ts us t c k r sh g e f
  Step-Inv s inv (delivers xs ys p e) =
      threaded config apart s inv _ s.threads
        (remail config apart inv.world inv.turns inv.votes s.shared inv.shared_ok inv.votes _ _ (
          Mail.delivered _ _ _ _ _ _ _ _ inv.shared_ok.mail
            (λ q c r. Conveys-Told config inv.world q.to (callback q.endpoint) r c) xs ys p e))
        inv.threads_ok
  Step-Inv s inv (starts_thread xs ys p kind r m prog e g f) =
      let (mine, o) = taken config apart s inv xs ys p e in
      threaded config apart s inv _ _ o (
        (started inv.world p.to kind r m prog (subst (Conveys config inv.world p.to) g mine) f, tt),
        inv.threads_ok,
      )
  Step-Inv s inv (tells_replicator xs ys p r ts us t e g f h kind) =
      let (mine, o) = taken config apart s inv xs ys p e in
      let ((safe, queue), put) =
        All-middle (ThreadOk config inv.world) ts us t
          (subst (All (ThreadOk config inv.world)) f inv.threads_ok) in
      threaded config apart s inv _ _ o (
        put (record t { queue = t.queue ++ r ∷ [] })
          (
            safe,
            All-append _ t.queue (r ∷ []) queue (subst (Conveys config inv.world p.to) g mine, tt),
          ))
  Step-Inv s inv (loses xs ys p e) =
      threaded config apart s inv _ s.threads (taken config apart s inv xs ys p e).1 inv.threads_ok

  abbrev unsettled : Progress
  unsettled = record {
    settled = record {
      verdict = λ p. undecided;
      sent = λ p. false;
      honest = λ p h. absurd (false≢true h);
    };
    gave_up = λ p. false;
    decision = none;
  }

  start-Inv : Inv config (start config hosts fuel)
  unfolding start
  start-Inv = record {
    world = unsettled;
    turns = λ p. fresh;
    votes = 0;
    coord_turn = counted 0;
    coord_stand = inl (refl, refl);
    coord_safe = new_coordinator-Safe (node config hosts fuel config.coordinator) fuel unsettled;
    background_safe = tt;
    part_safe = λ p i. new_participant-Safe (node config hosts fuel p) i apart unsettled;
    threads_ok = tt;
    accepted_ok = λ p e. absurd (cc);
    gave_up_ok = λ p e. absurd (cc);
    shared_ok = record {
      unasked = λ p e. (refl, refl);
      unsent = λ p e. absurd (cc);
      voters = λ p m e. cc;
      logs = λ h e.
          let clash : ◌≡◌ {A = String} "WORKING" "COMMIT" =
            sym (decision_at-new config.txid h) ∙ e in
          absurd (cc);
      mail = record { packets = tt; queues = λ h. tt; counts = omega arith };
    };
  }

  pub Reach-Inv : {s : System} → Reach config hosts fuel s → Inv config s
  Reach-Inv here = start-Inv
  Reach-Inv (next {s} r st) = Step-Inv s (Reach-Inv r) st
