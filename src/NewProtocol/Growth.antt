-- ===== src/NewProtocol/Growth.antt =====
-- The coordinator and the participants keep the invariant: what they settle leaves everyone else safe.
use cornus.Base.{
  String, ◌≡◌, refl, subst, sym, ap, Option, none, some, Bytes-discrete, arith, inl, inr, ◌||◌, ◌∙◌,
}
use cornus.Config.Transaction.{HostId, TransactionConfig}
use cornus.Handler.Prog.{Cmd, Answer, Prog, act}
use cornus.Protocol.System.{In, Shared, Effect, update, update_self, update_ne}
use cornus.Protocol.World.{Turn, fresh, counted, aside}
use cornus.NewProtocol.Progress.{Grows-refl, Follow, Progress, Grows}
use cornus.Protocol.World.Mono.{All-mono}
use cornus.NewProtocol.System.{System, Thread, accepts, gives_up}
use cornus.NewProtocol.Safe.{Permit, Safe}
use cornus.NewProtocol.Safe.Mono.{Decided-mono, Safe-mono}
use cornus.NewProtocol.Handlers.Coordinator.{CoordPost, Done}
use cornus.NewProtocol.Handlers.Participant.{PartPost, PartPost-mono}
use cornus.NewProtocol.Invariant.{CoordStand, ThreadOk, BackgroundOk, Inv}
use cornus.NewProtocol.Invariant.Role.{effect_kept}
use cornus.NewProtocol.Invariant.Parties.{coordinator_role, background_role, Counted, Behind}
use cornus.NewProtocol.Invariant.Participant.{participant_role, Moved}

module _ (config : TransactionConfig) {v w : Progress} (l : Grows v w) where
  CoordPost-mono : (d : Option String) → CoordPost config v d → CoordPost config w d
  CoordPost-mono none h = tt
  CoordPost-mono (some d) h = Decided-mono config l d h

  BackgroundOk-mono :
      (b : Option (Prog (Unit {0}))) → BackgroundOk config v b → BackgroundOk config w b
  BackgroundOk-mono none h = tt
  BackgroundOk-mono (some b) h = Safe-mono config l config.coordinator Done (λ a x. tt) fresh b h

  ThreadOk-mono : (t : Thread) → ThreadOk config v t → ThreadOk config w t
  ThreadOk-mono t h = (Safe-mono config l t.host Done (λ a x. tt) aside t.prog h.0, h.1)

module _ (config : TransactionConfig) (apart : ¬ In config.coordinator config.participants)
    (s : System) (inv : Inv config s) where
  abbrev w : Progress
  w = inv.world

  -- An effect of the coordinator, whether it counts or has decided.
  coordinator_effect :
      (c : Cmd) (a : Answer c) (sh : Shared) (K : Follow c) (t : Turn)
      → CoordStand config w t inv.votes
      → Effect config.coordinator s.shared c a sh
      → Permit config config.coordinator w t c K
      → Counted config apart w inv.turns inv.votes s.shared inv.shared_ok
          (accepts c a)
          (gives_up c a)
          sh
          (λ w' t'. K w' t' a)
  coordinator_effect c a sh K t (inl (e, pending)) f h =
      effect_kept config config.coordinator w (counted inv.votes) s.shared
        (Counted config apart w inv.turns inv.votes s.shared inv.shared_ok)
        (coordinator_role config apart w inv.turns inv.votes s.shared inv.shared_ok pending)
        inv.shared_ok.logs c a sh K f (subst (λ x. Permit config config.coordinator w x c K) e h)
  coordinator_effect c a sh K t (inr e) f h =
      let (o, k) =
        effect_kept config config.coordinator w fresh s.shared
          (Behind config apart w inv.turns inv.votes s.shared inv.shared_ok)
          (background_role config apart w inv.turns inv.votes s.shared inv.shared_ok)
          inv.shared_ok.logs c a sh K f
          (subst (λ x. Permit config config.coordinator w x c K) e h) in
      (w, inv.votes, fresh, Grows-refl w, o, inr refl, (refl, refl), k)

  pub coordinator_kept :
      (c : Cmd) (k : Answer c → Prog (Option String)) (r : Answer c) (sh : Shared)
      → s.coord ≡ act c k
      → Effect config.coordinator s.shared c r sh
      → Inv config (record s { shared = sh; coord = k r })
  coordinator_kept c k r sh e f =
      let (w', n, t', l, o, stand, (same, still), safe) =
        coordinator_effect c r sh
          (λ w' t' a. Safe config config.coordinator (CoordPost config) w' t' (k a)) inv.coord_turn
          inv.coord_stand f
          (subst (Safe config config.coordinator (CoordPost config) w inv.coord_turn) e
            inv.coord_safe) in
      record {
        world = w';
        turns = inv.turns;
        votes = n;
        coord_turn = t';
        coord_stand = stand;
        coord_safe = safe;
        background_safe = BackgroundOk-mono config l s.background inv.background_safe;
        part_safe = λ p i.
            Safe-mono config l p (PartPost config p) (PartPost-mono config p l) (inv.turns p)
              (s.part p) (inv.part_safe p i);
        threads_ok = All-mono (ThreadOk-mono config l) s.threads inv.threads_ok;
        accepted_ok = λ p y. inv.accepted_ok p (sym (ap (λ x. x.verdict p) same) ∙ y);
        gave_up_ok = λ p y. inv.gave_up_ok p (sym (ap (λ x. x p) still) ∙ y);
        shared_ok = o;
      }

  stands_still :
      (w' : Progress) (t : Turn)
      → w'.decision ≡ w.decision
      → CoordStand config w t inv.votes
      → CoordStand config w' t inv.votes
  stands_still w' t e (inl (f, d)) = inl (f, e ∙ d)
  stands_still w' t e (inr f) = inr f

  pub participant_kept :
      (p : HostId) (c : Cmd) (k : Answer c → Prog String) (r : Answer c) (sh : Shared)
      → In p config.participants
      → s.part p ≡ act c k
      → Effect p s.shared c r sh
      → Inv config (record s {
        shared = sh;
        part = update s.part p (k r);
        accepted = update s.accepted p (s.accepted p || accepts c r);
        gave_up = update s.gave_up p (s.gave_up p || gives_up c r);
      })
  participant_kept p c k r sh i e f =
      let (w', t', l, o, same, settled, late, safe) =
        effect_kept config p w (inv.turns p) s.shared
          (Moved config apart w inv.turns inv.votes s.shared inv.shared_ok p i)
          (participant_role config apart w inv.turns inv.votes s.shared inv.shared_ok p i)
          inv.shared_ok.logs c r sh (λ w' t' a. Safe config p (PartPost config p) w' t' (k a)) f
          (subst (Safe config p (PartPost config p) w (inv.turns p)) e (inv.part_safe p i)) in
      record {
        world = w';
        turns = update inv.turns p t';
        votes = inv.votes;
        coord_turn = inv.coord_turn;
        coord_stand = stands_still w' inv.coord_turn same inv.coord_stand;
        coord_safe =
            Safe-mono config l config.coordinator (CoordPost config) (CoordPost-mono config l)
              inv.coord_turn s.coord inv.coord_safe;
        background_safe = BackgroundOk-mono config l s.background inv.background_safe;
        part_safe = λ q j. elim (Bytes-discrete p q) [
          | yes g ↦
              subst
                (λ x.
                  Safe config x (PartPost config x) w' (update inv.turns p t' x)
                    (update s.part p (k r) x))
                g (rw (update_self inv.turns p t', update_self s.part p (k r)) safe)
          | no n ↦
              rw (update_ne inv.turns p t' q n, update_ne s.part p (k r) q n)
                (Safe-mono config l q (PartPost config q) (PartPost-mono config q l) (inv.turns q)
                  (s.part q) (inv.part_safe q j))
        ];
        threads_ok = All-mono (ThreadOk-mono config l) s.threads inv.threads_ok;
        accepted_ok = λ q y. ground (arith, settled q y, inv.accepted_ok q);
        gave_up_ok = λ q y. ground (arith, late q y, inv.gave_up_ok q);
        shared_ok = o;
      }
