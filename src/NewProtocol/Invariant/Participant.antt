-- ===== src/NewProtocol/Invariant/Participant.antt =====
-- The role of a participant: it may settle and send its vote.
use cornus.Base.{
  ℕ, ◌≡◌, ◌≢◌, refl, sym, subst, Bool, true, false, none, some, List, ◌∷◌, All, arith, ◌⊎◌, inl,
  inr, Bytes-discrete, Bytes, ◌∙◌,
}
use cornus.Config.Transaction.{HostId, TransactionConfig}
use cornus.Handler.Prog.{RequestType, vote_yes, Packet, wait, vote_request, record_event}
use cornus.Node.Handlers.{handlers, on_old_request, callback}
use cornus.Protocol.System.{In, Shared, update, update_self, update_eq, update_ne, update_same}
use cornus.Protocol.World.{Turn, counted, fresh, ready, spent, Verdict}
use cornus.NewProtocol.Progress.{
  settled-Grows, give_up, give_up-Grows, Progress, Grows, Follow, Grows-refl, Committed-mono,
}
use cornus.Protocol.Mail.{MailOk-mono, one_vote}
use cornus.Protocol.Mail
use cornus.Protocol.Invariant.Settle.{
  settle, settle-Later, mark_sent, mark_sent-Later, tally-mark_sent,
}
use cornus.NewProtocol.System.{handlers_message}
use cornus.NewProtocol.Safe.{Told, Permit}
use cornus.NewProtocol.Invariant.{SharedOk}
use cornus.NewProtocol.Invariant.Role.{Role}
use cornus.NewProtocol.Invariant.Parties.{relog, remail, pushed, mails_later, grown}

module _ (config : TransactionConfig) (apart : ¬ In config.coordinator config.participants)
    (w : Progress) (turns : HostId → Turn) (n : ℕ) (s : Shared) (ok : SharedOk config w turns n s)
    (p : HostId) (i : In p config.participants) where
  -- Only `p` may have accepted or given up, if this effect does so.
  abbrev pub Moved : Bool → Bool → Shared → (Progress → Turn → Type 0) → Type 0
  Moved b g s' K =
      (w' : Progress) × (t' : Turn) × Grows w w'
      × SharedOk config w' (update turns p t') n s'
      × (w'.decision ≡ w.decision)
      × ((q : HostId)
          → w'.settled.verdict q ≡ Verdict.yes_vote
          → (w.settled.verdict q ≡ Verdict.yes_vote) ⊎ ((p ≡ q) × (b ≡ true)))
      × ((q : HostId) → w'.gave_up q ≡ true → (w.gave_up q ≡ true) ⊎ ((p ≡ q) × (g ≡ true)))
      × K w' t'

  returned :
      {w' : Progress} {s' : Shared}
      → SharedOk config w' turns n s'
      → SharedOk config w' (update turns p (turns p)) n s'
  returned o = record {
    unasked = λ q e. o.unasked q (sym (update_same turns p q) ∙ e);
    unsent = λ q e. o.unsent q (sym (update_same turns p q) ∙ e);
    voters = λ q m e. o.voters q m (sym (update_same turns p q) ∙ e);
    logs = o.logs;
    mail = o.mail;
  }

  stays :
      {s' : Shared} (K : Progress → Turn → Type 0)
      → SharedOk config w turns n s'
      → K w (turns p)
      → Moved false false s' K
  stays K o k = (w, turns p, Grows-refl w, returned o, refl, (λ q y. inl y), (λ q y. inl y), k)

  -- `p` takes the turn `t'`, the others keep theirs.
  moved :
      {w' : Progress}
      → Grows w w'
      → (t' : Turn)
      → ((q : HostId)
          → p ≢ q
          → (w'.settled.verdict q ≡ w.settled.verdict q) × (w'.settled.sent q ≡ w.settled.sent q))
      → t' ≢ fresh
      → ((m : ℕ) → t' ≢ counted m)
      → (t' ≡ ready → (w'.settled.verdict p ≡ Verdict.yes_vote) × (w'.settled.sent p ≡ false))
      → SharedOk config w' (update turns p t') n s
  moved {w'} l t' same busy votes to_send = record {
    unasked = λ q e. elim (Bytes-discrete p q) [
      | yes g ↦ absurd (busy (sym (update_eq turns p t' q g) ∙ e))
      | no ne ↦
          let (v, b) = ok.unasked q (sym (update_ne turns p t' q ne) ∙ e) in
          ((same q ne).0 ∙ v, (same q ne).1 ∙ b)
    ];
    unsent = λ q e. elim (Bytes-discrete p q) [
      | yes g ↦
          subst (λ x. (w'.settled.verdict x ≡ Verdict.yes_vote) × (w'.settled.sent x ≡ false)) g
            (to_send (sym (update_eq turns p t' q g) ∙ e))
      | no ne ↦
          let (v, b) = ok.unsent q (sym (update_ne turns p t' q ne) ∙ e) in
          ((same q ne).0 ∙ v, (same q ne).1 ∙ b)
    ];
    voters = λ q m e. elim (Bytes-discrete p q) [
      | yes g ↦ votes m (sym (update_eq turns p t' q g) ∙ e)
      | no ne ↦ ok.voters q m (sym (update_ne turns p t' q ne) ∙ e)
    ];
    logs = λ h c. Committed-mono config l (ok.logs h c);
    mail = mails_later config apart w turns n s ok l;
  }

  -- VOTEYES is sent: from now on the vote counts.
  vote_sent :
      (k : Packet) (K : Progress → Turn → Type 0)
      → callback k.endpoint ≡ some (on_old_request vote_yes handlers)
      → k.to ≡ config.coordinator
      → turns p ≡ ready
      → ((w' : Progress) → Grows w w' → K w' spent)
      → Moved false false (record s { net = k ∷ s.net }) K
  unfolding mark_sent handlers_message
  vote_sent k K e g f next =
      let (y, b) = ok.unsent p f in
      let w' = record w { settled = mark_sent w.settled p y } in
      let l = settled-Grows {w = w} (mark_sent-Later w.settled p y) in
      let o =
        moved l spent (λ x ne. (refl, update_ne w.settled.sent p true x ne)) (λ x. cc) (λ m x. cc)
          (λ x. absurd (cc)) in
      (
        w',
        spent,
        l,
        record {
          unasked = o.unasked;
          unsent = o.unsent;
          voters = o.voters;
          logs = o.logs;
          mail = record {
            packets = (rw e g, o.mail.packets);
            queues = o.mail.queues;
            counts = rw e (
                omega
                  (arith, ok.mail.counts, tally-mark_sent w.settled p y config.participants i b));
          };
        },
        refl,
        (λ q h. inl h),
        (λ q h. inl h),
        next w' l,
      )

  -- The worker answers.
  answered :
      (c : Bytes) (b : Bool) (K : Follow (vote_request c))
      → Permit config p w (turns p) (vote_request c) K
      → Moved b false s (λ w' t'. K w' t' b)
  unfolding settle
  answered c true K (j, f, k, x) =
      let (u, b) = ok.unasked p f in
      let w' = record w { settled = settle w.settled p Verdict.yes_vote u } in
      let l = settled-Grows {w = w} (settle-Later w.settled p Verdict.yes_vote u) in
      let yes_now = update_self w.settled.verdict p Verdict.yes_vote in
      (
        w',
        ready,
        l,
        moved l ready (λ q ne. (update_ne w.settled.verdict p Verdict.yes_vote q ne, refl))
            (λ e. cc) (λ m e. cc) (λ e. (yes_now, b)),
        refl,
        (λ q h. elim (Bytes-discrete p q) [
          | yes g ↦ inr (g, refl)
          | no ne ↦ inl (sym (update_ne w.settled.verdict p Verdict.yes_vote q ne) ∙ h)
        ]),
        (λ q h. inl h),
        k w' l yes_now,
      )
  answered c false K (j, f, k, x) =
      let (u, b) = ok.unasked p f in
      let w' = record w { settled = settle w.settled p Verdict.veto u } in
      let l = settled-Grows {w = w} (settle-Later w.settled p Verdict.veto u) in
      let veto_now = update_self w.settled.verdict p Verdict.veto in
      (
        w',
        spent,
        l,
        moved l spent (λ q ne. (update_ne w.settled.verdict p Verdict.veto q ne, refl)) (λ e. cc)
            (λ m e. cc) (λ e. absurd (cc)),
        refl,
        (λ q h. elim (Bytes-discrete p q) [
          | yes g ↦
              let clash : w'.settled.verdict q ≡ Verdict.veto =
                update_eq w.settled.verdict p Verdict.veto q g in
              absurd (cc)
          | no ne ↦ inl (sym (update_ne w.settled.verdict p Verdict.veto q ne) ∙ h)
        ]),
        (λ q h. inl h),
        x w' l veto_now,
      )

  -- The participant gives up waiting.
  timed_out :
      (k : ℕ) (K : Follow (wait k))
      → Permit config p w (turns p) (wait k) K
      → Moved false true s (λ w' t'. K w' t' none)
  unfolding give_up
  timed_out k K f =
      let w' = give_up w p in
      let l = give_up-Grows w p in
      (
        w',
        turns p,
        l,
        returned (grown config apart w turns n s ok l (λ q. refl) (λ q. refl)),
        refl,
        (λ q h. inl h),
        (λ q h. elim (Bytes-discrete p q) [
          | yes g ↦ inr (g, refl)
          | no ne ↦ inl (sym (update_ne w.gave_up p true q ne) ∙ h)
        ]),
        f.1 w' l (λ _. update_self w.gave_up p true),
      )

  noted_by :
      (e : Bytes) (K : Follow (record_event e))
      → Permit config p w (turns p) (record_event e) K
      → Moved false false s (λ w' t'. K w' t' tt)
  noted_by e K (inl k) = stays (λ w' t'. K w' t' tt) ok (k w (Grows-refl w))
  noted_by e K (inr (m, d, q, g, k)) = absurd (ok.voters p m q)

  taken :
      (r : RequestType) (rest : List RequestType)
      → s.inbox p ≡ r ∷ rest
      → SharedOk config w turns n (record s { inbox = update s.inbox p rest })
  taken r rest e =
      remail config apart w turns n s ok n s.net (update s.inbox p rest)
        (Mail.dequeued _ _ _ _ _ _ _ _ ok.mail p r rest n e (λ _. omega arith) (λ _. omega arith))

  -- The first message of its queue is a decision.
  received :
      (k : ℕ) (r : RequestType) (rest : List RequestType) (K : Follow (wait k))
      → s.inbox p ≡ r ∷ rest
      → Told config w p r
      → Permit config p w (turns p) (wait k) K
      → Moved false false (record s { inbox = update s.inbox p rest }) (λ w' t'. K w' t' (some r))
  received k RequestType.abort rest K e h f =
      stays (λ w' t'. K w' t' (some RequestType.abort)) (taken RequestType.abort rest e)
        (f.2 w (Grows-refl w) h)
  received k RequestType.commit rest K e h f =
      stays (λ w' t'. K w' t' (some RequestType.commit)) (taken RequestType.commit rest e)
        (f.3 w (Grows-refl w) h)
  received k RequestType.vote_yes rest K e h f =
      absurd (apart (subst (λ x. In x config.participants) h i))
  received k _ rest K e h f = absurd h

  pub participant_role : Role config p w (turns p) s Moved
  participant_role = record {
    unchanged = λ K k. stays K ok k;
    logged = λ m K l k. stays K (relog config apart w turns n s ok m l) k;
    mailed = λ x K h z k. stays K (pushed config apart w turns n s ok x h z) k;
    voted = vote_sent;
    received = λ k r rest K e f.
        received k r rest K e (subst (All (Told config w p)) e (ok.mail.queues p)).0 f;
    timed = timed_out;
    noted = noted_by;
    asked = answered;
  }
