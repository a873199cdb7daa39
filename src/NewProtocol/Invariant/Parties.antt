-- ===== src/NewProtocol/Invariant/Parties.antt =====
-- The roles of the coordinator, its background thread and the other threads.
use cornus.Base.{
  ℕ, suc, ◌≤◌, ◌+◌, ◌≡◌, refl, subst, Bool, false, none, some, List, ◌∷◌, All, arith, inl, inr,
  Bytes, ◌∙◌,
}
use cornus.Config.Transaction.{HostId, TransactionConfig}
use cornus.Dbms.Manager.{LogManager}
use cornus.Handler.Prog.{RequestType, decision_completed, Packet, wait, record_event}
use cornus.Node.Handlers.{callback}
use cornus.Protocol.System.{In, Shared, update, update_self}
use cornus.Protocol.World.{Turn, counted, fresh, spent, aside}
use cornus.NewProtocol.Progress.{Grows, decided-Grows, Committed-mono, Progress, Follow, Grows-refl}
use cornus.Protocol.Mail.{one_vote, queued_votes, MailOk-mono}
use cornus.Protocol.Mail
use cornus.NewProtocol.System.{Thread, view, rejoin}
use cornus.Protocol.World.Mono.{tally_mono}
use cornus.NewProtocol.Safe.{Told, Permit}
use cornus.NewProtocol.Safe.Mono.{Told-mono, Conveys-mono}
use cornus.NewProtocol.Invariant.{CoordStand, LogsOk, PacketOk, Mails, SharedOk, queue_message}
use cornus.NewProtocol.Invariant.Role.{Role}

module _ (config : TransactionConfig) (apart : ¬ In config.coordinator config.participants)
    (w : Progress) (turns : HostId → Turn) (n : ℕ) (s : Shared)
    (ok : SharedOk config w turns n s) where
  pub relog :
      (m : LogManager) → LogsOk config w m → SharedOk config w turns n (record s { dbms = m })
  relog m l = record {
    unasked = ok.unasked;
    unsent = ok.unsent;
    voters = ok.voters;
    logs = l;
    mail = ok.mail;
  }

  pub remail :
      (n' : ℕ) (net : List Packet) (inbox : HostId → List RequestType)
      → Mails config w n' (record s { net = net; inbox = inbox })
      → SharedOk config w turns n' (record s { net = net; inbox = inbox })
  remail n' net inbox m = record {
    unasked = ok.unasked;
    unsent = ok.unsent;
    voters = ok.voters;
    logs = ok.logs;
    mail = m;
  }

  -- What is settled grows, but no vote changes.
  pub mails_later : {w' : Progress} → Grows w w' → Mails config w' n s
  mails_later l =
      MailOk-mono (λ x. Conveys-mono config l x.to (callback x.endpoint)) (Told-mono config l)
        (tally_mono l.settled_grows config.participants) ok.mail

  pub grown :
      {w' : Progress}
      → Grows w w'
      → ((p : HostId) → w'.settled.verdict p ≡ w.settled.verdict p)
      → ((p : HostId) → w'.settled.sent p ≡ w.settled.sent p)
      → SharedOk config w' turns n s
  grown l v b = record {
    unasked = λ p e. let (x, y) = ok.unasked p e in (v p ∙ x, b p ∙ y);
    unsent = λ p e. let (x, y) = ok.unsent p e in (v p ∙ x, b p ∙ y);
    voters = ok.voters;
    logs = λ h c. Committed-mono config l (ok.logs h c);
    mail = mails_later l;
  }

  pub pushed :
      (p : Packet)
      → PacketOk config w p
      → one_vote (queue_message p.endpoint) ≡ 0
      → SharedOk config w turns n (record s { net = p ∷ s.net })
  pushed p h z = remail n (p ∷ s.net) s.inbox (Mail.pushed _ _ _ _ _ _ _ _ ok.mail p h z)

  -- The coordinator counts.
  abbrev pub Counted : Bool → Bool → Shared → (Progress → Turn → Type 0) → Type 0
  Counted b g s' K =
      (w' : Progress) × (n' : ℕ) × (t' : Turn) × Grows w w'
      × SharedOk config w' turns n' s'
      × CoordStand config w' t' n'
      × ((w'.settled ≡ w.settled) × (w'.gave_up ≡ w.gave_up))
      × K w' t'

  taken :
      (r : RequestType) (rest : List RequestType) (n' : ℕ)
      → s.inbox config.coordinator ≡ r ∷ rest
      → n' + queued_votes rest ≤ n + queued_votes (r ∷ rest)
      → SharedOk config w turns n' (record s { inbox = update s.inbox config.coordinator rest })
  taken r rest n' e at = remail n' s.net (update s.inbox config.coordinator rest) (
      Mail.dequeued _ _ _ _ _ _ _ _ ok.mail config.coordinator r rest n' e (λ _. at)
        (λ x. absurd (x refl)))

  module _ (undecided : w.decision ≡ none) where
    counts_on :
        {s' : Shared} (n' : ℕ) (K : Progress → Turn → Type 0)
        → SharedOk config w turns n' s'
        → K w (counted n')
        → Counted false false s' K
    counts_on n' K o k =
        (w, n', counted n', Grows-refl w, o, inl (refl, undecided), (refl, refl), k)

    counting :
        (k : ℕ) (r : RequestType) (rest : List RequestType) (K : Follow (wait k))
        → s.inbox config.coordinator ≡ r ∷ rest
        → Told config w config.coordinator r
        → Permit config config.coordinator w (counted n) (wait k) K
        → Counted false false
            (record s { inbox = update s.inbox config.coordinator rest })
            (λ w' t'. K w' t' (some r))
    counting k RequestType.abort rest K e h p =
        counts_on n (λ w' t'. K w' t' (some RequestType.abort))
          (taken RequestType.abort rest n e (omega arith)) (p.2 w (Grows-refl w) h)
    counting k RequestType.commit rest K e h p =
        counts_on n (λ w' t'. K w' t' (some RequestType.commit))
          (taken RequestType.commit rest n e (omega arith)) (p.3 w (Grows-refl w) h)
    counting k RequestType.vote_yes rest K e h p =
        let after = taken RequestType.vote_yes rest (suc n) e (omega arith) in
        counts_on (suc n) (λ w' t'. K w' t' (some RequestType.vote_yes)) after
          (p.4 w (Grows-refl w) n refl (omega (arith, after.mail.counts)))
    counting k _ rest K e h p = absurd h

    -- The coordinator decides where it records so.
    deciding :
        (e : Bytes) (K : Follow (record_event e))
        → Permit config config.coordinator w (counted n) (record_event e) K
        → Counted false false s (λ w' t'. K w' t' tt)
    deciding e K (inl k) = counts_on n (λ w' t'. K w' t' tt) ok (k w (Grows-refl w))
    deciding e K (inr (m, d, q, g, k)) =
        let w' = record w { decision = some d } in
        let l = decided-Grows undecided in
        (w', n, fresh, l, grown l (λ p. refl) (λ p. refl), inr refl, (refl, refl), k w' l refl)

    pub coordinator_role : Role config config.coordinator w (counted n) s Counted
    coordinator_role = record {
      unchanged = λ K k. counts_on n K ok k;
      logged = λ m K l k. counts_on n K (relog m l) k;
      mailed = λ p K h z k. counts_on n K (pushed p h z) k;
      voted = λ p K e g f k. absurd (cc);
      received = λ k r rest K e p.
          counting k r rest K e
            (subst (All (Told config w config.coordinator)) e (ok.mail.queues config.coordinator)).0
            p;
      timed = λ k K p.
          let clash : counted n ≡ spent → ⊥ = λ e. absurd (cc) in
          (
            w,
            n,
            counted n,
            Grows-refl w,
            ok,
            inl (refl, undecided),
            (refl, refl),
            p.1 w (Grows-refl w) (λ e. absurd (clash e)),
          );
      noted = deciding;
      asked = λ c b K p. absurd (apart p.0);
    }

  -- The background thread does not wait.
  abbrev pub Behind : Bool → Bool → Shared → (Progress → Turn → Type 0) → Type 0
  Behind b g s' K = SharedOk config w turns n s' × K w fresh

  behind :
      (e : Bytes) (K : Follow (record_event e))
      → Permit config config.coordinator w fresh (record_event e) K
      → K w fresh tt
  behind e K (inl k) = k w (Grows-refl w)
  behind e K (inr (m, d, q, g, k)) = absurd (cc)

  pub background_role : Role config config.coordinator w fresh s Behind
  background_role = record {
    unchanged = λ K k. (ok, k);
    logged = λ m K l k. (relog m l, k);
    mailed = λ p K h z k. (pushed p h z, k);
    voted = λ p K e g f k. absurd (cc);
    received = λ k r rest K e p. absurd (p.0 refl);
    timed = λ k K p. absurd (p.0 refl);
    noted = λ e K p. (ok, behind e K p);
    asked = λ c b K p. absurd (apart p.0);
  }

  -- A thread has its own queue, which holds nothing but DECISIONCOMPLETED.
  module _ (t : Thread) (queue : All (λ r. r ≡ decision_completed) t.queue) where
    abbrev pub Beside : Bool → Bool → Shared → (Progress → Turn → Type 0) → Type 0
    Beside b g s' K =
        SharedOk config w turns n (rejoin s s')
        × All (λ r. r ≡ decision_completed) (s'.inbox t.host)
        × K w aside

    noted_aside :
        (e : Bytes) (K : Follow (record_event e))
        → Permit config t.host w aside (record_event e) K
        → K w aside tt
    noted_aside e K (inl k) = k w (Grows-refl w)
    noted_aside e K (inr (m, d, q, g, k)) = absurd (cc)

    pub thread_role : Role config t.host w aside (view s t) Beside
    thread_role = record {
      unchanged = λ K k. (ok, queue, k);
      logged = λ m K l k. (relog m l, queue, k);
      mailed = λ p K h z k. (pushed p h z, queue, k);
      voted = λ p K e g f k. absurd (cc);
      received = λ k r rest K e p.
          let (told, others) = subst (All (λ x. x ≡ decision_completed)) e queue in
          (
            ok,
            rw (update_self (view s t).inbox t.host rest) others,
            rw told (p.5 w (Grows-refl w) refl),
          );
      timed = λ k K p. (ok, queue, p.1 w (Grows-refl w) (λ e. absurd (cc)));
      noted = λ e K p. (ok, queue, noted_aside e K p);
      asked = λ c b K p. let clash : aside ≡ fresh = p.1 in absurd (cc);
    }
