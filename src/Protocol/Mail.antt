-- ===== src/Protocol/Mail.antt =====
-- Messages under way and in the queues, and the votes among them: sent, delivered, lost and taken from
-- a queue. What a message or a queue must satisfy, and which endpoints reach a running handler, are
-- parameters.
use cornus.Base.{
  ℕ, ◌≤◌, ◌+◌, String, ◌≡◌, ◌≢◌, refl, subst, ap, Option, none, some, List, [], ◌∷◌, ◌++◌, All,
  All-append, arith, Bytes-discrete,
}
use cornus.Config.Transaction.{HostId}
use cornus.Handler.Prog.{RequestType, Packet}
use cornus.Protocol.System.{update, update_eq, update_ne, deliver}

abbrev pub one_vote : Option RequestType → ℕ
one_vote (some RequestType.vote_yes) = 1
one_vote _ = 0

-- The votes that are in a queue, and those under way.
abbrev pub queued_votes : List RequestType → ℕ
queued_votes [] = 0
queued_votes (r ∷ rs) = one_vote (some r) + queued_votes rs

abbrev pub net_votes : (String → Option RequestType) → List Packet → ℕ
net_votes msg [] = 0
net_votes msg (p ∷ ps) = one_vote (msg p.endpoint) + net_votes msg ps

pub All-remove :
    (P : Packet → Type 0) (xs ys : List Packet) (p : Packet)
    → All P (xs ++ p ∷ ys)
    → P p × All P (xs ++ ys)
All-remove P [] ys p h = h
All-remove P (x ∷ xs) ys p h = let (a, b) = All-remove P xs ys p h.1 in (a, (h.0, b))

pub All-mono {ℓ} :
    {A : Type ℓ} {P Q : A → Type 0} → ((a : A) → P a → Q a) → (xs : List A) → All P xs → All Q xs
All-mono f [] h = tt
All-mono f (x ∷ xs) h = (f x h.0, All-mono f xs h.1)

queued_votes-append :
    (rs : List RequestType) (r : RequestType)
    → queued_votes (rs ++ r ∷ []) ≡ queued_votes rs + one_vote (some r)
queued_votes-append [] r = omega arith
queued_votes-append (x ∷ rs) r = omega (arith, queued_votes-append rs r)

-- `votes` have been counted at `c`, and `bound` have been sent.
pub record MailOk (msg : String → Option RequestType) (P : Packet → Type 0)
    (Q : HostId → RequestType → Type 0) (c : HostId) (bound votes : ℕ) (net : List Packet)
    (inbox : HostId → List RequestType) : Type 0 where
  pub packets : All P net
  pub queues : (h : HostId) → All (Q h) (inbox h)
  pub counts : votes + queued_votes (inbox c) + net_votes msg net ≤ bound

pub MailOk-mono :
    {msg : String → Option RequestType} {P P' : Packet → Type 0}
    {Q Q' : HostId → RequestType → Type 0} {c : HostId} {bound bound' votes : ℕ} {net : List Packet}
    {inbox : HostId → List RequestType}
    → ((p : Packet) → P p → P' p)
    → ((h : HostId) (r : RequestType) → Q h r → Q' h r)
    → bound ≤ bound'
    → MailOk msg P Q c bound votes net inbox
    → MailOk msg P' Q' c bound' votes net inbox
MailOk-mono {net = net} {inbox = inbox} f g h ok = record {
  packets = All-mono f net ok.packets;
  queues = λ q. All-mono (g q) (inbox q) (ok.queues q);
  counts = omega (arith, ok.counts, h);
}

module _ (msg : String → Option RequestType) (P : Packet → Type 0)
    (Q : HostId → RequestType → Type 0) (c : HostId) (bound votes : ℕ) (net : List Packet)
    (inbox : HostId → List RequestType) (ok : MailOk msg P Q c bound votes net inbox) where
  net_votes-remove :
      (xs ys : List Packet) (p : Packet)
      → net_votes msg (xs ++ p ∷ ys) ≡ one_vote (msg p.endpoint) + net_votes msg (xs ++ ys)
  net_votes-remove [] ys p = refl
  net_votes-remove (x ∷ xs) ys p = omega (arith, net_votes-remove xs ys p)

  -- Not a vote.
  pub pushed :
      (p : Packet)
      → P p
      → one_vote (msg p.endpoint) ≡ 0
      → MailOk msg P Q c bound votes (p ∷ net) inbox
  pushed p h z = record {
    packets = (h, ok.packets);
    queues = ok.queues;
    counts = omega (arith, ok.counts, z);
  }

  -- The queue of `h` without its first message.
  pub dequeued :
      (h : HostId) (r : RequestType) (rest : List RequestType) (votes' : ℕ)
      → inbox h ≡ r ∷ rest
      → (h ≡ c → votes' + queued_votes rest ≤ votes + queued_votes (r ∷ rest))
      → (h ≢ c → votes' ≤ votes)
      → MailOk msg P Q c bound votes' net (update inbox h rest)
  dequeued h r rest votes' e at off = record {
    packets = ok.packets;
    queues = λ q. elim (Bytes-discrete h q) [
      | yes g ↦
          rw (update_eq inbox h rest q g)
            (subst (All (Q q)) (subst (λ x. inbox x ≡ r ∷ rest) g e) (ok.queues q)).1
      | no n ↦ rw (update_ne inbox h rest q n) (ok.queues q)
    ];
    counts = elim (Bytes-discrete h c) [
      | yes g ↦ omega (
        arith,
        at g,
        ok.counts,
        ap queued_votes (update_eq inbox h rest c g),
        ap queued_votes (subst (λ x. inbox x ≡ r ∷ rest) g e),
      )
      | no n ↦ omega (arith, off n, ok.counts, ap queued_votes (update_ne inbox h rest c n))
    ];
  }

  pub removed :
      (xs ys : List Packet) (p : Packet)
      → net ≡ xs ++ p ∷ ys
      → P p × MailOk msg P Q c bound votes (xs ++ ys) inbox
  removed xs ys p e =
      let (mine, others) = All-remove P xs ys p (subst (All P) e ok.packets) in
      (
        mine,
        record {
          packets = others;
          queues = ok.queues;
          counts = omega (arith, ok.counts, ap (net_votes msg) e, net_votes-remove xs ys p);
        },
      )

  -- A message joins the queue of its receiver.
  enqueued :
      (p : Packet) (net' : List Packet) (o : Option RequestType)
      → ((r : RequestType) → o ≡ some r → Q p.to r)
      → votes + queued_votes (inbox c) + one_vote o + net_votes msg net' ≤ bound
      → All P net'
      → MailOk msg P Q c bound votes net' (deliver p o inbox)
  unfolding deliver
  enqueued p net' none t h n = record { packets = n; queues = ok.queues; counts = omega (arith, h) }
  enqueued p net' (some r) t h n =
      let longer = inbox p.to ++ r ∷ [] in
      record {
        packets = n;
        queues = λ q. elim (Bytes-discrete p.to q) [
          | yes g ↦ rw (update_eq inbox p.to longer q g) (
              subst (λ x. All (Q x) longer) g
                (All-append _ (inbox p.to) (r ∷ []) (ok.queues p.to) (t r refl, tt)))
          | no f ↦ rw (update_ne inbox p.to longer q f) (ok.queues q)
        ];
        counts = elim (Bytes-discrete p.to c) [
          | yes g ↦ omega (
            arith,
            h,
            ap queued_votes (update_eq inbox p.to longer c g),
            queued_votes-append (inbox p.to) r,
            ap (λ x. queued_votes (inbox x)) g,
          )
          | no f ↦ omega (arith, h, ap queued_votes (update_ne inbox p.to longer c f))
        ];
      }

  pub delivered :
      ((p : Packet) → P p → (r : RequestType) → msg p.endpoint ≡ some r → Q p.to r)
      → (xs ys : List Packet) (p : Packet) → net ≡ xs ++ p ∷ ys
      → MailOk msg P Q c bound votes (xs ++ ys) (deliver p (msg p.endpoint) inbox)
  delivered tells xs ys p e =
      let (mine, others) = All-remove P xs ys p (subst (All P) e ok.packets) in
      enqueued p (xs ++ ys) (msg p.endpoint) (tells p mine)
        (omega (arith, ok.counts, ap (net_votes msg) e, net_votes-remove xs ys p)) others
