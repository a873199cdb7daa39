-- ===== src/Protocol/Invariant/Messages.antt =====
-- Messages on the way: sent, delivered, lost and taken from a queue.
use cornus.Base.{ℕ, ◌≤◌, ◌+◌, ◌≡◌, ◌≢◌, subst, some, List, ◌∷◌, ◌++◌}
use cornus.Config.Transaction.{HostId, TransactionConfig}
use cornus.Handler.Prog.{RequestType, Packet}
use cornus.Protocol.System.{update, Shared, request_type, deliver}
use cornus.Protocol.World.{World, Turn, tally}
use cornus.Protocol.Mail.{MailOk, one_vote, queued_votes}
use cornus.Protocol.Mail
use cornus.Protocol.Invariant.{Tells, PacketOk, SharedOk}

module _ (config : TransactionConfig) (w : World) (turns : HostId → Turn) (votes : ℕ)
    (s : Shared) where
  abbrev Mails : ℕ → List Packet → (HostId → List RequestType) → Type 0
  Mails =
      MailOk request_type (PacketOk config w) (λ h r. Tells config w h (some r)) config.coordinator
        (tally w config.participants)

  mail : SharedOk config w turns votes s → Mails votes s.net s.inbox
  mail ok = record { packets = ok.packets; queues = ok.queues; counts = ok.counts }

  remail :
      (votes' : ℕ) (net : List Packet) (inbox : HostId → List RequestType)
      → SharedOk config w turns votes s
      → Mails votes' net inbox
      → SharedOk config w turns votes' (record s { net = net; inbox = inbox })
  remail votes' net inbox ok m = record {
    seats = ok.seats;
    packets = m.packets;
    queues = m.queues;
    counts = m.counts;
  }

  pub pushed :
      (p : Packet)
      → PacketOk config w p
      → one_vote (request_type p.endpoint) ≡ 0
      → SharedOk config w turns votes s
      → SharedOk config w turns votes (record s { net = p ∷ s.net })
  pushed p h z ok =
      remail votes (p ∷ s.net) s.inbox ok (Mail.pushed _ _ _ _ _ _ _ _ (mail ok) p h z)

  pub dequeued :
      (h : HostId) (r : RequestType) (rest : List RequestType) (votes' : ℕ)
      → s.inbox h ≡ r ∷ rest
      → (h ≡ config.coordinator → votes' + queued_votes rest ≤ votes + queued_votes (r ∷ rest))
      → (h ≢ config.coordinator → votes' ≤ votes)
      → SharedOk config w turns votes s
      → SharedOk config w turns votes' (record s { inbox = update s.inbox h rest })
  dequeued h r rest votes' e at off ok =
      remail votes' s.net (update s.inbox h rest) ok
        (Mail.dequeued _ _ _ _ _ _ _ _ (mail ok) h r rest votes' e at off)

  pub removed :
      (xs ys : List Packet) (p : Packet)
      → s.net ≡ xs ++ p ∷ ys
      → SharedOk config w turns votes s
      → SharedOk config w turns votes (record s { net = xs ++ ys })
  removed xs ys p e ok =
      remail votes (xs ++ ys) s.inbox ok (Mail.removed _ _ _ _ _ _ _ _ (mail ok) xs ys p e).1

  pub delivered :
      (xs ys : List Packet) (p : Packet)
      → s.net ≡ xs ++ p ∷ ys
      → SharedOk config w turns votes s
      → SharedOk config w turns votes
          (record s { net = xs ++ ys; inbox = deliver p (request_type p.endpoint) s.inbox })
  delivered xs ys p e ok =
      remail votes (xs ++ ys) (deliver p (request_type p.endpoint) s.inbox) ok (
        Mail.delivered _ _ _ _ _ _ _ _ (mail ok) (λ q t r g. subst (Tells config w q.to) g t) xs ys
          p e)
