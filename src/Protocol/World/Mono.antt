-- ===== src/Protocol/World/Mono.antt =====
-- What is justified stays justified, and what is safe stays safe, as more is settled.
use cornus.Base.{◌≤◌, String, ◌≡◌, Option, none, some, List, [], ◌∷◌, All, arith, inl, inr, length}
use cornus.Config.Transaction.{HostId, TransactionConfig}
use cornus.Handler.Prog.{
  RequestType, Packet, Cmd, log_once, log_write, log_read, send, set_timeout_start, wait,
  vote_request, work_commit, record_event, Prog, ret, crash, act,
}
use cornus.Protocol.System.{request_type}
pub use cornus.Protocol.Mail.{All-mono}
use cornus.Protocol.World.{
  World, Later, yes_vote, Turn, spent, tally, AllYes, SomeVeto, Legit, MaySend, Permit, Safe,
  Follow,
}

pub Later-refl : (w : World) → Later w w
Later-refl w = record { yes_stays = λ p h. h; veto_stays = λ p h. h; sent_stays = λ p h. h }

pub Later-trans : {u v w : World} → Later u v → Later v w → Later u w
Later-trans a b = record {
  yes_stays = λ p h. b.yes_stays p (a.yes_stays p h);
  veto_stays = λ p h. b.veto_stays p (a.veto_stays p h);
  sent_stays = λ p h. b.sent_stays p (a.sent_stays p h);
}

pub tally_mono : {v w : World} → Later v w → (ps : List HostId) → tally v ps ≤ tally w ps
unfolding tally
tally_mono l [] = omega arith
tally_mono l (p ∷ ps) = ground (arith, l.sent_stays p, tally_mono l ps)

pub tally-le : (w : World) (ps : List HostId) → tally w ps ≤ length ps
unfolding tally
tally-le w [] = omega arith
tally-le w (p ∷ ps) = ground (arith, tally-le w ps)

-- If every participant has sent its vote, every vote is a yes.
pub tally-full :
    (w : World) (ps : List HostId) → length ps ≤ tally w ps → All (λ p. w.verdict p ≡ yes_vote) ps
unfolding tally
tally-full w [] h = tt
tally-full w (p ∷ ps) h =
    (ground (arith, w.honest p, tally-le w ps), tally-full w ps (ground (arith, tally-le w ps)))

module _ (config : TransactionConfig) {v w : World} (l : Later v w) where
  pub AllYes-mono : AllYes config v → AllYes config w
  AllYes-mono = All-mono l.yes_stays config.participants

  pub SomeVeto-mono : SomeVeto config v → SomeVeto config w
  SomeVeto-mono (p, i, h) = (p, i, l.veto_stays p h)

  pub Legit-mono : (d : String) → Legit config v d → Legit config w d
  Legit-mono d (inl (e, h)) = inl (e, AllYes-mono h)
  Legit-mono d (inr (e, h)) = inr (e, SomeVeto-mono h)

  MaySend-mono :
      (me : HostId) (t : Turn) (p : Packet) (o : Option RequestType) (J K : Turn → Type 0)
      → ((t' : Turn) → J t' → K t')
      → MaySend config me v t p J o
      → MaySend config me w t p K o
  MaySend-mono me t p none J K f h = f t h
  MaySend-mono me t p (some RequestType.abort) J K f h = (SomeVeto-mono h.0, f t h.1)
  MaySend-mono me t p (some RequestType.commit) J K f h = (AllYes-mono h.0, h.1, f t h.2)
  MaySend-mono me t p (some RequestType.vote_yes) J K f h = (h.0, h.1, h.2, f spent h.3)
  MaySend-mono me t p (some _) J K f h = h

  Permit-mono :
      (me : HostId) (t : Turn) (c : Cmd) (K : Follow config c)
      → Permit config me v t c K
      → Permit config me w t c K
  Permit-mono me t (log_once d a) K (inl (h, e, i, q, f)) =
      inl (h, e, i, q, λ w' m. f w' (Later-trans l m))
  Permit-mono me t (log_once d a) K (inr (e, q, g, f, n)) =
      inr (e, q, g, (λ w' m. f w' (Later-trans l m)), (λ w' m. n w' (Later-trans l m)))
  Permit-mono me t (log_write d a) K (e, i, q, y, g, f) =
      (e, i, q, l.yes_stays me y, Legit-mono d g, λ w' m. f w' (Later-trans l m))
  Permit-mono me t (log_read a) K h = h
  Permit-mono me t (send p) K h =
      MaySend-mono me t p (request_type p.endpoint) (λ t'. (w' : World) → Later v w' → K w' t' tt)
        (λ t'. (w' : World) → Later w w' → K w' t' tt) (λ t' f w' m. f w' (Later-trans l m)) h
  Permit-mono me t set_timeout_start K f = λ w' m. f w' (Later-trans l m)
  Permit-mono me t (wait n) K (f, g, h, k) = (
    (λ w' m. f w' (Later-trans l m)),
    (λ w' m. g w' (Later-trans l m)),
    (λ w' m. h w' (Later-trans l m)),
    (λ w' m. k w' (Later-trans l m)),
  )
  Permit-mono me t (vote_request c) K (e, f, g) =
      (e, (λ w' m. f w' (Later-trans l m)), (λ w' m. g w' (Later-trans l m)))
  Permit-mono me t (work_commit h) K (y, f) = (AllYes-mono y, λ w' m. f w' (Later-trans l m))
  Permit-mono me t (record_event e) K f = λ w' m. f w' (Later-trans l m)

  pub Safe-mono :
      (me : HostId) {A : Type 0} (Post : World → A → Type 0)
      → ((a : A) → Post v a → Post w a)
      → (t : Turn) (m : Prog A) → Safe config me Post v t m
      → Safe config me Post w t m
  Safe-mono me Post mono t (ret a) h = mono a h
  Safe-mono me Post mono t crash h = h
  Safe-mono me Post mono t (act c k) h = Permit-mono me t c _ h
