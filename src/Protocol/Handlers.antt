-- ===== src/Protocol/Handlers.antt =====
-- When the handlers of the paper's version are safe: sending to a group, and the termination protocol.
pub mod Coordinator
pub mod Participant
use cornus.Base.{
  ℕ, ◌≤◌, ◌≢◌, length, ℕ, zero, suc, ◌≤◌, ◌+◌, String, ◌≡◌, refl, subst, Option, none, some, List,
  [], ◌∷◌, All, arith, inl, inr, length, Bytes, Bool-cases, eqb,
}
use native.Mathlib.Numerals.{add-one}
use cornus.Config.Transaction.{HostId, TransactionConfig, config_to_string}
use cornus.Handler.Prog.{RequestType, Packet, wait, Prog, act, ◌>>=◌, bind_assoc}
use cornus.Handler.Sender.{Sender, group_packet, send_group}
use cornus.Handler.Paper.{
  termination_loop, receive_vote, continue_voting, voting, announce, coordinator, execution,
  finish_decision, apply_decision, refuse, participant,
}
use cornus.Protocol.System.{In, request_type}
use cornus.Protocol.World.{
  World, Later, yes_vote, Turn, counted, fresh, spent, tally, AllYes, SomeVeto, Legit, MaySend,
  Safe,
}
use cornus.Protocol.World.Mono.{
  Later-refl, Later-trans, tally-full, tally_mono, AllYes-mono, SomeVeto-mono, Legit-mono,
}

-- What a sender must know to pass a decision on.
abbrev Announces : TransactionConfig → World → HostId → Option RequestType → Type 0
Announces config w h none = Unit
Announces config w h (some RequestType.abort) = SomeVeto config w
Announces config w h (some RequestType.commit) = AllYes config w × (h ≢ config.coordinator)
Announces config w h (some _) = ⊥

module _ (s : Sender) where
  abbrev config : TransactionConfig
  config = s.config

  abbrev me : HostId
  me = s.hostname

  module _ {A : Type 0} (Post : World → A → Type 0) where
    -- `SafeFrom w t m`: safe now and whatever is settled meanwhile.
    abbrev SafeFrom : World → Turn → Prog A → Type 0
    SafeFrom w t m = (w' : World) → Later w w' → Safe config me Post w' t m

    announce_safe :
        (w : World) (t : Turn) (p : Packet) (m : Prog A) (o : Option RequestType)
        → Announces config w p.to o
        → SafeFrom w t m
        → MaySend config me w t p (λ t'. SafeFrom w t' m) o
    announce_safe w t p m none a h = h
    announce_safe w t p m (some RequestType.abort) a h = (a, h)
    announce_safe w t p m (some RequestType.commit) a h = (a.0, a.1, h)
    announce_safe w t p m (some _) a h = absurd a

    group_safe :
        (e : String) (c : Bytes) (w : World) (t : Turn) (f : Unit {0} → Prog A)
        → ((w' : World)
            → Later w w'
            → (h : HostId) → h ≢ config.coordinator
            → Announces config w' h (request_type e))
        → SafeFrom w t (f tt)
        → (group : List HostId) → ((h : HostId) → In h group → h ≢ config.coordinator)
        → SafeFrom w t (send_group s e c group >>= f)
    unfolding send_group
    group_safe e c w t f allowed rest [] far = rest
    group_safe e c w t f allowed rest (h ∷ group) far = λ w' l.
        announce_safe w' t (group_packet s e c h) (send_group s e c group >>= f) (request_type e)
          (allowed w' l h (far h (inl refl)))
          (λ w'' m.
            group_safe e c w t f allowed rest group (λ x i. far x (inr i)) w'' (Later-trans l m))

    -- The loop of `terminationProtocol`, with what follows it: whatever the logs answer, the decision is
    -- justified.
    termination-Safe :
        (t : Turn) (f : String → Prog A) (w : World)
        → ((w' : World)
            → Later w w'
            → (d : String) → Legit config w' d
            → Safe config me Post w' t (f d))
        → (ps : List HostId) → ((h : HostId) → In h ps → In h config.participants)
        → ((w' : World) → Later w w' → All (λ p. w'.verdict p ≡ yes_vote) ps → AllYes config w')
        → SafeFrom w t (termination_loop s ps >>= f)
    unfolding termination_loop
    termination-Safe t f w next [] among full =
        λ w' l. next w' l "COMMIT" (inl (refl, full w' l tt))
    termination-Safe t f w next (p ∷ ps) among full = λ w' l. inl (
      p,
      refl,
      among p (inl refl),
      refl,
      λ w'' m r reply. elim reply [
        | inl legit ↦ elim legit [
          | inl (e, h) ↦ rw e (next w'' (Later-trans l m) "COMMIT" (inl (refl, h)))
          | inr (e, h) ↦ rw e (next w'' (Later-trans l m) "ABORT" (inr (refl, h)))
        ]
        | inr (e, y) ↦ rw e (
            termination-Safe t f w'' (λ v n d g. next v (Later-trans l (Later-trans m n)) d g) ps
              (λ h i. among h (inr i))
              (λ v n ys. full v (Later-trans l (Later-trans m n)) (n.yes_stays p y, ys)) w''
              (Later-refl w''))
      ],
    )

-- A decision of the coordinator is justified; it has none only where its fuel is not more than the
-- participants.
abbrev pub CoordPost : TransactionConfig → ℕ → World → Option String → Type 0
CoordPost c fuel w none = fuel ≤ length c.participants
CoordPost c fuel w (some d) = Legit c w d

Legit-Announces :
    (config : TransactionConfig) (w : World) (d : String)
    → Legit config w d
    → (h : HostId) → h ≢ config.coordinator
    → Announces config w h (request_type d)
unfolding request_type
Legit-Announces config w d (inl (e, y)) h n = rw e (y, n)
Legit-Announces config w d (inr (e, v)) h n = rw e v
