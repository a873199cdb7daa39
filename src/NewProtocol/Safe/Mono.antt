-- ===== src/NewProtocol/Safe/Mono.antt =====
-- What is safe stays safe, and what a message says stays true, as more workers accept.
use cornus.Base.{String, ◌≡◌, Option, none, some, inl, inr, subst}
use cornus.Config.Transaction.{HostId, TransactionConfig}
use cornus.Handler.Prog.{
  RequestType, Packet, Cmd, log_once, log_write, log_read, send, set_timeout_start, wait,
  vote_request, work_commit, record_event, Prog, ret, crash, act,
}
use cornus.Node.Handlers.{
  Kind, MapName, handlers, Callback, on_new_request, on_old_request, callback,
}
use cornus.Protocol.World.{Turn}
use cornus.Protocol.World.Mono.{AllYes-mono}
use cornus.NewProtocol.Progress.{Progress, Grows, Follow, Grows-trans, Committed-mono}
use cornus.NewProtocol.System.{handlers_message}
use cornus.NewProtocol.Safe.{
  Sound, MayDecide, Decided, Told, Arriving, Conveys, MaySend, Permit, Safe,
}

module _ (config : TransactionConfig) {v w : Progress} (l : Grows v w) where
  pub Sound-mono : (d : String) → Sound config v d → Sound config w d
  Sound-mono d (inl (e, h)) = inl (e, Committed-mono config l h)
  Sound-mono d (inr e) = inr e

  MayDecide-mono : (d : String) → MayDecide config v d → MayDecide config w d
  MayDecide-mono d (inl (e, y)) = inl (e, AllYes-mono config l.settled_grows y)
  MayDecide-mono d (inr e) = inr e

  pub Decided-mono : (d : String) → Decided config v d → Decided config w d
  Decided-mono d (inl (e, h)) = inl (e, Committed-mono config l h)
  Decided-mono d (inr (e, h)) = inr (e, l.decision_stays "ABORT" h)

  pub Told-mono : (h : HostId) (r : RequestType) → Told config v h r → Told config w h r
  Told-mono h RequestType.abort (inl e) = inl e
  Told-mono h RequestType.abort (inr e) = inr (l.decision_stays "ABORT" e)
  Told-mono h RequestType.commit t = Committed-mono config l t
  Told-mono h RequestType.vote_yes t = t
  Told-mono h _ t = t

  Arriving-mono :
      (h : HostId) (r : RequestType) (m : MapName)
      → Arriving config v h r m
      → Arriving config w h r m
  Arriving-mono h r handlers t = Told-mono h r t
  Arriving-mono h r MapName.replicators t = t
  Arriving-mono h r MapName.committers t = t

  pub Conveys-mono :
      (h : HostId) (c : Option Callback) → Conveys config v h c → Conveys config w h c
  Conveys-mono h none t = t
  Conveys-mono h (some (on_old_request r m)) t = Arriving-mono h r m t
  Conveys-mono h (some (on_new_request Kind.replicator_kind r m)) t = Committed-mono config l t
  Conveys-mono h (some (on_new_request Kind.committer_kind r m)) t = Committed-mono config l t
  Conveys-mono h (some (on_new_request Kind.participant_kind r m)) t = t
  Conveys-mono h (some (on_new_request Kind.coordinator_kind r m)) t = t

  MaySend-mono :
      (t : Turn) (p : Packet) (J K : Turn → Type 0)
      → ((t' : Turn) → J t' → K t')
      → MaySend config v t p J
      → MaySend config w t p K
  MaySend-mono t p J K f (inl (c, z, k)) = inl (Conveys-mono p.to (callback p.endpoint) c, z, f t k)
  MaySend-mono t p J K f (inr (c, e, g, k)) = inr (c, e, g, f _ k)

  Permit-mono :
      (me : HostId) (t : Turn) (c : Cmd) (K : Follow c)
      → Permit config me v t c K
      → Permit config me w t c K
  Permit-mono me t (log_once d a) K h = h
  Permit-mono me t (log_write d a) K (e, g, f) = (e, Sound-mono d g, λ w' m. f w' (Grows-trans l m))
  Permit-mono me t (log_read a) K (e, f) = (e, λ w' m. f w' (Grows-trans l m))
  Permit-mono me t (send p) K h =
      MaySend-mono t p (λ t'. (w' : Progress) → Grows v w' → K w' t' tt)
        (λ t'. (w' : Progress) → Grows w w' → K w' t' tt) (λ t' f w' m. f w' (Grows-trans l m)) h
  Permit-mono me t set_timeout_start K f = λ w' m. f w' (Grows-trans l m)
  Permit-mono me t (wait n) K (z, f, g, h, k, d) = (
    z,
    (λ w' m. f w' (Grows-trans l m)),
    (λ w' m. g w' (Grows-trans l m)),
    (λ w' m. h w' (Grows-trans l m)),
    (λ w' m. k w' (Grows-trans l m)),
    (λ w' m. d w' (Grows-trans l m)),
  )
  Permit-mono me t (vote_request c) K (i, e, f, g) =
      (i, e, (λ w' m. f w' (Grows-trans l m)), (λ w' m. g w' (Grows-trans l m)))
  Permit-mono me t (work_commit h) K (y, f) =
      (Committed-mono config l y, λ w' m. f w' (Grows-trans l m))
  Permit-mono me t (record_event e) K (inl f) = inl (λ w' m. f w' (Grows-trans l m))
  Permit-mono me t (record_event e) K (inr (n, d, q, g, f)) =
      inr (n, d, q, MayDecide-mono d g, λ w' m. f w' (Grows-trans l m))

  pub Safe-mono :
      (me : HostId) {A : Type 0} (Post : Progress → A → Type 0)
      → ((a : A) → Post v a → Post w a)
      → (t : Turn) (m : Prog A) → Safe config me Post v t m
      → Safe config me Post w t m
  Safe-mono me Post mono t (ret a) h = mono a h
  Safe-mono me Post mono t crash h = h
  Safe-mono me Post mono t (act c k) h = Permit-mono me t c _ h

-- A message for a handler says what its packet does.
pub Conveys-Told :
    (config : TransactionConfig) (w : Progress) (h : HostId) (c : Option Callback) (r : RequestType)
    → Conveys config w h c
    → handlers_message c ≡ some r
    → Told config w h r
unfolding handlers_message
Conveys-Told config w h none r t e = absurd (cc)
Conveys-Told config w h (some (on_new_request k q m)) r t e = absurd (cc)
Conveys-Told config w h (some (on_old_request q handlers)) r t e =
    let same : q ≡ r = cc in subst (Told config w h) same t
Conveys-Told config w h (some (on_old_request q MapName.replicators)) r t e = absurd (cc)
Conveys-Told config w h (some (on_old_request q MapName.committers)) r t e = absurd (cc)
