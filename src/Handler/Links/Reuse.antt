-- ===== src/Handler/Links/Reuse.antt =====
-- A connection is opened once, and is there when it is used.
use cornus.Base.{
  ℕ, ◌+◌, ◌≤◌, ◌≡◌, refl, Option, none, some, Bytes-discrete, List, [], ◌∷◌, All, length, arith,
}
use cornus.Base.Dict.{empty, get, put, get-put}
use cornus.Config.Transaction.{HostId}
use cornus.Tcp.Client.{Network, TcpClient, built, new_client}
use cornus.Handler.Links.{
  Clients, emplace, find_or_emplace, client_for, add_client, then_rest, group_clients, only_clients,
  participant_clients, new_participant_clients, coordinator_client,
}

-- A client for the host can be built, whichever call of `socket` it makes.
abbrev pub IsReachable : Network → HostId → Type 0
IsReachable net host = (opened : ℕ) → (c : TcpClient) × (new_client net opened host ≡ built c)

-- All entries of the first map are in the second.
abbrev pub Keeps : Clients → Clients → Type 0
Keeps clients clients' =
    (host : HostId) (c : TcpClient)
    → get Bytes-discrete clients.entries host ≡ some c
    → get Bytes-discrete clients'.entries host ≡ some c

module _ (net : Network) where
  find-Keeps :
      (clients : Clients) (host : HostId) (o : Option TcpClient)
      → get Bytes-discrete clients.entries host ≡ o
      → IsReachable net host
      → (c : TcpClient) × (clients' : Clients) × (find_or_emplace net clients host o
          ≡ some (c, clients'))
        × Keeps clients clients'
        × (get Bytes-discrete clients'.entries host ≡ some c)
        × (clients'.opened ≤ clients.opened + 1)
  unfolding find_or_emplace emplace
  find-Keeps clients host none e r =
      let (c, b) = r clients.opened in
      (
        c,
        record { entries = put Bytes-discrete clients.entries host c; opened = clients.opened + 1 },
        rw b refl,
        (λ h d q. ground (arith, get-put Bytes-discrete clients.entries host h c)),
        ground (arith, get-put Bytes-discrete clients.entries host host c),
        omega arith,
      )
  find-Keeps clients host (some c) e r = (c, clients, refl, (λ h d q. q), e, omega arith)

  client_for-found :
      (clients : Clients) (host : HostId) (c : TcpClient)
      → get Bytes-discrete clients.entries host ≡ some c
      → client_for net clients host ≡ some (c, clients)
  unfolding client_for find_or_emplace
  client_for-found clients host c e = rw e refl

  -- A client for each host of a group can be built. Then a request to the group has a client for each
  -- host, and calls `socket` at most once for each; entries that are there stay. Every later request to
  -- the group, whatever the map has gained meanwhile, is made on the same clients with the same sockets
  -- and opens none: the map and the number of calls of `socket` stay as they are.
  pub group_clients-again :
      (clients : Clients) (group : List HostId)
      → All (IsReachable net) group
      → (cs : List TcpClient) × (clients' : Clients) × (group_clients net clients group
          ≡ some (cs, clients'))
        × Keeps clients clients'
        × (length cs ≡ length group)
        × (clients'.opened ≤ clients.opened + length group)
        × ((later : Clients)
            → Keeps clients' later
            → group_clients net later group ≡ some (cs, later))
  unfolding group_clients client_for then_rest add_client
  group_clients-again clients [] r =
      ([], clients, refl, (λ h c e. e), refl, omega arith, (λ later k. refl))
  group_clients-again clients (host ∷ group) (r, rs) =
      let (c, clients1, found, kept, here, few) =
        find-Keeps clients host (get Bytes-discrete clients.entries host) refl r in
      let (cs, clients2, rest, kept', same, few', again) = group_clients-again clients1 group rs in
      (
        c ∷ cs,
        clients2,
        rw (found, rest) refl,
        (λ h d e. kept' h d (kept h d e)),
        omega arith,
        omega arith,
        (λ later k. rw (k host c (kept' host c here), again later k) refl),
      )

-- A client for the coordinator can be built. Then the constructors of the participants of both versions
-- open it with one call of `socket`, and `sendToCoordinator` finds it.
participant_clients-coordinator :
    (net : Network) (opened : ℕ) (coordinator : HostId)
    → IsReachable net coordinator
    → (c : TcpClient) × (clients : Clients) × (participant_clients net opened coordinator
        ≡ some clients)
      × (new_participant_clients net opened coordinator ≡ some clients)
      × (clients.opened ≡ opened + 1)
      × (coordinator_client clients coordinator ≡ some c)
unfolding participant_clients new_participant_clients coordinator_client emplace only_clients
participant_clients-coordinator net opened coordinator r =
    let (c, b) = r opened in
    (
      c,
      record {
        entries = put Bytes-discrete (empty {K = HostId} {V = TcpClient}) coordinator c;
        opened = opened + 1;
      },
      rw b refl,
      rw b refl,
      refl,
      ground (
        arith,
        get-put Bytes-discrete (empty {K = HostId} {V = TcpClient}) coordinator coordinator c,
      ),
    )
