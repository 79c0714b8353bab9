-- ===== src/Dht/PeerStore/Laws.antt =====
-- internal/dht/peerstore.go: what `Get` shows after `Add` and after `Expire`.
use mathlib.Core.Path.{subst}
use jelly_torrent.Peer.Addr.{AddrPort, same_addr, same_addr_sound}
use jelly_torrent.Base.{
  ℕ, ◌+◌, ◌-◌, ◌<◌, ◌≡◌, ◌⊎◌, refl, sym, ap, inl, inr, false, none, some, List, [], ◌∷◌, Bytes,
  bytes_eq, bytes_eq_sound, arith, length, ◌==◌, Bool-cases,
}
use jelly_torrent.Base.Assoc.{Assoc, find, find-store, find-store_ne, Distinct, store-Distinct}
use jelly_torrent.Dht.PeerStore.{
  StoredPeer, PeerStore, add_peer, peers_of, add, is_alive, alive_addrs, get, keep_alive,
  expire_all, expire, count_all, count,
}

abbrev pub IsListed : AddrPort → List AddrPort → Type 0
IsListed a [] = ⊥
IsListed a (b ∷ bs) = (a ≡ b) ⊎ IsListed a bs

-- The address of a peer that was added at `now`, at a later time within the time to live.
add_peer-IsListed :
    (addr : AddrPort) (ttl now later : ℕ) (ps : List StoredPeer)
    → later - now < ttl
    → IsListed addr (alive_addrs ttl later (add_peer addr now ps))
unfolding alive_addrs add_peer
add_peer-IsListed addr ttl now later [] h = ground arith
add_peer-IsListed addr ttl now later (p ∷ ps) h = elim (Bool-cases (same_addr p.addr addr)) [
  | inl e ↦ ground (arith, same_addr_sound p.addr addr e)
  | inr e ↦ elim (Bool-cases (is_alive ttl later p)) [
    | inl e' ↦ rw (e, e') (inr (add_peer-IsListed addr ttl now later ps h))
    | inr e' ↦ rw (e, e') (add_peer-IsListed addr ttl now later ps h)
  ]
]

-- An address that was added is among those that `Get` gives for its infohash until the time to live has passed, and those of every other infohash stay the same.
pub get-add :
    (info_hash other : Bytes) (addr : AddrPort) (now later : ℕ) (ps : PeerStore)
    → later - now < ps.ttl
    → IsListed addr (get info_hash later (add info_hash addr now ps))
      × (bytes_eq info_hash other ≡ false
          → get other later (add info_hash addr now ps) ≡ get other later ps)
unfolding get add
get-add info_hash other addr now later ps h =
    let more = add_peer addr now (peers_of info_hash ps.peers) in
    (
      subst (λ o. IsListed addr (alive_addrs ps.ttl later (elim o [ none ↦ [] | some qs ↦ qs ])))
          (sym (find-store info_hash more ps.peers))
          (add_peer-IsListed addr ps.ttl now later (peers_of info_hash ps.peers) h),
      λ ne.
          ap (λ o. alive_addrs ps.ttl later (elim o [ none ↦ [] | some qs ↦ qs ]))
            (find-store_ne info_hash other more ps.peers ne),
    )

keep_alive-lem :
    (ttl now : ℕ) (ps : List StoredPeer)
    → (alive_addrs ttl now (keep_alive ttl now ps).0 ≡ alive_addrs ttl now ps)
      × (length (keep_alive ttl now ps).0 + (keep_alive ttl now ps).1 ≡ length ps)
unfolding alive_addrs keep_alive
keep_alive-lem ttl now [] = (refl, refl)
keep_alive-lem ttl now (p ∷ ps) =
    let (same, sum) = keep_alive-lem ttl now ps in
    elim (Bool-cases (is_alive ttl now p)) [
      | inl e ↦ rw (e, alive_addrs, e) (ap (λ t. p.addr ∷ t) same, omega arith)
      | inr e ↦ rw e (same, omega arith)
    ]

expire_all-count :
    (ttl now : ℕ) (m : Assoc (List StoredPeer))
    → count_all (expire_all ttl now m).0 + (expire_all ttl now m).1 ≡ count_all m
unfolding count_all expire_all
expire_all-count ttl now [] = refl
expire_all-count ttl now ((k, ps) ∷ m) =
    ground (arith, expire_all-count ttl now m, (keep_alive-lem ttl now ps).1)

-- `Expire` returns the number of entries that it removed.
pub count-expire :
    (now : ℕ) (ps : PeerStore) → count (expire now ps).1 + (expire now ps).0 ≡ count ps
unfolding count expire
count-expire now ps = expire_all-count ps.ttl now ps.peers

expire_all-none :
    (ttl now : ℕ) (k : Bytes) (m : Assoc (List StoredPeer))
    → find k m ≡ none
    → find k (expire_all ttl now m).0 ≡ none
unfolding find expire_all
expire_all-none ttl now k [] h = refl
expire_all-none ttl now k ((j, ps) ∷ m) h = ground (arith, expire_all-none ttl now k m)

nothing_alive : (ttl now : ℕ) (ps : List StoredPeer) → length ps ≡ 0 → alive_addrs ttl now ps ≡ []
unfolding alive_addrs
nothing_alive ttl now [] h = refl
nothing_alive ttl now (p ∷ ps) h = absurd (omega arith)

peers_of-expire_all :
    (ttl now : ℕ) (k : Bytes) (m : Assoc (List StoredPeer))
    → Distinct m
    → alive_addrs ttl now (peers_of k (expire_all ttl now m).0) ≡ alive_addrs ttl now (peers_of k m)
unfolding find expire_all
peers_of-expire_all ttl now k [] d = refl
peers_of-expire_all ttl now k ((j, ps) ∷ m) (d, ds) = elim (Bool-cases (bytes_eq j k)) [
  | inl e ↦
      let gone : find k m ≡ none = subst (λ i. find i m ≡ none) (bytes_eq_sound j k e) d in
      let same = (keep_alive-lem ttl now ps).0 in
      ground (
        arith,
        expire_all-none ttl now k m gone,
        nothing_alive ttl now (keep_alive ttl now ps).0,
        nothing_alive ttl now [] refl,
      )
  | inr e ↦ ground (arith, peers_of-expire_all ttl now k m ds)
]

-- `Expire` changes nothing that `Get` shows at that time, where each infohash has one entry.
pub get-expire :
    (info_hash : Bytes) (now : ℕ) (ps : PeerStore)
    → Distinct ps.peers
    → get info_hash now (expire now ps).1 ≡ get info_hash now ps
unfolding get expire
get-expire info_hash now ps d = peers_of-expire_all ps.ttl now info_hash ps.peers d

expire_all-Distinct :
    (ttl now : ℕ) (m : Assoc (List StoredPeer)) → Distinct m → Distinct (expire_all ttl now m).0
unfolding expire_all
expire_all-Distinct ttl now [] d = tt
expire_all-Distinct ttl now ((k, ps) ∷ m) (d, ds) =
    let rest = expire_all-Distinct ttl now m ds in
    elim (Bool-cases (length (keep_alive ttl now ps).0 == 0)) [
      | inl e ↦ rw e rest
      | inr e ↦ rw e (expire_all-none ttl now k m d, rest)
    ]

-- `Add` and `Expire` keep one entry for each infohash.
pub add-Distinct :
    (info_hash : Bytes) (addr : AddrPort) (now : ℕ) (ps : PeerStore)
    → Distinct ps.peers
    → Distinct (add info_hash addr now ps).peers × Distinct (expire now ps).1.peers
unfolding add expire
add-Distinct info_hash addr now ps d =
    (store-Distinct info_hash _ ps.peers d, expire_all-Distinct ps.ttl now ps.peers d)
