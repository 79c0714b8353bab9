-- ===== src/Dht/Handlers/Announced.antt =====
-- internal/dht/dht.go: whose announcements are stored.
use mathlib.Core.Path.{subst}
use jelly_torrent.Base.{
  ℕ, ◌/◌, ◌%◌, ◌∷◌, [], ◌++◌, ◌-◌, ◌≡◌, ◌<◌, refl, sym, ap, ◌∙◌, inl, inr, ◌⊎◌, Bool, true, false,
  ◌||◌, Option, none, some, Bytes, codes, bytes_eq, bytes_eq_sound, bytes_eq_refl, Bool-cases,
}
use jelly_torrent.Base.Result.{Result, ok, err, Panic, ok-injective}
use jelly_torrent.Bencode.{str, end, field}
use jelly_torrent.Bencode.Encode.{EncodeError}
use jelly_torrent.Peer.Addr.{v4, AddrPort}
use jelly_torrent.Dht.PeerStore
use jelly_torrent.Dht.PeerStore.Laws.{IsListed, get-add}
use jelly_torrent.Dht.Tokens.{TokenManager, generate, hash_token}
use jelly_torrent.Dht.Messages.{Message, marshal}
use jelly_torrent.Dht.Handlers.{
  Dht, reply, write_reply, response, store_peer, answer_announce, handle_announce_peer,
  fixed20_from_args, bad_token, compact_addr, announced_addr,
}

write_reply-peers :
    (r : Result EncodeError Bytes) (addr : AddrPort) (d : Dht)
    → (write_reply r addr d).peers ≡ d.peers
unfolding write_reply
write_reply-peers (ok bs) addr d = refl
write_reply-peers (err e) addr d = refl

reply-peers : (resp : Message) (addr : AddrPort) (d : Dht) → (reply resp addr d).peers ≡ d.peers
unfolding reply
reply-peers resp addr d = write_reply-peers (marshal resp) addr d

or-cases : (a b : Bool) → (a || b) ≡ true → (a ≡ true) ⊎ (b ≡ true)
or-cases true b h = inl refl
or-cases false b h = inr h

abbrev pub sender : Bytes → ℕ → AddrPort
sender ip port = record { addr = v4 ip; port = port }

-- The token is one of the two secrets' for the address.
abbrev pub IsToken : (Bytes → Bytes → Bytes) → Bytes → Bytes → TokenManager → Type 0
IsToken mac ip token t = (mac t.current_secret ip ≡ token) ⊎ (mac t.previous_secret ip ≡ token)

module _ (mac : Bytes → Bytes → Bytes) (now : ℕ) (ip : Bytes) (port : ℕ) where
  abbrev IsGuarded : Option Bytes → Dht → Result Panic Dht → Type 0
  IsGuarded token d r =
      (d' : Dht) × (r ≡ ok d')
      × ((d'.peers ≡ d.peers) ⊎ ((s : Bytes) × (token ≡ some s) × IsToken mac ip s d.tokens))

  store_peer-ok :
      (info_hash : Bytes) (o : Option AddrPort) (msg : Message) (d : Dht)
      → (d' : Dht) × (store_peer mac now info_hash o msg (sender ip port) d ≡ ok d')
  unfolding store_peer compact_addr
  store_peer-ok info_hash none msg d = (d, refl)
  store_peer-ok info_hash (some a) msg d = (_, refl)

  abbrev pub accepts : Bytes → TokenManager → Bool
  accepts token t =
      bytes_eq (mac t.current_secret ip) token || bytes_eq (mac t.previous_secret ip) token

  answer_announce-accepts :
      (i s : Bytes) (msg : Message) (d : Dht)
      → accepts s d.tokens ≡ true
      → answer_announce mac now (some i) (some s) msg (sender ip port) d
        ≡ store_peer mac now i (announced_addr msg.args (sender ip port)) msg (sender ip port) d
  unfolding answer_announce
  answer_announce-accepts i s msg d e = rw e refl

  answer_announce-refuses :
      (i s : Bytes) (msg : Message) (d : Dht)
      → accepts s d.tokens ≡ false
      → answer_announce mac now (some i) (some s) msg (sender ip port) d
        ≡ ok (reply (bad_token msg) (sender ip port) d)
  unfolding answer_announce
  answer_announce-refuses i s msg d e = rw e refl

  valid-IsToken :
      (token : Bytes) (t : TokenManager) → accepts token t ≡ true → IsToken mac ip token t
  valid-IsToken token t h =
      elim (or-cases (bytes_eq (mac t.current_secret ip) token)
        (bytes_eq (mac t.previous_secret ip) token) h) [
          | inl e ↦ inl (bytes_eq_sound _ _ e)
          | inr e ↦ inr (bytes_eq_sound _ _ e)
        ]

  answer_announce-IsGuarded :
      (i t : Option Bytes) (msg : Message) (d : Dht)
      → IsGuarded t d (answer_announce mac now i t msg (sender ip port) d)
  unfolding answer_announce
  answer_announce-IsGuarded none t msg d = (d, refl, inl refl)
  answer_announce-IsGuarded (some i) none msg d = (d, refl, inl refl)
  answer_announce-IsGuarded (some i) (some s) msg d = elim (Bool-cases (accepts s d.tokens)) [
    | inl e ↦
        let (d', p) = store_peer-ok i (announced_addr msg.args (sender ip port)) msg d in
        (d', answer_announce-accepts i s msg d e ∙ p, inr (s, refl, valid-IsToken s d.tokens e))
    | inr e ↦ (
      reply (bad_token msg) (sender ip port) d,
      answer_announce-refuses i s msg d e,
      inl (reply-peers (bad_token msg) (sender ip port) d),
    )
  ]

  -- An announcement from an IPv4 address does not panic, and changes the peer store only if it has a token that one of the two secrets gives for that address.
  pub handle_announce_peer-IsGuarded :
      (msg : Message) (d : Dht)
      → (d' : Dht) × (handle_announce_peer mac now msg (sender ip port) d ≡ ok d')
        × ((d'.peers ≡ d.peers)
            ⊎ ((s : Bytes) × (fixed20_from_args msg.args (codes "token") ≡ some s)
                × IsToken mac ip s d.tokens))
  unfolding handle_announce_peer
  handle_announce_peer-IsGuarded msg d =
      answer_announce-IsGuarded (fixed20_from_args msg.args (codes "info_hash"))
        (fixed20_from_args msg.args (codes "token")) msg d

  -- The store after a peer was stored.
  store_peer-some :
      (info_hash : Bytes) (peer : AddrPort) (msg : Message) (d : Dht)
      → (d' : Dht) × (store_peer mac now info_hash (some peer) msg (sender ip port) d ≡ ok d')
        × (d'.peers ≡ PeerStore.add info_hash peer now d.peers)
  unfolding store_peer compact_addr
  store_peer-some info_hash peer msg d =
      let resp =
        response msg (ip ++ (port / 256 ∷ port % 256 ∷ [])) (field (codes "id") (str d.id) end) in
      let after : Dht = record d { peers = PeerStore.add info_hash peer now d.peers } in
      (reply resp (sender ip port) after, refl, reply-peers resp (sender ip port) after)

  generate-accepts :
      (token : Bytes) (t : TokenManager)
      → generate mac (v4 ip) t ≡ ok token
      → accepts token t ≡ true
  unfolding generate hash_token
  generate-accepts token t g =
      rw (ok-injective (sym g), bytes_eq_refl (mac t.current_secret ip)) refl

  -- A peer that announces itself with the token that was generated for its address is among those that the store gives for the infohash at any later time, until the time to live has passed, at the port that it asked for; those of every other infohash stay the same.
  pub get-handle_announce_peer :
      (info_hash token other : Bytes) (peer : AddrPort) (msg : Message) (d : Dht) (later : ℕ)
      → later - now < d.peers.ttl
      → fixed20_from_args msg.args (codes "info_hash") ≡ some info_hash
      → fixed20_from_args msg.args (codes "token") ≡ some token
      → generate mac (v4 ip) d.tokens ≡ ok token
      → announced_addr msg.args (sender ip port) ≡ some peer
      → (d' : Dht) × (handle_announce_peer mac now msg (sender ip port) d ≡ ok d')
        × IsListed peer (PeerStore.get info_hash later d'.peers)
        × (bytes_eq info_hash other ≡ false
            → PeerStore.get other later d'.peers ≡ PeerStore.get other later d.peers)
  unfolding handle_announce_peer
  get-handle_announce_peer info_hash token other peer msg d later h i t g a =
      let (d', p, same) = store_peer-some info_hash peer msg d in
      let stored =
        answer_announce-accepts info_hash token msg d (generate-accepts token d.tokens g) in
      let (listed, others) =
        subst
          (λ ps.
            IsListed peer (PeerStore.get info_hash later ps)
            × (bytes_eq info_hash other ≡ false
                → PeerStore.get other later ps ≡ PeerStore.get other later d.peers))
          (sym same) (get-add info_hash other peer now later d.peers h) in
      (
        d',
        rw (i, t) (stored ∙ ap (λ o. store_peer mac now info_hash o msg (sender ip port) d) a ∙ p),
        listed,
        others,
      )
