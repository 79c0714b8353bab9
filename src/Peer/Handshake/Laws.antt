-- ===== src/Peer/Handshake/Laws.antt =====
-- internal/peer/handshake.go: the two sides of a handshake.
use jelly_torrent.Base.{
  ℕ, suc, ◌≡◌, refl, sym, ap, ◌∙◌, Bool, true, false, [], ◌∷◌, ◌++◌, Bytes, bytes_eq, bytes_eq_refl,
  arith, length, take, drop, length-append, take-append, drop-append,
}
use jelly_torrent.Base.Result.{ok, err}
use jelly_torrent.Peer.Wire.{Peer, info_hash_mismatch, and_then}
use jelly_torrent.Peer.Wire.Laws.{read_full-front, conn_write-writes}
use jelly_torrent.Peer.Handshake.{
  Handshake, protocol_string, own_peer_id, reserved_bytes, construct_handshake, split_handshake,
  is_valid_handshake, read_handshake, check_info_hash, shake_hands, has_extensions, incoming_peer,
  accept_handshake, server_handshake,
}

-- The handshake that `constructHandshakeMessage` writes.
abbrev pub own_handshake : Bytes → Bool → Handshake
own_handshake info_hash ext = record {
  pstr_len = 19;
  pstr = protocol_string;
  reserved = reserved_bytes ext;
  info_hash = info_hash;
  peer_id = own_peer_id;
}

construct_handshake-length :
    (info_hash : Bytes) (ext : Bool)
    → length info_hash ≡ 20
    → length (construct_handshake info_hash ext) ≡ 68
unfolding construct_handshake reserved_bytes
construct_handshake-length info_hash ext h = omega (arith, length-append info_hash own_peer_id)

split_handshake-construct_handshake :
    (info_hash : Bytes) (ext : Bool)
    → length info_hash ≡ 20
    → split_handshake (construct_handshake info_hash ext) ≡ own_handshake info_hash ext
unfolding split_handshake construct_handshake reserved_bytes
split_handshake-construct_handshake info_hash ext h =
    ap
      (λ n. record {
        pstr_len = 19;
        pstr = protocol_string;
        reserved = reserved_bytes ext;
        info_hash = take n (info_hash ++ own_peer_id);
        peer_id = take 20 (drop n (info_hash ++ own_peer_id));
      })
      (sym h)
    ∙ rw (take-append info_hash own_peer_id, drop-append info_hash own_peer_id) refl

-- A handshake that was written is read.
pub read_handshake-construct_handshake :
    (info_hash rest : Bytes) (ext : Bool) (p : Peer)
    → length info_hash ≡ 20
    → p.input ≡ construct_handshake info_hash ext ++ rest
    → read_handshake p ≡ (ok (own_handshake info_hash ext), record p { input = rest })
unfolding read_handshake and_then construct_handshake bytes_eq
read_handshake-construct_handshake info_hash rest ext p h input =
    rw
      (
        read_full-front 68 (construct_handshake info_hash ext) rest p
            (construct_handshake-length info_hash ext h) input,
        split_handshake-construct_handshake info_hash ext h,
      )
      (unfold is_valid_handshake in refl)

-- The extension bit of a handshake is the one that was asked for.
pub has_extensions-own_handshake :
    (info_hash : Bytes) (ext : Bool) → has_extensions (own_handshake info_hash ext) ≡ ext
unfolding has_extensions reserved_bytes
has_extensions-own_handshake info_hash true = refl
has_extensions-own_handshake info_hash false = refl

-- A client and a server with the same info hash, each of which reads what the other writes, both succeed: the server has read the extension bit that the client asked for, and is choking the client; the client has read a server with the extension protocol.
pub shake_hands-server_handshake :
    (info_hash rest rest' : Bytes) (ext : Bool) (n m : ℕ) (p q : Peer)
    → length info_hash ≡ 20
    → p.writes_left ≡ suc n
    → q.writes_left ≡ suc m
    → p.input ≡ construct_handshake info_hash true ++ rest
    → q.input ≡ construct_handshake info_hash ext ++ rest'
    → (p' : Peer) × (q' : Peer) × (h : Handshake) × (h' : Handshake) × (shake_hands info_hash ext p
        ≡ (ok h, p'))
      × (server_handshake info_hash q ≡ (ok h', q'))
      × (p'.sent ≡ p.sent ++ (construct_handshake info_hash ext ∷ []))
      × (q'.sent ≡ q.sent ++ (construct_handshake info_hash true ∷ []))
      × (has_extensions h ≡ true)
      × (has_extensions h' ≡ ext)
      × (q'.am_choking ≡ true)
      × (p'.input ≡ rest)
      × (q'.input ≡ rest')
unfolding shake_hands server_handshake and_then check_info_hash accept_handshake incoming_peer
shake_hands-server_handshake info_hash rest rest' ext n m p q h writes writes' input input' =
    let p1 : Peer = record p {
      sent = p.sent ++ (construct_handshake info_hash ext ∷ []);
      writes_left = n;
    } in
    let q1 : Peer = record q { input = rest' } in
    let q2 : Peer = record q1 {
      sent = q.sent ++ (construct_handshake info_hash true ∷ []);
      writes_left = m;
    } in
    (
      record p1 { input = rest; id = own_peer_id },
      incoming_peer (own_handshake info_hash ext) q2,
      own_handshake info_hash true,
      own_handshake info_hash ext,
      rw
          (
            conn_write-writes n (construct_handshake info_hash ext) p writes,
            read_handshake-construct_handshake info_hash rest true p1 h input,
            bytes_eq_refl info_hash,
          )
          refl,
      rw
          (
            read_handshake-construct_handshake info_hash rest' ext q h input',
            bytes_eq_refl info_hash,
            conn_write-writes m (construct_handshake info_hash true) q1 writes',
          )
          refl,
      refl,
      refl,
      has_extensions-own_handshake info_hash true,
      has_extensions-own_handshake info_hash ext,
      refl,
      refl,
      refl,
    )

-- A server reads a well-formed handshake for another info hash, writes nothing and returns the error.
pub server_handshake-refuses :
    (info_hash other rest : Bytes) (ext : Bool) (q : Peer)
    → length other ≡ 20
    → bytes_eq other info_hash ≡ false
    → q.input ≡ construct_handshake other ext ++ rest
    → server_handshake info_hash q ≡ (err info_hash_mismatch, record q { input = rest })
unfolding server_handshake and_then accept_handshake
server_handshake-refuses info_hash other rest ext q h ne input =
    rw (read_handshake-construct_handshake other rest ext q h input, ne) refl
