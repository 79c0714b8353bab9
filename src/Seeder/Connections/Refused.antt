-- ===== src/Seeder/Connections/Refused.antt =====
-- internal/seeder/seeder.go: which connections are refused.
use jelly_torrent.Base.{
  ℕ, suc, ◌≡◌, refl, ap, Bool, true, [], ◌∷◌, ◌++◌, Bytes, length, bytes_eq_refl,
}
use jelly_torrent.Base.Result.{err}
use jelly_torrent.Peer.Wire.{Peer, self_connection, and_then}
use jelly_torrent.Peer.Wire.Laws.{conn_write-writes}
use jelly_torrent.Peer.Handshake.{
  own_peer_id, construct_handshake, server_handshake, accept_handshake, incoming_peer,
}
use jelly_torrent.Peer.Handshake.Laws.{own_handshake, read_handshake-construct_handshake}
use jelly_torrent.Seeder.Connections.{Seeder, welcome, greet, admit}

-- A seeder answers the handshake of any instance of the program for its torrent and then refuses the connection, since all of them have one identifier.
pub welcome-self_connection :
    (s : Seeder) (addr rest : Bytes) (ext : Bool) (n : ℕ) (p : Peer)
    → length s.info_hash ≡ 20
    → p.writes_left ≡ suc n
    → p.input ≡ construct_handshake s.info_hash ext ++ rest
    → (q : Peer) × (welcome s p ≡ (err self_connection, q))
      × (q.sent ≡ p.sent ++ (construct_handshake s.info_hash true ∷ []))
      × (admit addr (welcome s p) s ≡ s)
unfolding welcome greet server_handshake and_then accept_handshake incoming_peer admit
welcome-self_connection s addr rest ext n p h writes input =
    let q1 : Peer = record p { input = rest } in
    let q2 : Peer = record q1 {
      sent = p.sent ++ (construct_handshake s.info_hash true ∷ []);
      writes_left = n;
    } in
    let refused : welcome s p
        ≡ (err self_connection, incoming_peer (own_handshake s.info_hash ext) q2) =
      rw
        (
          read_handshake-construct_handshake s.info_hash rest ext p h input,
          bytes_eq_refl s.info_hash,
          conn_write-writes n (construct_handshake s.info_hash true) q1 writes,
          bytes_eq_refl own_peer_id,
        )
        refl in
    (
      incoming_peer (own_handshake s.info_hash ext) q2,
      refused,
      refl,
      ap (λ r. admit addr r s) refused,
    )
