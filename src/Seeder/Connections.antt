-- ===== src/Seeder/Connections.antt =====
-- internal/seeder/seeder.go: connections that come in.
pub mod Refused
use jelly_torrent.Base.{
  ℕ, ◌%◌, ◌^◌, Bool, true, false, not, Option, none, some, List, [], ◌∷◌, ◌++◌, Bytes, bytes_eq,
  length, leb, if◌then◌else◌, ℤ, pos, ltb_ℤ,
}
use jelly_torrent.Base.Result.{Result, ok, err}
use jelly_torrent.Base.Assoc.{Assoc, store}
use jelly_torrent.Peer.BitField.{BitField, set_piece}
use jelly_torrent.Peer.Wire.{
  Peer, BlockServer, Run, WireError, self_connection, and_then, logged, send_bitfield, send_have,
}
use jelly_torrent.Peer.Handshake.{Handshake, own_peer_id, has_extensions, server_handshake}
use jelly_torrent.Peer.Metadata.{ExtensionResponse, extension_handshake}
use jelly_torrent.Seeder.SeedPeer.{SeedPeer}

-- `peers` has an entry for the text of each remote address.
pub record Seeder : Type 0 where
  pub info_hash : Bytes
  pub bit_field : BitField
  pub block_server : BlockServer
  pub max_peers : ℕ
  pub peers : Assoc SeedPeer

-- The test of `acceptLoop`, before the handshake.
unfoldable pub is_full : Seeder → Bool
is_full s = leb s.max_peers (length s.peers)

-- An error of the extension handshake is logged.
unfoldable pub note_pex : Run ExtensionResponse → Run Unit
unfolding logged
note_pex (ok r, p) =
    (ok tt, if ltb_ℤ (pos 0) r.ut_pex_id then record p { ut_pex_id = r.ut_pex_id } else p)
note_pex (err e, p) = logged (err e, p)

unfoldable pub negotiate_pex : Handshake → Peer → Run Unit
unfolding note_pex extension_handshake has_extensions
negotiate_pex h p = elim (has_extensions h) [
  | true ↦ note_pex (extension_handshake p)
  | false ↦ (ok tt, p)
]

-- After the handshake: the bitfield, and the extensions.
unfoldable pub greet : Seeder → Handshake → Peer → Run SeedPeer
unfolding bytes_eq send_bitfield and_then negotiate_pex
greet s h p =
    if bytes_eq p.id own_peer_id
    then (err self_connection, p)
    else and_then (send_bitfield s.bit_field p) (λ _ p1. and_then (negotiate_pex h p1) (λ _ p2. (
      ok (record { peer = record p2 { server = some s.block_server }; is_interested = false }),
      p2,
    )))

unfoldable pub welcome : Seeder → Peer → Run SeedPeer
unfolding server_handshake and_then greet
welcome s p = and_then (server_handshake s.info_hash p) (greet s)

unfoldable pub add_peer : Bytes → SeedPeer → Seeder → Seeder
unfolding store
add_peer addr sp s = record s { peers = store addr sp s.peers }

unfoldable pub remove_entry : Bytes → Assoc SeedPeer → Assoc SeedPeer
unfolding bytes_eq
remove_entry k [] = []
remove_entry k ((j, sp) ∷ m) =
    let more = remove_entry k m in if bytes_eq j k then more else (j, sp) ∷ more

unfoldable pub remove_peer : Bytes → Seeder → Seeder
unfolding remove_entry
remove_peer addr s = record s { peers = remove_entry addr s.peers }

-- `handleConn` up to where the peer is served.
unfoldable pub admit : Bytes → Run SeedPeer → Seeder → Seeder
unfolding add_peer
admit addr (ok sp, p) s = add_peer addr sp s
admit addr (err e, p) s = s

-- A piece that is new to us goes to everyone; an error is logged.
unfoldable pub tell_all : ℕ → Assoc SeedPeer → Assoc SeedPeer
unfolding send_have
tell_all i [] = []
tell_all i ((addr, sp) ∷ m) =
    (addr, record sp { peer = (send_have (i % 2 ^ 32) sp.peer).1 }) ∷ tell_all i m

unfoldable pub broadcast_have : ℕ → Seeder → Seeder
unfolding set_piece tell_all
broadcast_have i s = record s { bit_field = set_piece s.bit_field i; peers = tell_all i s.peers }
