-- ===== src/Peer/Handshake.antt =====
-- internal/peer/handshake.go: the first messages of a connection.
pub mod Laws
use jelly_torrent.Base.{
  ℕ, ◌+◌, ◌/◌, ◌%◌, ◌≡◌, Bool, true, false, ◌&&◌, not, none, List, [], ◌∷◌, ◌++◌, Bytes, codes,
  bytes_eq, length, get_or, take, drop, ◌==◌, if◌then◌else◌, pos,
}
use jelly_torrent.Base.Result.{ok, err}
use jelly_torrent.Peer.Wire.{
  Peer, Run, invalid_handshake, info_hash_mismatch, no_extensions, and_then, conn_write, read_full,
}

pub record Handshake : Type 0 where
  pub pstr_len : ℕ
  pub pstr : Bytes
  pub reserved : Bytes
  pub info_hash : Bytes
  pub peer_id : Bytes

abbrev pub protocol_string : Bytes
protocol_string = codes "BitTorrent protocol"

abbrev pub own_peer_id : Bytes
own_peer_id = codes "leofeopeoluvsanayeli"

-- The reserved bytes, with or without the bit of the extension protocol.
unfoldable pub reserved_bytes : Bool → Bytes
reserved_bytes ext = 0 ∷ 0 ∷ 0 ∷ 0 ∷ 0 ∷ (if ext then 16 else 0) ∷ 0 ∷ 0 ∷ []

unfoldable pub construct_handshake : Bytes → Bool → Bytes
unfolding reserved_bytes
construct_handshake info_hash ext =
    (19 ∷ protocol_string) ++ (reserved_bytes ext ++ (info_hash ++ own_peer_id))

-- The copy of `reserved`, in which `reserved[5]` is 0x10.
unfoldable pub construct_magnet_handshake : Bytes → Bytes
construct_magnet_handshake info_hash =
    (19 ∷ protocol_string) ++ ((0 ∷ 0 ∷ 0 ∷ 0 ∷ 0 ∷ 16 ∷ 0 ∷ 0 ∷ []) ++ (info_hash ++ own_peer_id))

-- The fields of a handshake, which has 68 bytes.
unfoldable pub split_handshake : Bytes → Handshake
split_handshake buf = record {
  pstr_len = get_or buf 0 0;
  pstr = take 19 (drop 1 buf);
  reserved = take 8 (drop 20 buf);
  info_hash = take 20 (drop 28 buf);
  peer_id = take 20 (drop 48 buf);
}

unfoldable pub is_valid_handshake : Handshake → Bool
is_valid_handshake h = (h.pstr_len == 19) && bytes_eq h.pstr protocol_string

unfoldable pub read_handshake : Peer → Run Handshake
unfolding read_full and_then split_handshake is_valid_handshake
read_handshake p = and_then (read_full 68 p) (λ buf q.
    if is_valid_handshake (split_handshake buf)
    then (ok (split_handshake buf), q)
    else (err invalid_handshake, q))

unfoldable pub check_info_hash : Bytes → Handshake → Peer → Run Handshake
check_info_hash info_hash h p =
    if bytes_eq info_hash h.info_hash
    then (ok h, record p { id = h.peer_id })
    else (err info_hash_mismatch, p)

-- `Handshake`.
unfoldable pub shake_hands : Bytes → Bool → Peer → Run Handshake
unfolding conn_write construct_handshake read_handshake and_then check_info_hash
shake_hands info_hash ext p =
    and_then (conn_write (construct_handshake info_hash ext) p)
      (λ _ q. and_then (read_handshake q) (check_info_hash info_hash))

-- `h.Reserved[5] & 0x10 != 0`
unfoldable pub has_extensions : Handshake → Bool
has_extensions h = not ((get_or h.reserved 5 0 / 16) % 2 == 0)

unfoldable pub check_extensions : Handshake → Peer → Run Handshake
unfolding has_extensions
check_extensions h p = if has_extensions h then (ok h, p) else (err no_extensions, p)

unfoldable pub magnet_handshake : Bytes → Peer → Run Handshake
unfolding conn_write construct_magnet_handshake read_handshake and_then check_info_hash
    check_extensions
magnet_handshake info_hash p =
    and_then (conn_write (construct_magnet_handshake info_hash) p)
      (λ _ q. and_then (and_then (read_handshake q) (check_info_hash info_hash)) check_extensions)

-- The peer of an incoming connection: one that we are choking.
unfoldable pub incoming_peer : Handshake → Peer → Peer
incoming_peer h p = record {
  input = p.input;
  stays_open = p.stays_open;
  sent = p.sent;
  writes_left = p.writes_left;
  id = h.peer_id;
  choked = false;
  bit_field = [];
  server = none;
  am_choking = true;
  ut_pex_id = pos 0;
  has_on_pex = false;
  pex_inbox = [];
}

unfoldable pub accept_handshake : Bytes → Handshake → Peer → Run Handshake
unfolding conn_write construct_handshake and_then incoming_peer
accept_handshake info_hash h p =
    if bytes_eq h.info_hash info_hash
    then and_then (conn_write (construct_handshake info_hash true) p)
        (λ _ q. (ok h, incoming_peer h q))
    else (err info_hash_mismatch, p)

unfoldable pub server_handshake : Bytes → Peer → Run Handshake
unfolding read_handshake and_then accept_handshake
server_handshake info_hash p = and_then (read_handshake p) (accept_handshake info_hash)
