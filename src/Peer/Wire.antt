-- ===== src/Peer/Wire.antt =====
-- internal/peer/peer.go: a connection to a peer and the messages on it.
pub mod Laws
use jelly_torrent.Base.{
  ℕ, zero, suc, ◌+◌, ◌-◌, ◌*◌, ◌/◌, ◌%◌, ◌^◌, ◌≡◌, Bool, true, false, Option, none, some, List, [],
  ◌∷◌, ◌++◌, Bytes, length, get_or, take, drop, ltb, leb, ◌==◌, if◌then◌else◌, ℤ,
}
use jelly_torrent.Base.Result.{Result, ok, err, Panic, index_out_of_range, slice_bounds}
use jelly_torrent.Base.Binary.{put_u32, get_u32}
use jelly_torrent.Bencode.Encode.{EncodeError}
use jelly_torrent.Bencode.Decode.{DecodeError}
use jelly_torrent.Metainfo.Info.{InfoError}
use jelly_torrent.Metainfo.Magnet.{MetadataError}
use jelly_torrent.Peer.BitField.{BitField}
use jelly_torrent.Peer.Pex.{PexMessage}

-- `GetBlock` of a server of blocks, which may panic.
abbrev pub BlockServer : Type 0
BlockServer = ℕ → ℕ → ℕ → Result Panic (Option Bytes)

-- The connection is what the remote side sends, whether it stays open after that or closes, the
-- messages that were written, and how many writes are left until it breaks. `pex_inbox` holds what `OnPEX` was called with.
pub record Peer : Type 0 where
  pub input : Bytes
  pub stays_open : Bool
  pub sent : List Bytes
  pub writes_left : ℕ
  pub id : Bytes
  pub choked : Bool
  pub bit_field : BitField
  pub server : Option BlockServer
  pub am_choking : Bool
  pub ut_pex_id : ℤ
  pub has_on_pex : Bool
  pub pex_inbox : List PexMessage

pub record PeerMessage : Type 0 where
  pub len : ℕ
  pub kind : ℕ
  pub payload : Bytes

-- `endless` is a loop that is out of fuel. `waiting` is no error of the source: it is a read for which
-- the bytes do not suffice, on a connection that stays open. Such a read ends with its deadline, where
-- one is set, and else never, and with it the operation.
pub data WireError : Type 0 where
  connection_closed waiting write_failed peer_choked piece_cancelled invalid_hash endless :
      WireError
  payload_too_short : ℕ → WireError
  unexpected : ℕ → WireError
  invalid_handshake info_hash_mismatch no_extensions self_connection : WireError
  encoding_failed : EncodeError → WireError
  bad_bencoding : DecodeError → WireError
  not_a_dictionary no_metadata empty_metadata metadata_hash_mismatch : WireError
  bad_metadata : MetadataError → WireError
  bad_info : InfoError → WireError
  panicked : Panic → WireError

-- The result of an operation, and the peer after it.
abbrev pub Run : Type 0 → Type 0
Run A = Result WireError A × Peer

-- What follows is done with the value, unless there is an error.
unfoldable pub and_then : {A B : Type 0} → Run A → (A → Peer → Run B) → Run B
and_then (ok a, p) next = next a p
and_then (err e, p) next = (err e, p)

unfoldable pub is_panic : WireError → Bool
is_panic (panicked q) = true
is_panic _ = false

-- An error is logged and forgotten; a panic goes on.
unfoldable pub logged : Run Unit → Run Unit
unfolding is_panic
logged (ok _, p) = (ok tt, p)
logged (err e, p) = if is_panic e then (err e, p) else (ok tt, p)

-- The switch on the identifier of a message, by the names of internal/constant.go.
pub data MessageId : Type 0 where
  choke unchoke interested not_interested have bitfield request piece cancel : MessageId
  extension unknown : MessageId

unfoldable pub message_id : ℕ → MessageId
message_id n =
    if n == 0
    then choke
    else if n == 1
    then unchoke
    else if n == 2
    then interested
    else if n == 3
    then not_interested
    else if n == 4
    then have
    else if n == 5
    then bitfield
    else if n == 6
    then request
    else if n == 7
    then piece
    else if n == 8
    then cancel
    else if n == 20
    then extension
    else unknown

-- A write, with what is left of the writes.
unfoldable pub write_left : ℕ → Bytes → Peer → Run Unit
write_left zero bs p = (err write_failed, p)
write_left (suc n) bs p = (ok tt, record p { sent = p.sent ++ (bs ∷ []); writes_left = n })

unfoldable pub conn_write : Bytes → Peer → Run Unit
unfolding write_left
conn_write bs p = write_left p.writes_left bs p

unfoldable pub read_end : Bool → WireError
read_end true = waiting
read_end false = connection_closed

-- `io.ReadFull`: a read that ends early has taken what there was.
unfoldable pub read_full : ℕ → Peer → Run Bytes
unfolding read_end
read_full n p =
    if leb n (length p.input)
    then (ok (take n p.input), record p { input = drop n p.input })
    else (err (read_end p.stays_open), record p { input = [] })

unfoldable pub is_keep_alive : PeerMessage → Bool
is_keep_alive m = m.len == 0

unfoldable pub frame : ℕ → Bytes → Bytes
unfolding put_u32
frame kind payload = put_u32 (suc (length payload)) ++ (kind ∷ payload)

-- The buffer has `total` bytes, and is written from the front.
unfoldable pub send_total : ℕ → Bytes → Peer → Run Unit
unfolding conn_write
send_total total message p =
    if ltb total 4
    then (err (panicked slice_bounds), p)
    else if total == 4
    then (err (panicked index_out_of_range), p)
    else conn_write (take total message) p

unfoldable pub send_only : ℕ → Bytes → Peer → Run Unit
unfolding frame send_total
send_only kind payload p =
    send_total ((4 + (length payload + 1) % 2 ^ 32) % 2 ^ 32) (frame kind payload) p

unfoldable pub read_body : ℕ → Peer → Run PeerMessage
unfolding read_full and_then
read_body zero p = (ok (record { len = 0; kind = 0; payload = [] }), p)
read_body (suc n) p =
    and_then (read_full (suc n) p)
      (λ buf p'. (ok (record { len = suc n; kind = get_or buf 0 0; payload = drop 1 buf }), p'))

unfoldable pub read_message : Peer → Run PeerMessage
unfolding read_full and_then read_body get_u32
read_message p = and_then (read_full 4 p) (λ bs p'. read_body (get_u32 bs) p')

-- `SendMessage` writes as `sendOnly` does, and reads the reply.
unfoldable pub send_message : ℕ → Bytes → Peer → Run PeerMessage
unfolding send_only read_message and_then
send_message kind payload p = and_then (send_only kind payload p) (λ _ p'. read_message p')

unfoldable pub set_bit_field : PeerMessage → Peer → Run PeerMessage
set_bit_field m p =
    if m.kind == 5 then (ok m, record p { bit_field = m.payload }) else (err (unexpected m.kind), p)

unfoldable pub read_bitfield : Peer → Run PeerMessage
unfolding read_message and_then set_bit_field
read_bitfield p = and_then (read_message p) set_bit_field

unfoldable pub send_interested : Peer → Run Unit
unfolding send_only
send_interested p = send_only 2 [] p

unfoldable pub send_not_interested : Peer → Run Unit
unfolding send_only
send_not_interested p = send_only 3 [] p

unfoldable pub send_bitfield : BitField → Peer → Run Unit
unfolding send_only
send_bitfield bf p = send_only 5 bf p

unfoldable pub send_choke : Peer → Run Unit
unfolding send_only
send_choke p = send_only 0 [] p

unfoldable pub send_unchoke : Peer → Run Unit
unfolding send_only
send_unchoke p = send_only 1 [] p

unfoldable pub send_have : ℕ → Peer → Run Unit
unfolding send_only put_u32
send_have i p = send_only 4 (put_u32 i) p

unfoldable pub send_keep_alive : Peer → Run Unit
unfolding conn_write
send_keep_alive p = conn_write (0 ∷ 0 ∷ 0 ∷ 0 ∷ []) p
