-- ===== src/Peer/Incoming.antt =====
-- internal/peer/peer.go and internal/peer/pex.go: what a peer does with the messages that come in,
-- and `WaitForUnchoke`.
pub mod Calm
pub mod Laws
pub mod Unchoked
use jelly_torrent.Base.{
  ℕ, zero, suc, ◌+◌, ◌/◌, ◌≡◌, Bool, true, false, ◌&&◌, ◌||◌, Option, none, some, List, [], ◌∷◌,
  ◌++◌, Bytes, length, get_or, take, drop, ltb, ◌==◌, if◌then◌else◌, ℤ, pos, eq_ℤ, negsuc, ◌-◌, ◌%◌,
}
use jelly_torrent.Base.Result.{Result, ok, err, Panic}
use jelly_torrent.Base.Binary.{put_u32, get_u32}
use jelly_torrent.Bencode.Encode.{EncodeError}
use jelly_torrent.Peer.BitField.{set_piece}
use jelly_torrent.Peer.Pex.{PexMessage, PexError, encode_pex_message, parse_pex_message}
use jelly_torrent.Peer.Wire.{
  BlockServer, Peer, PeerMessage, Run, WireError, endless, encoding_failed, panicked, and_then,
  logged, MessageId, choke, unchoke, have, bitfield, request, extension, message_id, is_keep_alive,
  send_only, read_message,
}

unfoldable pub send_block : ℕ → ℕ → Result Panic (Option Bytes) → Peer → Run Unit
unfolding send_only put_u32
send_block index begin (err q) p = (err (panicked q), p)
send_block index begin (ok none) p = (ok tt, p)
send_block index begin (ok (some block)) p =
    send_only 7 (put_u32 index ++ (put_u32 begin ++ block)) p

unfoldable pub serve_request : BlockServer → ℕ → ℕ → ℕ → Peer → Run Unit
unfolding send_block
serve_request serve index begin len p =
    if ltb 131072 len then (ok tt, p) else send_block index begin (serve index begin len) p

unfoldable pub request_of : Option BlockServer → Bytes → Peer → Run Unit
unfolding serve_request get_u32
request_of none payload p = (ok tt, p)
request_of (some serve) payload p =
    if p.am_choking || ltb (length payload) 12
    then (ok tt, p)
    else serve_request serve (get_u32 payload) (get_u32 (drop 4 payload)) (get_u32 (drop 8 payload))
        p

unfoldable pub handle_request : Bytes → Peer → Run Unit
unfolding request_of
handle_request payload p = request_of p.server payload p

unfoldable pub deliver_pex : Result PexError PexMessage → Peer → Peer
deliver_pex (err e) p = p
deliver_pex (ok msg) p = record p { pex_inbox = p.pex_inbox ++ (msg ∷ []) }

unfoldable pub handle_extension : Bytes → Peer → Peer
unfolding deliver_pex parse_pex_message
handle_extension payload p =
    if ltb (length payload) 2
    then p
    else if (get_or payload 0 0 == 2) && p.has_on_pex
    then deliver_pex (parse_pex_message (drop 1 payload)) p
    else p

-- A `Have` sets the bit of its piece.
unfoldable pub note_have : Bytes → Peer → Peer
unfolding set_piece get_u32
note_have payload p =
    if ltb (length payload) 4
    then p
    else record p { bit_field = set_piece p.bit_field (get_u32 payload) }

-- A round that goes on after a call whose error is logged.
unfoldable pub go_on : {A : Type 0} → A → Run Unit → Run A
unfolding and_then logged
go_on a r = and_then (logged r) (λ _ p. (ok a, p))

-- The switch of `WaitForUnchoke`; `true` is its return.
unfoldable pub on_wait : MessageId → Bytes → Peer → Run Bool
unfolding go_on handle_request handle_extension note_have
on_wait unchoke payload p = (ok true, record p { choked = false })
on_wait choke payload p = (ok false, record p { choked = true })
on_wait have payload p = (ok false, note_have payload p)
on_wait bitfield payload p = (ok false, record p { bit_field = payload })
on_wait request payload p = go_on false (handle_request payload p)
on_wait extension payload p = (ok false, handle_extension payload p)
on_wait _ payload p = (ok false, p)

unfoldable pub wait_message : PeerMessage → Peer → Run Bool
unfolding on_wait message_id is_keep_alive
wait_message m p =
    if is_keep_alive m then (ok false, p) else on_wait (message_id m.kind) m.payload p

unfoldable pub wait_loop : ℕ → Peer → Run Unit
unfolding wait_message and_then read_message
wait_loop zero p = (err endless, p)
wait_loop (suc n) p =
    and_then (and_then (read_message p) wait_message)
      (λ unchoked p'. elim unchoked [ true ↦ (ok tt, p') | false ↦ wait_loop n p' ])

-- Every round reads four bytes at least, so that there is one round for each byte at most.
unfoldable pub wait_for_unchoke : Peer → Run Unit
unfolding wait_loop
wait_for_unchoke p = wait_loop (suc (length p.input)) p

-- `byte(id)`.
unfoldable pub byte_of : ℤ → ℕ
byte_of (pos n) = n % 256
byte_of (negsuc n) = 255 - n % 256

unfoldable pub send_encoded : Result Panic (Result EncodeError Bytes) → Peer → Run Unit
unfolding send_only byte_of
send_encoded (err q) p = (err (panicked q), p)
send_encoded (ok (err e)) p = (err (encoding_failed e), p)
send_encoded (ok (ok encoded)) p = send_only 20 (byte_of p.ut_pex_id ∷ encoded) p

unfoldable pub send_pex : PexMessage → Peer → Run Unit
unfolding send_encoded encode_pex_message
send_pex msg p =
    if eq_ℤ p.ut_pex_id (pos 0) then (ok tt, p) else send_encoded (encode_pex_message msg) p
