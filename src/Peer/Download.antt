-- ===== src/Peer/Download.antt =====
-- internal/peer/peer.go: `GetPiece`, which asks for the blocks of a piece and checks its hash.
pub mod InFlight
pub mod Ends
pub mod Silent
pub mod Answered
pub mod Served
pub mod Requests
use jelly_torrent.Base.{
  ℕ, zero, suc, ◌+◌, ◌-◌, ◌≡◌, Bool, true, false, List, [], ◌∷◌, ◌++◌, Bytes, bytes_eq, length,
  take, drop, ltb, leb, ◌==◌, if◌then◌else◌,
}
use jelly_torrent.Base.Result.{ok, err}
use jelly_torrent.Base.Binary.{put_u32}
use jelly_torrent.Peer.Wire.{
  Peer, PeerMessage, Run, endless, peer_choked, piece_cancelled, invalid_hash, payload_too_short,
  and_then, MessageId, choke, unchoke, have, request, piece, extension, message_id, is_keep_alive,
  conn_write, send_only, read_message,
}
use jelly_torrent.Peer.Incoming.{handle_request, handle_extension, note_have, go_on}

pub record BlockRequest : Type 0 where
  pub index : ℕ
  pub begin : ℕ
  pub len : ℕ

unfoldable pub request_payload : BlockRequest → Bytes
unfolding put_u32
request_payload r = put_u32 r.index ++ (put_u32 r.begin ++ put_u32 r.len)

-- The message of `constructPieceRequest`: its length and identifier, and the three numbers.
unfoldable pub piece_request : BlockRequest → Bytes
unfolding put_u32 request_payload
piece_request r = put_u32 13 ++ (6 ∷ request_payload r)

unfoldable pub send_cancel : BlockRequest → Peer → Run Unit
unfolding send_only request_payload
send_cancel r p = send_only 8 (request_payload r) p

unfoldable pub send_request_only : BlockRequest → Peer → Run Unit
unfolding conn_write piece_request
send_request_only r p = conn_write (piece_request r) p

-- `getBlocks` between two messages; `blocks` are the blocks up to `received`.
pub record Download : Type 0 where
  pub requests : List BlockRequest
  pub requested : ℕ
  pub received : ℕ
  pub blocks : List Bytes

abbrev pub max_pipeline_requests : ℕ
max_pipeline_requests = 5

-- The loop that sends requests, over those that are left.
unfoldable pub fill : List BlockRequest → Download → Peer → Run Download
unfolding send_request_only and_then
fill [] d p = (ok d, p)
fill (r ∷ rs) d p = elim (ltb (d.requested - d.received) max_pipeline_requests) [
  | false ↦ (ok d, p)
  | true ↦
      and_then (send_request_only r p) (λ _ q. fill rs (record d { requested = suc d.requested }) q)
]

-- The loop of `cancelInFlight`; the first write that fails ends it.
unfoldable pub cancel_all : List BlockRequest → Peer → Peer
unfolding send_cancel
cancel_all [] p = p
cancel_all (r ∷ rs) p = elim (send_cancel r p).0 [
  | ok _ ↦ cancel_all rs (send_cancel r p).1
  | err e ↦ (send_cancel r p).1
]

unfoldable pub cancel_in_flight : Download → Peer → Peer
unfolding cancel_all
cancel_in_flight d p = cancel_all (take (d.requested - d.received) (drop d.received d.requests)) p

-- The switch of `getBlocks`.
unfoldable pub on_download : MessageId → Bytes → Download → Peer → Run Download
unfolding go_on handle_request handle_extension note_have
on_download piece payload d p =
    if ltb (length payload) 8 then (err (payload_too_short (length payload)), p) else (
      ok (record d { received = suc d.received; blocks = d.blocks ++ (drop 8 payload ∷ []) }),
      p,
    )
on_download choke payload d p = (err peer_choked, record p { choked = true })
on_download unchoke payload d p = (ok d, record p { choked = false })
on_download have payload d p = (ok d, note_have payload p)
on_download request payload d p = go_on d (handle_request payload p)
on_download extension payload d p = (ok d, handle_extension payload p)
on_download _ payload d p = (ok d, p)

unfoldable pub download_message : Download → PeerMessage → Peer → Run Download
unfolding on_download message_id is_keep_alive
download_message d m p =
    if is_keep_alive m then (ok d, p) else on_download (message_id m.kind) m.payload d p

-- A round of the loop that is not cancelled: requests, then one message.
unfoldable pub round : Download → Peer → Run Download
unfolding fill and_then read_message download_message
round d p =
    and_then (fill (drop d.requested d.requests) d p)
      (λ d' p'. and_then (read_message p') (λ m q. download_message d' m q))

-- What each round finds in the channel that cancels; nothing, past the end of the list.
unfoldable pub first : List Bool → Bool
first [] = false
first (b ∷ bs) = b

unfoldable pub get_loop : ℕ → List Bool → Download → Peer → Run (List Bytes)
unfolding round and_then first cancel_in_flight
get_loop zero polls d p = (err endless, p)
get_loop (suc n) polls d p = elim (leb (length d.requests) d.received) [
  | true ↦ (ok d.blocks, p)
  | false ↦ elim (first polls) [
    | true ↦ (err piece_cancelled, cancel_in_flight d p)
    | false ↦ and_then (round d p) (λ d' p'. get_loop n (drop 1 polls) d' p')
  ]
]

unfoldable pub start_of : List BlockRequest → Download
start_of requests = record { requests = requests; requested = 0; received = 0; blocks = [] }

-- Every round reads four bytes at least.
unfoldable pub get_blocks : List BlockRequest → List Bool → Peer → Run (List Bytes)
unfolding get_loop start_of
get_blocks requests polls p = get_loop (suc (suc (length p.input))) polls (start_of requests) p

abbrev pub block_size : ℕ
block_size = 16384

unfoldable pub block_length : ℕ → ℕ
block_length remaining = if ltb remaining block_size then remaining else block_size

-- A round takes one byte at least, so that `remaining` rounds are enough.
unfoldable pub requests_from : ℕ → ℕ → ℕ → ℕ → List BlockRequest
unfolding block_length
requests_from zero index begin remaining = []
requests_from (suc n) index begin remaining = elim (remaining == 0) [
  | true ↦ []
  | false ↦
      record { index = index; begin = begin; len = block_length remaining }
      ∷ requests_from n index (begin + block_length remaining) (remaining - block_length remaining)
]

unfoldable pub block_requests : ℕ → ℕ → List BlockRequest
unfolding requests_from
block_requests index piece_length = requests_from piece_length index 0 piece_length

unfoldable pub join : List Bytes → Bytes
join [] = []
join (b ∷ bs) = b ++ join bs

-- `hash` is SHA-1.
unfoldable pub check_piece : (Bytes → Bytes) → Bytes → List Bytes → Peer → Run Bytes
unfolding join bytes_eq
check_piece hash piece_hash blocks p =
    if bytes_eq (hash (join blocks)) piece_hash
    then (ok (join blocks), p)
    else (err invalid_hash, p)

unfoldable pub get_piece : (Bytes → Bytes) → Bytes → ℕ → ℕ → List Bool → Peer → Run Bytes
unfolding get_blocks block_requests and_then check_piece
get_piece hash piece_hash piece_length index polls p =
    and_then (get_blocks (block_requests index piece_length) polls p) (check_piece hash piece_hash)
