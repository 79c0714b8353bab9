-- ===== src/Peer/Download/Served.antt =====
-- internal/peer/peer.go: one peer gets a piece from another, `GetPiece` from `HandleRequest`.
use jelly_torrent.Base.{
  ℕ, suc, ◌+◌, ◌-◌, ◌^◌, ◌<◌, ◌≤◌, ◌≡◌, refl, sym, ap, ◌∙◌, some, List, ◌∷◌, ◌++◌, [], Bytes, All,
  arith, length, take, drop, map, false, append_assoc, append-nil, length-take, bytes_eq_refl,
  not_ltb_of_le,
}
use jelly_torrent.Base.Result.{ok}
use jelly_torrent.Base.Binary.{put_u32, get_u32, get_u32-put_u32}
use jelly_torrent.Peer.Wire.{Peer, and_then, conn_write, write_left, frame, BlockServer}
use jelly_torrent.Peer.Wire.Laws.{send_only_lem}
use jelly_torrent.Peer.Incoming.Calm.{block-IsShort}
use jelly_torrent.Peer.Incoming.{handle_request, request_of, serve_request, send_block}
use jelly_torrent.Peer.Download.{
  BlockRequest, request_payload, piece_request, block_requests, join, check_piece, get_piece,
}
use jelly_torrent.Peer.Download.Requests.{block_at, IsRequest, block_requests-Cuts}
use jelly_torrent.Peer.Download.Answered.{reply, IsSmall, get_blocks-answered}

-- The server has the piece: a request within it gets its bytes.
abbrev pub IsServing : BlockServer → ℕ → Bytes → Type 0
IsServing serve index bs =
    (begin len : ℕ)
    → 0 < len
    → len ≤ 131072
    → begin + len ≤ length bs
    → serve index begin len ≡ ok (some (take len (drop begin bs)))

-- A peer that handles requests, one after the other.
unfoldable pub handle_all : List BlockRequest → Peer → Peer
unfolding handle_request request_payload
handle_all [] q = q
handle_all (r ∷ rs) q = handle_all rs (handle_request (request_payload r) q).1

-- The three numbers of a request are read back.
payload_index : (r : BlockRequest) → r.index < 2 ^ 32 → get_u32 (request_payload r) ≡ r.index
unfolding request_payload
payload_index r h = get_u32-put_u32 r.index _ h

payload_begin :
    (r : BlockRequest) → r.begin < 2 ^ 32 → get_u32 (drop 4 (request_payload r)) ≡ r.begin
unfolding request_payload put_u32
payload_begin r h = get_u32-put_u32 r.begin (put_u32 r.len) h

payload_len : (r : BlockRequest) → r.len < 2 ^ 32 → get_u32 (drop 8 (request_payload r)) ≡ r.len
unfolding request_payload put_u32
payload_len r h = get_u32-put_u32 r.len [] h

request_of-some :
    (serve : BlockServer) (payload : Bytes) (q : Peer)
    → q.am_choking ≡ false
    → 12 ≤ length payload
    → request_of (some serve) payload q
      ≡ serve_request serve
          (get_u32 payload)
          (get_u32 (drop 4 payload))
          (get_u32 (drop 8 payload))
          q
unfolding request_of
request_of-some serve payload q choking h =
    rw (choking, not_ltb_of_le (length payload) 12 h, request_of) refl

payload-length : (r : BlockRequest) → 12 ≤ length (request_payload r)
unfolding request_payload put_u32
payload-length r = omega arith

serve_request-block :
    (serve : BlockServer) (index begin len : ℕ) (block : Bytes) (q : Peer)
    → len ≤ 131072
    → length block ≤ 131072
    → serve index begin len ≡ ok (some block)
    → serve_request serve index begin len q
      ≡ conn_write (frame 7 (put_u32 index ++ (put_u32 begin ++ block))) q
unfolding serve_request send_block
serve_request-block serve index begin len block q small short e =
    rw (not_ltb_of_le 131072 len small, e)
      (send_only_lem 7 (put_u32 index ++ (put_u32 begin ++ block)) q
        (block-IsShort index begin block short))

pub handle_request-reply :
    (serve : BlockServer) (index : ℕ) (bs : Bytes) (r : BlockRequest) (q : Peer)
    → q.server ≡ some serve
    → q.am_choking ≡ false
    → IsServing serve index bs
    → index < 2 ^ 32
    → length bs < 2 ^ 32
    → IsRequest index (length bs) r
    → handle_request (request_payload r) q ≡ conn_write (reply bs r) q
unfolding handle_request reply
handle_request-reply serve index bs r q server choking serves small short (e, positive, le, fits) =
    ap (λ s. request_of s (request_payload r) q) server
    ∙ request_of-some serve (request_payload r) q choking (payload-length r)
    ∙ rw (payload_index r (omega arith), payload_begin r (omega arith), payload_len r (omega arith))
        (serve_request-block serve r.index r.begin r.len (block_at bs r) q (omega arith)
          (omega (arith, length-take r.len (drop r.begin bs)))
          (ap (λ i. serve i r.begin r.len) e ∙ serves r.begin r.len positive (omega arith) fits))

-- A peer that serves the piece writes the answers in the order of the requests.
handle_all-sent :
    (serve : BlockServer) (index : ℕ) (bs : Bytes) (rs : List BlockRequest) (q : Peer)
    → q.server ≡ some serve
    → q.am_choking ≡ false
    → IsServing serve index bs
    → index < 2 ^ 32
    → length bs < 2 ^ 32
    → All (IsRequest index (length bs)) rs
    → length rs ≤ q.writes_left
    → (handle_all rs q).sent ≡ q.sent ++ map (reply bs) rs
unfolding handle_all
handle_all-sent serve index bs [] q server choking serves small short h writes =
    sym (append-nil q.sent)
handle_all-sent serve index bs (r ∷ rs) q server choking serves small short (h, hs) writes =
    let n = q.writes_left - 1 in
    let e : q.writes_left ≡ suc n = omega arith in
    let q' : Peer = record q { sent = q.sent ++ (reply bs r ∷ []); writes_left = n } in
    let written : conn_write (reply bs r) q ≡ (ok tt, q') =
      unfold conn_write write_left in ap (λ k. write_left k (reply bs r) q) e in
    let handled =
      handle_request-reply serve index bs r q server choking serves small short h ∙ written in
    ap (λ t. (handle_all rs t.1).sent) handled
    ∙ handle_all-sent serve index bs rs q' server choking serves small short hs (omega arith)
    ∙ append_assoc q.sent (reply bs r ∷ []) (map (reply bs) rs)

all-IsSmall : (index n : ℕ) (rs : List BlockRequest) → All (IsRequest index n) rs → All IsSmall rs
all-IsSmall index n [] h = tt
all-IsSmall index n (r ∷ rs) ((e, positive, le, fits), h) = (le, all-IsSmall index n rs h)

-- One peer has a piece, is not choking the other and handles its requests; the other reads what it writes and gets the piece, with the hash checked, after it has sent the requests of the piece, where both connections take as many writes as there are requests.
pub get_piece-handle_all :
    (hash : Bytes → Bytes) (serve : BlockServer) (index : ℕ) (bs : Bytes) (p q : Peer)
    → q.server ≡ some serve
    → q.am_choking ≡ false
    → q.sent ≡ []
    → IsServing serve index bs
    → index < 2 ^ 32
    → length bs < 2 ^ 32
    → length (block_requests index (length bs)) ≤ q.writes_left
    → length (block_requests index (length bs)) ≤ p.writes_left
    → p.input ≡ join (handle_all (block_requests index (length bs)) q).sent
    → (p' : Peer) × (get_piece hash (hash bs) (length bs) index [] p ≡ (ok bs, p'))
      × (p'.sent ≡ p.sent ++ map piece_request (block_requests index (length bs)))
unfolding get_piece and_then check_piece
get_piece-handle_all hash serve index bs p q server choking empty serves small short writes writes'
      input =
    let rs = block_requests index (length bs) in
    let (requests, joined) = block_requests-Cuts index bs in
    let answers =
      handle_all-sent serve index bs rs q server choking serves small short requests writes
      ∙ ap (λ t. t ++ map (reply bs) rs) empty in
    let (p', e, sent) =
      get_blocks-answered bs rs p (all-IsSmall index (length bs) rs requests) writes'
        (input ∙ ap join answers) in
    (p', rw (e, joined, bytes_eq_refl (hash bs)) refl, sent)
