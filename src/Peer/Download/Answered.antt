-- ===== src/Peer/Download/Answered.antt =====
-- internal/peer/peer.go: `getBlocks` with a peer that answers the requests in their order.
use mathlib.Core.Path.{subst}
use mathlib.Core.List.{map-append}
use jelly_torrent.Base.{
  ℕ, zero, suc, ◌+◌, ◌-◌, ◌<◌, ◌≤◌, ◌≡◌, refl, sym, ap, ◌∙◌, inl, inr, List, ◌∷◌, ◌++◌, [], Bytes,
  All, arith, length, take, drop, map, ltb, Bool-cases, length-append, length-take, append_assoc,
  append-nil, take-all, take-add, not_ltb_of_le, ==_of_ne, length-drop,
}
use jelly_torrent.Base.Result.{ok}
use jelly_torrent.Base.Binary.{put_u32}
use jelly_torrent.Peer.Wire.{
  Peer, Run, and_then, conn_write, write_left, frame, message_id, is_keep_alive,
}
use jelly_torrent.Peer.Wire.Laws.{IsShort, read_message-front}
use jelly_torrent.Peer.Incoming.Calm.{block-IsShort}
use jelly_torrent.Peer.Download.{
  BlockRequest, Download, block_size, send_request_only, piece_request, max_pipeline_requests, fill,
  on_download, download_message, round, first, get_loop, get_blocks, start_of, join,
}
use jelly_torrent.Peer.Download.InFlight.{IsInFlight, Gives, fill-send, fill-full, round-IsInFlight}
use jelly_torrent.Peer.Download.Ends.{get_loop-full, get_loop-next}
use jelly_torrent.Peer.Download.Requests.{block_at}

-- The message that brings the block of a request.
unfoldable pub reply : Bytes → BlockRequest → Bytes
unfolding frame put_u32
reply bs r = frame 7 (put_u32 r.index ++ (put_u32 r.begin ++ block_at bs r))

-- The loop has sent `j` requests more, and nothing else has changed.
abbrev pub Sent : List BlockRequest → Download → Peer → Download → Peer → Type 0
Sent xs d p d' p' =
    (j : ℕ) × (j ≤ length xs)
    × (d' ≡ record d { requested = d.requested + j })
    × (p'.sent ≡ p.sent ++ map piece_request (take j xs))
    × (p'.writes_left + j ≡ p.writes_left)
    × (p'.input ≡ p.input)

abbrev pub Fills : List BlockRequest → Download → Peer → Type 0
Fills xs d p = (d' : Download) × (p' : Peer) × (fill xs d p ≡ (ok d', p')) × Sent xs d p d' p'

add_suc : (m n : ℕ) → suc m + n ≡ m + suc n
add_suc m n = omega arith

add_zero : (n : ℕ) → n ≡ n + 0
add_zero n = omega arith

none-Sent : (xs : List BlockRequest) (d : Download) (p : Peer) → Sent xs d p d p
none-Sent xs d p = (
  0,
  omega arith,
  ap (λ n. record d { requested = n }) (add_zero d.requested),
  sym (append-nil p.sent),
  omega arith,
  refl,
)

send_request_only-sends :
    (r : BlockRequest) (p : Peer) (n : ℕ)
    → p.writes_left ≡ suc n
    → send_request_only r p
      ≡ (ok tt, record p { sent = p.sent ++ (piece_request r ∷ []); writes_left = n })
unfolding send_request_only conn_write write_left
send_request_only-sends r p n e = rw e refl

pub fill-Fills :
    (xs : List BlockRequest) (d : Download) (p : Peer) → length xs ≤ p.writes_left → Fills xs d p
unfolding and_then fill
fill-Fills [] d p h = (d, p, refl, none-Sent [] d p)
fill-Fills (r ∷ xs) d p h =
    elim (Bool-cases (ltb (d.requested - d.received) max_pipeline_requests)) [
      | inr t ↦ (d, p, fill-full r xs d p t, none-Sent (r ∷ xs) d p)
      | inl t ↦
          let n = p.writes_left - 1 in
          let e : p.writes_left ≡ suc n = omega arith in
          let q : Peer = record p { sent = p.sent ++ (piece_request r ∷ []); writes_left = n } in
          let (d', p', filled, (j, le, d_eq, sent, left, input)) =
            fill-Fills xs (record d { requested = suc d.requested }) q (omega arith) in
          (
            d',
            p',
            fill-send r xs d p t ∙ rw (send_request_only-sends r p n e, and_then) filled,
            (
              suc j,
              omega arith,
              d_eq ∙ ap (λ k. record d { requested = k }) (add_suc d.requested j),
              sent ∙ append_assoc p.sent (piece_request r ∷ []) (map piece_request (take j xs)),
              omega arith,
              input,
            ),
          )
    ]

-- A block that comes in is put at the end.
download_message-piece :
    (d : Download) (p : Peer) (payload : Bytes)
    → 8 ≤ length payload
    → download_message d (record { len = suc (length payload); kind = 7; payload = payload }) p
      ≡ (ok (record d { received = suc d.received; blocks = d.blocks ++ (drop 8 payload ∷ []) }), p)
unfolding download_message is_keep_alive on_download message_id
download_message-piece d p payload h =
    rw (==_of_ne (suc (length payload)) 0 (omega arith), not_ltb_of_le (length payload) 8 h) refl

abbrev body : Bytes → BlockRequest → Bytes
body bs r = put_u32 r.index ++ (put_u32 r.begin ++ block_at bs r)

body-length : (bs : Bytes) (r : BlockRequest) → 8 ≤ length (body bs r)
unfolding put_u32
body-length bs r = omega arith

body-IsShort : (bs : Bytes) (r : BlockRequest) → r.len ≤ block_size → IsShort (body bs r)
body-IsShort bs r h =
    block-IsShort r.index r.begin (block_at bs r)
      (omega (arith, length-take r.len (drop r.begin bs)))

body-drop : (bs : Bytes) (r : BlockRequest) → drop 8 (body bs r) ≡ block_at bs r
unfolding put_u32
body-drop bs r = refl

-- A round with the answer to the next request: requests that are left are sent, and its block is kept.
round-Answered :
    (bs more : Bytes) (r : BlockRequest) (d : Download) (p : Peer)
    → r.len ≤ block_size
    → length d.requests ≤ p.writes_left + d.requested
    → p.input ≡ reply bs r ++ more
    → (d' : Download) × (p' : Peer) × Sent (drop d.requested d.requests) d p d' p'
      × (round d p ≡ (
        ok (record d' { received = suc d'.received; blocks = d'.blocks ++ (block_at bs r ∷ []) }),
        record p' { input = more },
      ))
unfolding round and_then reply
round-Answered bs more r d p small writes h =
    let xs = drop d.requested d.requests in
    let (d', p', filled, sent) =
      fill-Fills xs d p (omega (arith, length-drop d.requested d.requests)) in
    let (j, le, d_eq, out, left, input) = sent in
    (
      d',
      p',
      sent,
      rw
          (
            filled,
            read_message-front 7 (body bs r) more p' (body-IsShort bs r small) (input ∙ h),
            download_message-piece d' (record p' { input = more }) (body bs r) (body-length bs r),
          )
          (ap
            (λ b. (
              ok (record d' { received = suc d'.received; blocks = d'.blocks ++ (b ∷ []) }),
              record p' { input = more },
            ))
            (body-drop bs r)),
    )

-- The requests that a round sends follow those that were sent before.
sent-more :
    (start : List Bytes) (rs : List BlockRequest) (m j : ℕ)
    → (start ++ map piece_request (take m rs)) ++ map piece_request (take j (drop m rs))
      ≡ start ++ map piece_request (take (m + j) rs)
sent-more start rs m j =
    append_assoc start (map piece_request (take m rs)) _
    ∙ ap (λ t. start ++ t)
        (sym (map-append piece_request (take m rs) (take j (drop m rs)))
          ∙ ap (map piece_request) (sym (take-add m j rs)))

abbrev pub IsSmall : BlockRequest → Type 0
IsSmall r = r.len ≤ block_size

between : (a b n : ℕ) → a + 0 ≡ n → a ≤ b → b ≤ n → b ≡ n
between a b n h le le' = omega arith

-- The blocks of the requests that are left come in, and all requests have been sent.
abbrev Finishes :
    Bytes
    → List BlockRequest
    → List Bytes
    → List BlockRequest
    → Download
    → Run (List Bytes)
    → Type 0
Finishes bs rs start left d r =
    (q : Peer) × (r ≡ (ok (d.blocks ++ map (block_at bs) left), q))
    × (q.sent ≡ start ++ map piece_request rs)

get_loop-Finishes :
    (n : ℕ) (bs : Bytes) (rs left : List BlockRequest) (start : List Bytes) (d : Download)
    (p : Peer)
    → IsInFlight rs d
    → d.received + length left ≡ length rs
    → All IsSmall left
    → length left < n
    → length rs ≤ p.writes_left + d.requested
    → p.sent ≡ start ++ map piece_request (take d.requested rs)
    → p.input ≡ join (map (reply bs) left)
    → Finishes bs rs start left d (get_loop n [] d p)
unfolding Gives join and_then first
get_loop-Finishes zero bs rs left start d p h count small lt writes sent input =
    absurd (omega arith)
get_loop-Finishes (suc n) bs rs [] start d p (e, a, b, c, l) count small lt writes sent input = (
  p,
  get_loop-full n [] d p (omega (arith, ap length e))
      ∙ ap (λ t. (ok t, p)) (sym (append-nil d.blocks)),
  sent
      ∙ ap (λ t. start ++ map piece_request t)
          (ap (λ k. take k rs) (between d.received d.requested (length rs) count a b)
            ∙ take-all rs),
)
get_loop-Finishes (suc n) bs rs (r ∷ left) start d p h count (small, smalls) lt writes sent input =
    let same = ap length h.0 in
    let (d', p', sends, e) =
      round-Answered bs (join (map (reply bs) left)) r d p small (omega arith) input in
    let (j, le, d_eq, out, writes', same') = sends in
    let d'' : Download = record d' {
      received = suc d'.received;
      blocks = d'.blocks ++ (block_at bs r ∷ []);
    } in
    let h'' : IsInFlight rs d'' =
      subst (Gives (IsInFlight rs)) e (round-IsInFlight rs d p h (omega arith)) in
    let received = ap (λ t. t.received) d_eq in
    let requested = ap (λ t. t.requested) d_eq in
    let (q, result, all_sent) =
      get_loop-Finishes n bs rs left start d'' (record p' { input = join (map (reply bs) left) })
        h'' (omega arith) smalls (omega arith) (omega arith)
        (out
          ∙ ap (λ t. t ++ map piece_request (take j (drop d.requested d.requests))) sent
          ∙ ap
              (λ t.
                (start ++ map piece_request (take d.requested rs))
                ++ map piece_request (take j (drop d.requested t)))
              h.0
          ∙ sent-more start rs d.requested j
          ∙ ap (λ k. start ++ map piece_request (take k rs)) (sym requested))
        refl in
    (
      q,
      get_loop-next n [] d p (omega arith) refl
          ∙ rw (e, and_then)
              (result
                ∙ ap (λ t. (ok t, q))
                    (append_assoc d'.blocks (block_at bs r ∷ []) (map (block_at bs) left)
                      ∙ ap (λ t. t.blocks ++ (block_at bs r ∷ map (block_at bs) left)) d_eq)),
      all_sent,
    )

replies-length :
    (bs : Bytes) (rs : List BlockRequest) → length rs ≤ length (join (map (reply bs) rs))
unfolding join reply frame put_u32
replies-length bs [] = omega arith
replies-length bs (r ∷ rs) =
    omega (arith, replies-length bs rs, length-append (block_at bs r) (join (map (reply bs) rs)))

-- When the peer answers the requests in their order, and the connection takes as many writes as there are requests, `getBlocks` returns the blocks in that order, and has sent just the requests.
pub get_blocks-answered :
    (bs : Bytes) (rs : List BlockRequest) (p : Peer)
    → All IsSmall rs
    → length rs ≤ p.writes_left
    → p.input ≡ join (map (reply bs) rs)
    → (q : Peer) × (get_blocks rs [] p ≡ (ok (map (block_at bs) rs), q))
      × (q.sent ≡ p.sent ++ map piece_request rs)
unfolding get_blocks start_of
get_blocks-answered bs rs p small writes input =
    get_loop-Finishes (suc (suc (length p.input))) bs rs rs p.sent (start_of rs) p
      (refl, omega arith, omega arith, omega arith, omega arith) (omega arith) small
      (omega (arith, ap length input, replies-length bs rs)) (omega arith) (sym (append-nil p.sent))
      input
