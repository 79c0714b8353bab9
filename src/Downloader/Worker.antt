-- ===== src/Downloader/Worker.antt =====
-- internal/downloader/worker.go: a worker, which downloads pieces from one peer.
pub mod Tried
pub mod Settled
pub mod Setup
use jelly_torrent.Base.{
  ℕ, zero, suc, ◌+◌, ◌%◌, ◌^◌, Bool, true, false, ◌||◌, ◌&&◌, Option, none, some, List, [], ◌∷◌,
  ◌++◌, Bytes, length, ltb, ◌==◌, if◌then◌else◌, ℤ, pos, ltb_ℤ,
}
use jelly_torrent.Base.Result.{Result, ok, err, Panic}
use jelly_torrent.Base.Binary.{get_u32}
use jelly_torrent.Storage.{WriteCalls}
use jelly_torrent.Peer.BitField.{set_piece}
use jelly_torrent.Peer.Wire.{
  Peer, PeerMessage, Run, WireError, waiting, peer_choked, piece_cancelled, endless, panicked,
  and_then, logged, MessageId, choke, unchoke, have, request, extension, message_id, is_keep_alive,
  read_message, read_bitfield, send_interested, send_not_interested, send_unchoke, send_have,
}
use jelly_torrent.Peer.Handshake.{Handshake, shake_hands, has_extensions}
use jelly_torrent.Peer.Metadata.{ExtensionResponse, extension_handshake}
use jelly_torrent.Peer.Incoming.{handle_request, handle_extension, wait_for_unchoke}
use jelly_torrent.Peer.Download.{get_piece}
use jelly_torrent.Downloader.Selector.{PieceSelector}
use jelly_torrent.Downloader.PieceManager.{
  PieceManager, PieceInfo, HaveSub, release, release_all, cancel_ch, is_finished,
}
use jelly_torrent.Downloader.PieceManager.Assign.{
  assign, remove_availability, increment_availability,
}
use jelly_torrent.Downloader.PieceManager.Complete.{complete}
use jelly_torrent.Downloader.PieceManager.Queries.{is_endgame, has_pending_for}
use jelly_torrent.Downloader.Uploads.{new_block_server}

-- A worker with the piece manager that it shares; `results` are the pieces that it gave on.
pub record Worker : Type 0 where
  pub peer : Peer
  pub pm : PieceManager
  pub have_ch : ℕ
  pub attempted : ℕ
  pub downloaded : ℕ
  pub failed : ℕ
  pub results : List (ℕ × Bytes)

-- What comes after a round of `pieceLoop`: another one, `waitForNewPieces`, or the return.
pub data Turn : Type 0 where
  again must_wait finished : Turn
  fails : WireError → Turn

-- The errors of `GetPiece` that the loop tells apart; a call that never returns keeps its piece.
pub data Trouble : Type 0 where
  was_cancelled was_choked has_panicked never_returns other : Trouble

unfoldable pub trouble : WireError → Trouble
trouble piece_cancelled = was_cancelled
trouble peer_choked = was_choked
trouble (panicked q) = has_panicked
trouble waiting = never_returns
trouble _ = other

-- The answers to requests are read from the manager as it is when the operation begins.
unfoldable pub serving : PieceManager → Peer → Peer
unfolding new_block_server
serving pm p = elim p.server [
  | none ↦ p
  | some _ ↦ record p { server = some (new_block_server pm) }
]

unfoldable pub after_unchoke : Run Unit → Worker → Turn × Worker
after_unchoke (ok _, p) w = (again, record w { peer = p })
after_unchoke (err e, p) w = (fails e, record w { peer = p })

-- `Release`, and then the wait of a worker that was choked.
unfoldable pub after_release : Trouble → Result Panic PieceManager → Worker → Turn × Worker
unfolding after_unchoke wait_for_unchoke serving
after_release t (err q) w = (fails (panicked q), w)
after_release was_choked (ok pm) w =
    after_unchoke (wait_for_unchoke (serving pm w.peer)) (record w { pm = pm })
after_release _ (ok pm) w = (again, record w { pm = pm; failed = suc w.failed })

unfoldable pub on_trouble : Trouble → WireError → ℕ → Worker → Turn × Worker
unfolding after_release release
on_trouble was_cancelled e i w = (again, w)
on_trouble has_panicked e i w = (fails e, w)
on_trouble never_returns e i w = (fails e, w)
on_trouble was_choked e i w = after_release was_choked (release i w.pm) w
on_trouble other e i w = after_release other (release i w.pm) w

unfoldable pub on_complete : Result Panic PieceManager → ℕ → Bytes → Worker → Turn × Worker
on_complete (err q) i bs w = (fails (panicked q), w)
on_complete (ok pm) i bs w = (
  again,
  record w { pm = pm; downloaded = suc w.downloaded; results = w.results ++ ((i, bs) ∷ []) },
)

unfoldable pub on_piece : WriteCalls → ℕ → Run Bytes → Worker → Turn × Worker
unfolding on_complete complete on_trouble trouble
on_piece calls i (ok bs, p) w = on_complete (complete calls i bs w.pm) i bs (record w { peer = p })
on_piece calls i (err e, p) w = on_trouble (trouble e) e i (record w { peer = p })

-- The loop that drains the channel of completed pieces; an error drops the rest of the loop.
unfoldable pub send_pending_haves : List ℕ → Peer → List ℕ × Peer
unfolding send_have
send_pending_haves [] p = ([], p)
send_pending_haves (i ∷ is) p = elim (send_have (i % 2 ^ 32) p).0 [
  | ok _ ↦ send_pending_haves is (send_have (i % 2 ^ 32) p).1
  | err e ↦ (is, (send_have (i % 2 ^ 32) p).1)
]

-- The buffer of a subscription to `Have` messages.
unfoldable pub queue_of : ℕ → List HaveSub → List ℕ
queue_of ch [] = []
queue_of ch (sub ∷ subs) = if sub.channel == ch then sub.queue else queue_of ch subs

unfoldable pub put_queue : ℕ → List ℕ → List HaveSub → List HaveSub
put_queue ch queue [] = []
put_queue ch queue (sub ∷ subs) =
    if sub.channel == ch then record sub { queue = queue } ∷ subs else sub ∷ put_queue ch queue subs

unfoldable pub flush_haves : Worker → Worker
unfolding send_pending_haves queue_of put_queue
flush_haves w =
    let (rest, p) = send_pending_haves (queue_of w.have_ch w.pm.have_subs) w.peer in
    record w { peer = p; pm = record w.pm { have_subs = put_queue w.have_ch rest w.pm.have_subs } }

-- The channel that cancels is asked for in endgame only.
unfoldable pub cancel_if : Bool → List Bool → ℕ → PieceManager → List Bool × PieceManager
unfolding cancel_ch
cancel_if true polls i pm = (polls, (cancel_ch i pm).1)
cancel_if false polls i pm = ([], pm)

unfoldable pub with_cancel : List Bool → ℕ → PieceManager → List Bool × PieceManager
unfolding is_endgame cancel_if
with_cancel polls i pm = cancel_if (is_endgame pm) polls i pm

-- `meanwhile` is what the calls of the other workers do to the manager while the piece is downloaded:
-- the lock is held within each method only, so that they come between the calls of this worker.
module _ (hash : Bytes → Bytes) (calls : WriteCalls) (polls : List Bool)
    (meanwhile : PieceManager → PieceManager) where
  unfoldable pub on_info : PieceInfo → PieceManager → Worker → Turn × Worker
  unfolding with_cancel on_piece get_piece serving
  on_info info pm w =
      let (polls', pm') = with_cancel polls info.index pm in
      on_piece calls info.index
        (get_piece hash info.hash info.piece_length (info.index % 2 ^ 32) polls'
          (serving pm' w.peer))
        (record w { pm = meanwhile pm'; attempted = suc w.attempted })

  unfoldable pub on_assign : Result Panic (Option PieceInfo × PieceManager) → Worker → Turn × Worker
  unfolding on_info is_finished
  on_assign (err q) w = (fails (panicked q), w)
  on_assign (ok (none, pm)) w =
      (if is_finished pm then finished else must_wait, record w { pm = pm })
  on_assign (ok (some info, pm)) w = on_info info pm w

  -- A round of `pieceLoop` that no context has ended.
  unfoldable pub take_turn : PieceSelector → Bytes → Worker → Turn × Worker
  unfolding on_assign assign flush_haves
  take_turn sel addr w =
      let w' = flush_haves w in
      if w'.pm.done_closed
      then (finished, w')
      else on_assign (assign sel addr w'.peer.bit_field w'.pm) w'

-- The answer to an extension handshake; an error is logged.
unfoldable pub on_extensions : Bool → Run ExtensionResponse → Run Unit
unfolding logged
on_extensions has_pex (ok r, p) = (
  ok tt,
  record p {
    ut_pex_id = r.ut_pex_id;
    has_on_pex = p.has_on_pex || (ltb_ℤ (pos 0) r.ut_pex_id && has_pex);
  },
)
on_extensions has_pex (err waiting, p) = (err waiting, p)
on_extensions has_pex (err e, p) = logged (err e, p)

unfoldable pub negotiate : Bool → Handshake → Peer → Run Unit
unfolding on_extensions extension_handshake has_extensions
negotiate has_pex h p = elim (has_extensions h) [
  | true ↦ on_extensions has_pex (extension_handshake p)
  | false ↦ (ok tt, p)
]

-- Uploads are set up, and the interest is made known.
unfoldable pub announce : PieceManager → Peer → Run Unit
unfolding new_block_server send_unchoke send_interested logged and_then wait_for_unchoke
announce pm p =
    and_then
      (logged (send_unchoke (record p { server = some (new_block_server pm); am_choking = false })))
      (λ _ p1. and_then (send_interested p1) (λ _ p2. wait_for_unchoke p2))

unfoldable pub setup : Bytes → Bool → PieceManager → Peer → Run Unit
unfolding shake_hands read_bitfield and_then negotiate announce
setup info_hash has_pex pm p = and_then (shake_hands info_hash true p) (λ h p1.
    and_then (read_bitfield p1)
      (λ _ p2. and_then (negotiate has_pex h p2) (λ _ p3. announce pm p3)))

-- A `Have` while waiting: interest again, once the peer has a piece that is pending.
unfoldable pub on_new_piece : ℕ → Worker → Turn × Worker
unfolding set_piece increment_availability has_pending_for after_unchoke and_then send_interested
    wait_for_unchoke serving
on_new_piece i w =
    let p = record w.peer { bit_field = set_piece w.peer.bit_field i } in
    let pm = increment_availability i w.pm in
    if has_pending_for p.bit_field pm
    then after_unchoke (and_then (send_interested (serving pm p)) (λ _ q. wait_for_unchoke q))
        (record w { peer = p; pm = pm })
    else (must_wait, record w { peer = p; pm = pm })

unfoldable pub after_logged : Run Unit → Worker → Turn × Worker
after_logged (ok _, p) w = (must_wait, record w { peer = p })
after_logged (err e, p) w = (fails e, record w { peer = p })

unfoldable pub on_idle : MessageId → Bytes → Worker → Turn × Worker
unfolding on_new_piece get_u32 after_logged logged handle_request handle_extension serving
on_idle have payload w =
    if ltb (length payload) 4 then (must_wait, w) else on_new_piece (get_u32 payload) w
on_idle choke payload w = (must_wait, record w { peer = record w.peer { choked = true } })
on_idle unchoke payload w = (must_wait, record w { peer = record w.peer { choked = false } })
on_idle request payload w = after_logged (logged (handle_request payload (serving w.pm w.peer))) w
on_idle extension payload w = (must_wait, record w { peer = handle_extension payload w.peer })
on_idle _ payload w = (must_wait, w)

-- A round of `waitForNewPieces`. A deadline that passes is an error of `ReadMessage`, which wraps it,
-- so that the type assertion on a timeout never holds.
unfoldable pub idle_message : Run PeerMessage → Worker → Turn × Worker
unfolding on_idle message_id is_keep_alive
idle_message (err e, p) w = (fails e, record w { peer = p })
idle_message (ok m, p) w =
    if is_keep_alive m
    then (must_wait, record w { peer = p })
    else on_idle (message_id m.kind) m.payload (record w { peer = p })

unfoldable pub wait_round : Worker → Turn × Worker
unfolding idle_message read_message flush_haves
wait_round w =
    if w.pm.done_closed
    then (again, w)
    else (let w' = flush_haves w in idle_message (read_message w'.peer) w')

-- The loop, which ends with the connection at the latest.
unfoldable pub idle_loop : ℕ → Worker → Turn × Worker
unfolding wait_round
idle_loop zero w = (fails endless, w)
idle_loop (suc n) w = elim (wait_round w).0 [
  | must_wait ↦ idle_loop n (wait_round w).1
  | t ↦ (t, (wait_round w).1)
]

unfoldable pub wait_for_new_pieces : Worker → Turn × Worker
unfolding idle_loop send_not_interested
wait_for_new_pieces w =
    idle_loop (suc (length w.peer.input)) (record w { peer = (send_not_interested w.peer).1 })

unfoldable pub cleanup : Bytes → Worker → PieceManager
unfolding remove_availability release_all
cleanup addr w = remove_availability w.peer.bit_field (release_all addr w.pm)
