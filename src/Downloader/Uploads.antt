-- ===== src/Downloader/Uploads.antt =====
-- internal/downloader/block_server.go: a piece manager serves the requests of other peers.
use mathlib.Core.Path.{subst}
use jelly_torrent.Base.{
  ℕ, ◌+◌, ◌^◌, ◌≤◌, ◌<◌, ◌≡◌, refl, sym, ◌∙◌, ◌&&◌, ◌++◌, false, some, [], Bytes, arith, inl, inr,
  Option-cases, Bool-cases, length, take, drop, length-take, ltb, leb, lt→ltb, le→leb, map,
}
use jelly_torrent.Base.Result.{ok}
use jelly_torrent.Peer.Wire.{Peer, BlockServer}
use jelly_torrent.Peer.Incoming.Calm.{IsAnswer, IsSafe}
use jelly_torrent.Peer.Download.{block_requests, join, get_piece, piece_request}
use jelly_torrent.Peer.Download.Served.{IsServing, handle_all, get_piece-handle_all}
use jelly_torrent.Downloader.PieceManager.{PieceManager}
use jelly_torrent.Downloader.PieceManager.Queries.{get_block, get_piece_data, block_of}
use jelly_torrent.Downloader.PieceManager.Blocks.{requested, get_block-requested}

-- `NewBlockServer`: the piece manager, read when a request comes in.
unfoldable pub new_block_server : PieceManager → BlockServer
unfolding get_block
new_block_server pm index begin len = get_block index begin len pm

-- Every piece that the manager can give is at least 131072 bytes below 2^32.
abbrev pub ArePiecesSmall : PieceManager → Type 0
ArePiecesSmall pm =
    (i : ℕ) (bs : Bytes) → get_piece_data i pm ≡ some bs → length bs + 131072 ≤ 2 ^ 32

requested-IsAnswer :
    (begin len : ℕ) (bs : Bytes) → len ≤ 131072 → IsAnswer (ok (requested begin len bs))
requested-IsAnswer begin len bs h =
    elim (Bool-cases (ltb begin (length bs) && leb (begin + len) (length bs))) [
      | inl e ↦
          inr (take len (drop begin bs), rw e refl, omega (arith, length-take len (drop begin bs)))
      | inr e ↦ inl (rw e refl)
    ]

-- A request that comes in never makes the block server panic, and it gets at most the 131072 bytes that a request may ask for, where the pieces are well below 4 GiB.
pub new_block_server-IsSafe :
    (pm : PieceManager) → ArePiecesSmall pm → IsSafe (some (new_block_server pm))
unfolding IsSafe new_block_server get_block block_of
new_block_server-IsSafe pm small index begin len h = elim (Option-cases (get_piece_data index pm)) [
  | inl e ↦ inl (rw e refl)
  | inr (bs, e) ↦
      subst IsAnswer (sym (get_block-requested index begin len pm bs e h (small index bs e)))
        (requested-IsAnswer begin len bs h)
]

new_block_server-IsServing :
    (pm : PieceManager) (index : ℕ) (bs : Bytes)
    → get_piece_data index pm ≡ some bs
    → length bs + 131072 ≤ 2 ^ 32
    → IsServing (new_block_server pm) index bs
unfolding new_block_server
new_block_server-IsServing pm index bs e small begin len pos_len h fits =
    get_block-requested index begin len pm bs e h small
    ∙ rw (lt→ltb begin (length bs) (omega arith), le→leb (begin + len) (length bs) fits) refl

-- A piece that a piece manager has completed goes from one peer to another: the one serves the requests from its manager and is not choking, the other reads the answers, finds the hash of the piece and returns it, after it has sent the requests of the piece. The connections take as many writes as there are requests, and the piece is well below 4 GiB.
pub get_piece-new_block_server :
    (hash : Bytes → Bytes) (pm : PieceManager) (index : ℕ) (bs : Bytes) (p q : Peer)
    → get_piece_data index pm ≡ some bs
    → length bs + 131072 ≤ 2 ^ 32
    → index < 2 ^ 32
    → q.server ≡ some (new_block_server pm)
    → q.am_choking ≡ false
    → q.sent ≡ []
    → length (block_requests index (length bs)) ≤ q.writes_left
    → length (block_requests index (length bs)) ≤ p.writes_left
    → p.input ≡ join (handle_all (block_requests index (length bs)) q).sent
    → (p' : Peer) × (get_piece hash (hash bs) (length bs) index [] p ≡ (ok bs, p'))
      × (p'.sent ≡ p.sent ++ map piece_request (block_requests index (length bs)))
get_piece-new_block_server hash pm index bs p q e small lt server choking empty writes writes'
      input =
    get_piece-handle_all hash (new_block_server pm) index bs p q server choking empty
      (new_block_server-IsServing pm index bs e small) lt (omega arith) writes writes' input
