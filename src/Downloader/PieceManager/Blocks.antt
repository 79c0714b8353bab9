-- ===== src/Downloader/PieceManager/Blocks.antt =====
-- internal/downloader/block_server.go: what a request for a block of a piece gets.
use jelly_torrent.Base.{
  ℕ, ◌+◌, ◌-◌, ◌%◌, ◌^◌, ◌≤◌, ◌<◌, ◌≡◌, ◌&&◌, Option, none, some, Bytes, arith, length, take, drop,
  leb, ltb, if◌then◌else◌, inl, inr, Bool-cases, ltb→lt, le_of_not_ltb,
}
use jelly_torrent.Base.Result.{ok, err, slice_bounds}
use jelly_torrent.Downloader.PieceManager.{PieceManager}
use jelly_torrent.Downloader.PieceManager.Queries.{slice, block_of, get_block, get_piece_data}

-- The block that BEP 3 asks for: `len` bytes from `begin` on, if the piece has them.
abbrev pub requested : ℕ → ℕ → Bytes → Option Bytes
requested begin len bs =
    if ltb begin (length bs) && leb (begin + len) (length bs)
    then some (take len (drop begin bs))
    else none

in_range :
    (begin len : ℕ) (bs : Bytes)
    → begin + len < 2 ^ 32
    → begin < length bs
    → block_of begin len (some bs) ≡ ok (requested begin len bs)
unfolding block_of slice
in_range begin len bs no_wrap lt =
    let e : (begin + len) % 2 ^ 32 ≡ begin + len = omega (arith, no_wrap) in
    let e' : begin + len - begin ≡ len = omega arith in rw (e, e') (ground arith)

block_of-requested :
    (begin len : ℕ) (bs : Bytes)
    → len ≤ 131072
    → length bs + 131072 ≤ 2 ^ 32
    → block_of begin len (some bs) ≡ ok (requested begin len bs)
block_of-requested begin len bs short small = elim (Bool-cases (ltb begin (length bs))) [
  | inl e ↦
      in_range begin len bs (omega (arith, ltb→lt begin (length bs) e)) (ltb→lt begin (length bs) e)
  | inr e ↦ unfold block_of in ground (arith, le_of_not_ltb begin (length bs) e)
]

block_of-panics :
    (begin len : ℕ) (bs : Bytes)
    → len < 2 ^ 32
    → begin < 2 ^ 32
    → begin < length bs
    → 2 ^ 32 ≤ begin + len
    → block_of begin len (some bs) ≡ err slice_bounds
unfolding block_of slice
block_of-panics begin len bs l b h over = ground arith

-- A request of at most 131072 bytes, the bound of `HandleRequest`, for a completed piece of at most 2^32 - 131072 bytes never panics: it gets the bytes from `begin` on when the piece has them all, and nothing otherwise.
pub get_block-requested :
    (i begin len : ℕ) (pm : PieceManager) (bs : Bytes)
    → get_piece_data i pm ≡ some bs
    → len ≤ 131072
    → length bs + 131072 ≤ 2 ^ 32
    → get_block i begin len pm ≡ ok (requested begin len bs)
unfolding get_block
get_block-requested i begin len pm bs e short small =
    rw e (block_of-requested begin len bs short small)

-- Where `begin + length` does not fit in a uint32 and `begin` is in the piece, `GetBlock` panics, since the sum wraps to an end before `begin`.
pub get_block-panics :
    (i begin len : ℕ) (pm : PieceManager) (bs : Bytes)
    → get_piece_data i pm ≡ some bs
    → begin < 2 ^ 32
    → len < 2 ^ 32
    → begin < length bs
    → 2 ^ 32 ≤ begin + len
    → get_block i begin len pm ≡ err slice_bounds
unfolding get_block
get_block-panics i begin len pm bs e b l lt over = rw e (block_of-panics begin len bs l b lt over)
