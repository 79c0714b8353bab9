-- ===== src/Downloader/PieceManager/Queries.antt =====
-- internal/downloader/piece_manager.go: the operations that read the state, and
-- internal/downloader/block_server.go.
use jelly_torrent.Base.{
  ℕ, suc, ◌+◌, ◌-◌, ◌%◌, ◌^◌, Bool, true, false, ◌&&◌, Option, none, some, List, [], ◌∷◌, Bytes,
  length, get_elem?, get_or, take, drop, ltb, leb, if◌then◌else◌,
}
use jelly_torrent.Base.Result.{Result, ok, err, Panic, slice_bounds}
use jelly_torrent.Peer.BitField.{BitField, new_bit_field, has_piece, set_piece}
use jelly_torrent.Storage.{DiskStore, read_piece}
use jelly_torrent.Downloader.PieceManager.{PieceManager, PieceState, pending, completed_piece}

unfoldable pub is_pending : PieceState → Bool
is_pending pending = true
is_pending _ = false

unfoldable pub is_completed : PieceState → Bool
is_completed completed_piece = true
is_completed _ = false

unfoldable pub pending_from : BitField → ℕ → List PieceState → Bool
unfolding is_pending
pending_from bf i [] = false
pending_from bf i (s ∷ ss) =
    let later = pending_from bf (suc i) ss in if is_pending s && has_piece bf i then true else later

unfoldable pub has_pending_for : BitField → PieceManager → Bool
unfolding pending_from
has_pending_for bf pm = pending_from bf 0 pm.states

unfoldable pub progress : PieceManager → ℕ × ℕ
progress pm = (pm.completed, pm.total)

-- A piece that is not in memory, where `nil` is `none`, is read from the disk.
unfoldable pub piece_bytes : ℕ → Option Bytes → Option DiskStore → Option Bytes
piece_bytes i (some bs) store = some bs
piece_bytes i none (some ds) = read_piece i ds
piece_bytes i none none = some []

-- `none` is `nil, false`. A `nil` slice that is returned with `true` is an empty one.
unfoldable pub get_piece_data : ℕ → PieceManager → Option Bytes
unfolding is_completed piece_bytes
get_piece_data i pm = elim (get_elem? pm.states i) [
  | none ↦ none
  | some s ↦ if is_completed s then piece_bytes i (get_or pm.piece_data i none) pm.store else none
]

-- The loop of `CompletedBitfield`.
unfoldable pub mark_completed : ℕ → List PieceState → BitField → BitField
unfolding is_completed
mark_completed i [] bf = bf
mark_completed i (s ∷ ss) bf =
    mark_completed (suc i) ss (if is_completed s then set_piece bf i else bf)

unfoldable pub completed_bitfield : PieceManager → BitField
unfolding mark_completed
completed_bitfield pm = mark_completed 0 pm.states (new_bit_field pm.total)

-- `data[begin:end]`
unfoldable pub slice : Bytes → ℕ → ℕ → Result Panic Bytes
slice bs low high =
    if leb low high && leb high (length bs)
    then ok (take (high - low) (drop low bs))
    else err slice_bounds

-- The sum of `begin` and `length` is a uint32 before it is converted.
unfoldable pub block_of : ℕ → ℕ → Option Bytes → Result Panic (Option Bytes)
unfolding slice
block_of begin len none = ok none
block_of begin len (some bs) =
    let block_end = (begin + len) % 2 ^ 32 in
    if leb (length bs) begin
    then ok none
    else if ltb (length bs) block_end
    then ok none
    else elim (slice bs begin block_end) [ err p ↦ err p | ok block ↦ ok (some block) ]

unfoldable pub get_block : ℕ → ℕ → ℕ → PieceManager → Result Panic (Option Bytes)
unfolding block_of
get_block i begin len pm = block_of begin len (get_piece_data i pm)

unfoldable pub is_endgame : PieceManager → Bool
is_endgame pm = pm.endgame_activated

-- One round of the loop of `Results`; a piece that cannot be read stays `nil`.
unfoldable pub result_of : DiskStore → ℕ → Option Bytes → PieceState → Option Bytes
unfolding is_completed
result_of ds i (some bs) s = some bs
result_of ds i none s = if is_completed s then read_piece i ds else none

unfoldable pub collect_results :
    DiskStore → ℕ → List (Option Bytes) → List PieceState → List (Option Bytes)
unfolding result_of
collect_results ds i [] states = []
collect_results ds i (data_piece ∷ more) [] = []
collect_results ds i (data_piece ∷ more) (s ∷ states) =
    result_of ds i data_piece s ∷ collect_results ds (suc i) more states

unfoldable pub results : PieceManager → List (Option Bytes)
unfolding collect_results
results pm = elim pm.store [
  | none ↦ pm.piece_data
  | some ds ↦ collect_results ds 0 pm.piece_data pm.states
]
