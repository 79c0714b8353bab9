-- ===== src/Downloader/PieceManager/Assign.antt =====
-- internal/downloader/piece_manager.go: `Assign`, and the counts of the peers that have a piece.
pub mod Candidates
pub mod Laws
use jelly_torrent.Base.{
  ℕ, zero, suc, ◌+◌, ◌-◌, Bool, true, false, ◌&&◌, ◌||◌, not, Option, none, some, List, [], ◌∷◌,
  Bytes, bytes_eq, ℤ, inc, dec, length, get_elem?, get_or, set, ltb, leb, if◌then◌else◌,
}
use jelly_torrent.Base.Result.{Result, ok, err, ◌>>=◌, Panic, index_out_of_range}
use jelly_torrent.Peer.BitField.{BitField, has_piece}
use jelly_torrent.Downloader.Selector.{PieceSelector, at_index}
use jelly_torrent.Downloader.PieceManager.{
  PieceManager, PieceInfo, PieceState, pending, in_progress, completed_piece,
}

unfoldable pub endgame : PieceManager → Bool
endgame pm = ltb 0 pm.endgame_threshold && leb (pm.total - pm.completed) pm.endgame_threshold

abbrev pub Candidates : Type 0
Candidates = List ℕ × List ℕ

-- One round of the loop over the states: the pending pieces, and those of other peers.
unfoldable pub sort_piece : Bool → Bytes → ℕ → Bytes → PieceState → Candidates → Candidates
sort_piece eg addr i owner pending (mine, others) = (i ∷ mine, others)
sort_piece eg addr i owner in_progress (mine, others) =
    if eg && not (bytes_eq owner addr) then (mine, i ∷ others) else (mine, others)
sort_piece eg addr i owner completed_piece (mine, others) = (mine, others)

module _ (eg : Bool) (addr : Bytes) (bf : BitField) (owners : List Bytes) where
  unfoldable pub gather : ℕ → List PieceState → Candidates
  unfolding sort_piece
  gather i [] = ([], [])
  gather i (s ∷ states) =
      let later = gather (suc i) states in
      if has_piece bf i then sort_piece eg addr i (get_or owners i []) s later else later

-- Pending pieces come first; duplicates of the endgame are the second choice.
unfoldable pub second_choice : PieceSelector → List ℕ → List ℤ → Option ℕ → Result Panic (Option ℕ)
second_choice sel others availability (some i) = ok (some i)
second_choice sel others availability none = sel.select others availability

unfoldable pub mark : Bytes → ℕ → PieceState → PieceManager → PieceManager
mark addr i pending pm = record pm {
  states = set pm.states i in_progress;
  owners = set pm.owners i addr;
}
mark addr i _ pm = pm

unfoldable pub hand_out :
    Bytes → Option ℕ → PieceManager → Result Panic (Option PieceInfo × PieceManager)
unfolding mark at_index
hand_out addr none pm = ok (none, pm)
hand_out addr (some i) pm = do
  s ← at_index pm.states i
  piece ← at_index pm.pieces i
  ok (some piece, mark addr i s pm)

unfoldable pub assign :
    PieceSelector → Bytes → BitField → PieceManager → Result Panic (Option PieceInfo × PieceManager)
unfolding endgame gather second_choice hand_out
assign sel addr bf pm = do
  let eg = endgame pm
  let cs = gather eg addr bf pm.owners 0 pm.states
  first ← sel.select cs.0 pm.availability
  choice ← second_choice sel cs.1 pm.availability first
  hand_out addr choice (record pm { endgame_activated = pm.endgame_activated || eg })

-- The loops of `AddAvailability` and `RemoveAvailability`, with `inc` and `dec`.
unfoldable pub count_peer : (ℤ → ℤ) → BitField → ℕ → List ℤ → List ℤ
count_peer f bf i [] = []
count_peer f bf i (a ∷ more) = (if has_piece bf i then f a else a) ∷ count_peer f bf (suc i) more

unfoldable pub add_availability : BitField → PieceManager → PieceManager
unfolding count_peer
add_availability bf pm = record pm { availability = count_peer inc bf 0 pm.availability }

unfoldable pub remove_availability : BitField → PieceManager → PieceManager
unfolding count_peer
remove_availability bf pm = record pm { availability = count_peer dec bf 0 pm.availability }

unfoldable pub increment_availability : ℕ → PieceManager → PieceManager
increment_availability i pm = elim (get_elem? pm.availability i) [
  | none ↦ pm
  | some a ↦ record pm { availability = set pm.availability i (inc a) }
]
