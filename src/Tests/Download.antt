-- ===== src/Tests/Download.antt =====
-- internal/downloader: runs at concrete inputs.
use jelly_torrent.Base.{
  ℕ, ◌^◌, ◌-◌, ◌≡◌, ◌≤ℤ◌, refl, true, Option, none, some, List, [], ◌∷◌, codes, ℤ, pos, arith,
  get_or,
}
use jelly_torrent.Base.Result.{ok, err, slice_bounds}
use jelly_torrent.Storage.{WriteCalls, written}
use jelly_torrent.Peer.BitField.{has_piece}
use jelly_torrent.Downloader.Selector.{select_rarest, select_sequential, Occurs}
use jelly_torrent.Downloader.Selector.Rarest.{select_rarest_least}
use jelly_torrent.Downloader.Selector.Sequential.{sequential}
use jelly_torrent.Downloader.PieceManager.{
  PieceManager, PieceInfo, pending, in_progress, completed_piece, fresh, new_piece_manager,
  is_finished, IsValid,
}
use jelly_torrent.Downloader.PieceManager.Assign.{assign, add_availability}
use jelly_torrent.Downloader.PieceManager.Assign.Laws.{Assigned, assign-Assigned}
use jelly_torrent.Downloader.PieceManager.Complete.{complete}
use jelly_torrent.Downloader.PieceManager.Complete.Laws.{Completes, complete-Completes}
use jelly_torrent.Downloader.PieceManager.Queries.{get_piece_data, get_block}
use jelly_torrent.Downloader.PieceManager.Blocks.{requested, get_block-requested, get_block-panics}
use jelly_torrent.Downloader.PieceManager.Run.{
  here, next, adds, new_piece_manager-IsValid, Reach-from-new_piece_manager,
}

abbrev pub first_piece : PieceInfo
first_piece = record { index = 0; hash = codes "h0"; piece_length = 4 }

abbrev pub last_piece : PieceInfo
last_piece = record { index = 1; hash = codes "h1"; piece_length = 2 }

abbrev pub manager : PieceManager
manager = fresh (first_piece ∷ last_piece ∷ []) 1 none

manager-new : new_piece_manager (first_piece ∷ last_piece ∷ []) 1 none ≡ ok manager
unfolding new_piece_manager
manager-new = refl

pub manager-IsValid : IsValid manager
manager-IsValid =
    new_piece_manager-IsValid (first_piece ∷ last_piece ∷ []) 1 none manager manager-new

abbrev pub all_ok : WriteCalls
all_ok = record { piece_file = written; temp_file_ok = true; rename_ok = true }

-- The first piece of the peer that has both is given out.
assign_first :
    assign sequential (codes "p") (0xc0 ∷ []) manager
    ≡ ok (
      some first_piece,
      record manager { states = in_progress ∷ pending ∷ []; owners = codes "p" ∷ [] ∷ [] },
    )
unfolding assign select_sequential has_piece
assign_first = refl

assign-Assigned_example :
    (r : Option PieceInfo × PieceManager) × (assign sequential (codes "p") (0x40 ∷ []) manager
      ≡ ok r)
    × Assigned (codes "p") (0x40 ∷ []) manager r
assign-Assigned_example = assign-Assigned sequential (codes "p") (0x40 ∷ []) manager manager-IsValid

complete-Completes_example : Completes 1 manager (complete all_ok 1 (codes "xy") manager)
complete-Completes_example =
    complete-Completes all_ok 1 (codes "xy") manager manager-IsValid (omega arith)

abbrev after_one : PieceManager
after_one = (add_availability (0xc0 ∷ []) manager)

Reach-from-new_piece_manager_example : IsValid after_one
Reach-from-new_piece_manager_example =
    Reach-from-new_piece_manager (first_piece ∷ last_piece ∷ []) 1 none manager after_one
      manager-new (next here (adds (0xc0 ∷ [])))

abbrev pub finished : PieceManager
finished = record (fresh (first_piece ∷ []) 0 none) {
  states = completed_piece ∷ [];
  piece_data = some (codes "abcd") ∷ [];
  completed = 1;
  done_closed = true;
}

finished-IsValid : IsValid finished
finished-IsValid = record {
  pieces_len = refl;
  states_len = refl;
  data_len = refl;
  owners_len = refl;
  availability_len = refl;
  counted = refl;
  closed_done = λ e. refl;
  done_closes = λ lt e. refl;
}

finished_yes : is_finished finished ≡ true
unfolding is_finished
finished_yes = refl

pub data_of_finished : get_piece_data 0 finished ≡ some (codes "abcd")
unfolding get_piece_data
data_of_finished = refl

get_block-requested_example : get_block 0 1 2 finished ≡ ok (requested 1 2 (codes "abcd"))
get_block-requested_example =
    get_block-requested 0 1 2 finished (codes "abcd") data_of_finished (omega arith) (omega arith)

get_block-panics_example : get_block 0 1 (2 ^ 32 - 1) finished ≡ err slice_bounds
get_block-panics_example =
    get_block-panics 0 1 (2 ^ 32 - 1) finished (codes "abcd") data_of_finished (omega arith)
      (omega arith) (omega arith) (omega arith)

abbrev shares : List ℤ
shares = pos 3 ∷ pos 1 ∷ pos 2 ∷ []

select_rarest_least_example :
    (i : ℕ) × (select_rarest (λ n. 0) (0 ∷ 2 ∷ []) shares ≡ ok (some i))
    × Occurs i (0 ∷ 2 ∷ [])
    × ((j : ℕ) → Occurs j (0 ∷ 2 ∷ []) → get_or shares i (pos 0) ≤ℤ get_or shares j (pos 0))
select_rarest_least_example =
    select_rarest_least (λ n. 0) (λ n lt. lt) 0 (2 ∷ []) shares (omega arith, (omega arith, tt))
