-- ===== src/Downloader/PieceManager.antt =====
-- internal/downloader/piece_manager.go: the state of a download and its operations. A method is a
-- step of the state, since each holds the mutex; log lines are left out. A channel is a number;
-- what a closed channel tells is that its number is in `closed_chs`.
pub mod Assign
pub mod Blocks
pub mod Availability
pub mod Counts
pub mod Complete
pub mod Queries
pub mod Keeps
pub mod Run
use jelly_torrent.Base.{
  ℕ, zero, suc, ◌+◌, ◌-◌, ◌<◌, ◌≡◌, Bool, true, false, ◌&&◌, ◌||◌, not, Option, none, some, List,
  [], ◌∷◌, ◌++◌, map, Bytes, bytes_eq, ℤ, pos, inc, dec, length, get_elem?, get_or, set, replicate,
  ltb, leb, ◌==◌, if◌then◌else◌,
}
use jelly_torrent.Base.Result.{
  Result, ok, err, ◌>>=◌, Panic, index_out_of_range, close_of_closed_channel,
}
use jelly_torrent.Storage.{DiskStore, completed_bitfield}

pub data PieceState : Type 0 where
  pending in_progress completed_piece : PieceState

pub record PieceInfo : Type 0 where
  pub index : ℕ
  pub hash : Bytes
  pub piece_length : ℕ

-- A subscription to Have messages: a channel with a buffer of `have_buffer` indices.
pub record HaveSub : Type 0 where
  pub channel : ℕ
  pub queue : List ℕ

-- A threshold that is not positive is 0 here.
pub record PieceManager : Type 0 where
  pub pieces : List PieceInfo
  pub states : List PieceState
  pub piece_data : List (Option Bytes)
  pub owners : List Bytes
  pub availability : List ℤ
  pub store : Option DiskStore
  pub completed : ℕ
  pub total : ℕ
  pub done_closed : Bool
  pub endgame_threshold : ℕ
  pub endgame_activated : Bool
  pub cancel_chs : List (ℕ × ℕ)
  pub closed_chs : List ℕ
  pub next_ch : ℕ
  pub have_subs : List HaveSub

-- The loop that resumes: the states, and how many pieces were marked. A flag past the last state is
-- an index out of range.
unfoldable pub resume : List Bool → List PieceState → Result Panic (List PieceState × ℕ)
resume [] states = ok (states, 0)
resume (has ∷ bf) [] = if has then err index_out_of_range else resume bf []
resume (has ∷ bf) (s ∷ states) = do
  (rest, n) ← resume bf states
  ok (if has then (completed_piece ∷ rest, suc n) else (s ∷ rest, n))

abbrev pub fresh : List PieceInfo → ℕ → Option DiskStore → PieceManager
fresh pieces threshold store =
    let n = length pieces in
    record {
      pieces = pieces;
      states = replicate n pending;
      piece_data = replicate n none;
      owners = replicate n [];
      availability = replicate n (pos 0);
      store = store;
      completed = 0;
      total = n;
      done_closed = false;
      endgame_threshold = threshold;
      endgame_activated = false;
      cancel_chs = [];
      closed_chs = [];
      next_ch = 0;
      have_subs = [];
    }

unfoldable pub new_piece_manager : List PieceInfo → ℕ → Option DiskStore → Result Panic PieceManager
unfolding resume
new_piece_manager pieces threshold none = ok (fresh pieces threshold none)
new_piece_manager pieces threshold (some ds) = do
  let pm = fresh pieces threshold (some ds)
  (states, n) ← resume (completed_bitfield ds) pm.states
  ok (record pm { states = states; completed = n; done_closed = n == pm.total })

unfoldable pub release : ℕ → PieceManager → Result Panic PieceManager
release i pm = elim (get_elem? pm.states i) [
  | none ↦ err index_out_of_range
  | some in_progress ↦
      ok (record pm { states = set pm.states i pending; owners = set pm.owners i [] })
  | some _ ↦ ok pm
]

-- One round of the loop of `ReleaseAll`.
unfoldable pub release_owned : Bytes → PieceState → Bytes → PieceState × Bytes
release_owned addr in_progress owner =
    if bytes_eq owner addr then (pending, []) else (in_progress, owner)
release_owned addr s owner = (s, owner)

unfoldable pub release_loop : Bytes → List PieceState → List Bytes → List PieceState × List Bytes
unfolding release_owned
release_loop addr [] owners = ([], owners)
release_loop addr (s ∷ states) [] = (s ∷ states, [])
release_loop addr (s ∷ states) (o ∷ owners) =
    let (s', o') = release_owned addr s o in
    let (states', owners') = release_loop addr states owners in (s' ∷ states', o' ∷ owners')

unfoldable pub release_all : Bytes → PieceManager → PieceManager
unfolding release_loop
release_all addr pm =
    let (states, owners) = release_loop addr pm.states pm.owners in
    record pm { states = states; owners = owners }

-- `CancelCh` makes a channel where there is none.
unfoldable pub find_ch : ℕ → List (ℕ × ℕ) → Option ℕ
find_ch i [] = none
find_ch i ((j, ch) ∷ chs) = if j == i then some ch else find_ch i chs

unfoldable pub cancel_ch : ℕ → PieceManager → ℕ × PieceManager
unfolding find_ch
cancel_ch i pm = elim (find_ch i pm.cancel_chs) [
  | some ch ↦ (ch, pm)
  | none ↦ (
    pm.next_ch,
    record pm { cancel_chs = (i, pm.next_ch) ∷ pm.cancel_chs; next_ch = suc pm.next_ch },
  )
]

unfoldable pub is_finished : PieceManager → Bool
is_finished pm = pm.completed == pm.total

-- `PieceState` of a piece, as the numbers of completed pieces count it.
abbrev pub count_completed : List PieceState → ℕ
count_completed [] = 0
count_completed (completed_piece ∷ ss) = suc (count_completed ss)
count_completed (pending ∷ ss) = count_completed ss
count_completed (in_progress ∷ ss) = count_completed ss

-- What every operation keeps: the slices have an entry for each piece, the counter counts, and the
-- done channel is closed only when all is there, and then unless there is no piece.
pub record IsValid (pm : PieceManager) : Type 0 where
  pub pieces_len : length pm.pieces ≡ pm.total
  pub states_len : length pm.states ≡ pm.total
  pub data_len : length pm.piece_data ≡ pm.total
  pub owners_len : length pm.owners ≡ pm.total
  pub availability_len : length pm.availability ≡ pm.total
  pub counted : count_completed pm.states ≡ pm.completed
  pub closed_done : pm.done_closed ≡ true → pm.completed ≡ pm.total
  pub done_closes : 0 < pm.total → pm.completed ≡ pm.total → pm.done_closed ≡ true
