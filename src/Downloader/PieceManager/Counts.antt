-- ===== src/Downloader/PieceManager/Counts.antt =====
-- internal/downloader/piece_manager.go: how the number of completed pieces follows the states.
use jelly_torrent.Base.{
  ℕ, zero, suc, ◌+◌, ◌≤◌, ◌<◌, ◌≡◌, List, [], ◌∷◌, arith, length, get_elem?, set, some, refl,
}
use jelly_torrent.Downloader.PieceManager.{
  PieceState, pending, in_progress, completed_piece, count_completed,
}

abbrev pub one_if_done : PieceState → ℕ
one_if_done completed_piece = 1
one_if_done pending = 0
one_if_done in_progress = 0

-- The number of completed pieces after a write.
pub count_completed-set :
    (ss : List PieceState) (i : ℕ) (s t : PieceState)
    → get_elem? ss i ≡ some s
    → count_completed (set ss i t) + one_if_done s ≡ count_completed ss + one_if_done t
count_completed-set [] i s t h = cc
count_completed-set (x ∷ ss) zero s t h = ground arith
count_completed-set (x ∷ ss) (suc i) s t h = ground (arith, count_completed-set ss i s t h)

pub count_completed-le : (ss : List PieceState) → count_completed ss ≤ length ss
count_completed-le [] = omega arith
count_completed-le (s ∷ ss) = ground (arith, count_completed-le ss)

-- A piece that is not completed leaves room in the count.
pub count_completed-lt :
    (ss : List PieceState) (i : ℕ) (s : PieceState)
    → get_elem? ss i ≡ some s
    → one_if_done s ≡ 0
    → count_completed ss < length ss
count_completed-lt [] i s h n = cc
count_completed-lt (x ∷ ss) zero s h n = ground (arith, count_completed-le ss)
count_completed-lt (x ∷ ss) (suc i) s h n = ground (arith, count_completed-lt ss i s h n)

pub get_elem?-lt :
    {A : Type 0} (xs : List A) (i : ℕ) (x : A) → get_elem? xs i ≡ some x → i < length xs
get_elem?-lt [] i x h = cc
get_elem?-lt (y ∷ xs) zero x h = omega arith
get_elem?-lt (y ∷ xs) (suc i) x h = omega (arith, get_elem?-lt xs i x h)

pub get_elem?-total :
    {A : Type 0} (xs : List A) (i : ℕ) → i < length xs → (x : A) × (get_elem? xs i ≡ some x)
get_elem?-total [] i h = absurd (omega arith)
get_elem?-total (x ∷ xs) zero h = (x, refl)
get_elem?-total (x ∷ xs) (suc i) h = get_elem?-total xs i (omega arith)
