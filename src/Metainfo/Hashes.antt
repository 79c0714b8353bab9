-- ===== src/Metainfo/Hashes.antt =====
-- internal/metainfo/info.go: `PieceHashes`. A slice of Go may reach past the length of `pieces`, up to
-- its capacity: `spare` is the bytes there.
use jelly_torrent.Base.{
  ℕ, zero, suc, ◌-◌, ◌*◌, ◌≤◌, ◌<◌, ◌≡◌, refl, sym, ap, ◌∙◌, List, [], ◌∷◌, ◌++◌, Bytes, All, arith,
  length, length-append, length-drop, length-take, take, drop, ltb, ◌==◌, if◌then◌else◌,
}
use jelly_torrent.Base.Result.{Result, ok, err, ◌>>=◌, Panic, slice_bounds}

-- `left` bytes of `pieces` are to come; `mem` is those and the spare ones. A round takes at least
-- one byte, so the length of `pieces` is enough rounds.
unfoldable pub hashes_from : ℕ → ℕ → Bytes → Result Panic (List Bytes)
hashes_from zero left mem = ok []
hashes_from (suc rounds) left mem =
    let rest = hashes_from rounds (left - 20) (drop 20 mem) in
    if left == 0
    then ok []
    else if ltb (length mem) 20
    then err slice_bounds
    else do hs ← rest; ok (take 20 mem ∷ hs)

unfoldable pub piece_hashes : Bytes → Bytes → Result Panic (List Bytes)
unfolding hashes_from
piece_hashes pieces spare = hashes_from (length pieces) (length pieces) (pieces ++ spare)

abbrev pub join : List Bytes → Bytes
join [] = []
join (h ∷ hs) = h ++ join hs

take-drop : (n : ℕ) (xs : Bytes) → take n xs ++ drop n xs ≡ xs
take-drop zero xs = refl
take-drop (suc n) [] = refl
take-drop (suc n) (x ∷ xs) = ap (λ t. x ∷ t) (take-drop n xs)

take-append_le : (n : ℕ) (xs ys : Bytes) → n ≤ length xs → take n (xs ++ ys) ≡ take n xs
take-append_le zero xs ys h = refl
take-append_le (suc n) [] ys h = absurd (omega arith)
take-append_le (suc n) (x ∷ xs) ys h = ap (λ t. x ∷ t) (take-append_le n xs ys (omega arith))

drop-append_le : (n : ℕ) (xs ys : Bytes) → n ≤ length xs → drop n (xs ++ ys) ≡ drop n xs ++ ys
drop-append_le zero xs ys h = refl
drop-append_le (suc n) [] ys h = absurd (omega arith)
drop-append_le (suc n) (x ∷ xs) ys h = drop-append_le n xs ys (omega arith)

-- The hashes cut `pieces` into `n` parts of 20 bytes.
abbrev pub Cuts : ℕ → Bytes → Result Panic (List Bytes) → Type 0
Cuts n pieces r =
    (hs : List Bytes) × (r ≡ ok hs)
    × (join hs ≡ pieces)
    × (length hs ≡ n)
    × All (λ h. length h ≡ 20) hs

hashes_from-step :
    (rounds left : ℕ) (mem : Bytes) (hs : List Bytes)
    → 0 < left
    → 20 ≤ length mem
    → hashes_from rounds (left - 20) (drop 20 mem) ≡ ok hs
    → hashes_from (suc rounds) left mem ≡ ok (take 20 mem ∷ hs)
unfolding hashes_from
hashes_from-step rounds left mem hs more room h = ground arith

hashes_from-Cuts :
    (n rounds : ℕ) (pieces spare : Bytes)
    → length pieces ≡ 20 * n
    → length pieces ≤ rounds
    → Cuts n pieces (hashes_from rounds (length pieces) (pieces ++ spare))
hashes_from-Cuts zero zero [] spare e h = ([], unfold hashes_from in refl, refl, refl, tt)
hashes_from-Cuts zero (suc rounds) [] spare e h = ([], unfold hashes_from in refl, refl, refl, tt)
hashes_from-Cuts zero rounds (b ∷ pieces) spare e h = absurd (omega arith)
hashes_from-Cuts (suc n) zero pieces spare e h = absurd (omega arith)
hashes_from-Cuts (suc n) (suc rounds) pieces spare e h =
    let len = length-drop 20 pieces in
    let (hs, q, joined, count, all) =
      hashes_from-Cuts n rounds (drop 20 pieces) spare (omega arith) (omega arith) in
    let same : length (drop 20 pieces) ≡ length pieces - 20 = omega arith in
    let q' : hashes_from rounds (length pieces - 20) (drop 20 (pieces ++ spare)) ≡ ok hs =
      ap (hashes_from rounds (length pieces - 20)) (drop-append_le 20 pieces spare (omega arith))
      ∙ ap (λ k. hashes_from rounds k (drop 20 pieces ++ spare)) (sym same)
      ∙ q in
    (
      take 20 pieces ∷ hs,
      hashes_from-step rounds (length pieces) (pieces ++ spare) hs (omega arith)
            (omega (arith, length-append pieces spare)) q'
          ∙ ap (λ t. ok (t ∷ hs)) (take-append_le 20 pieces spare (omega arith)),
      ap (λ t. take 20 pieces ++ t) joined ∙ take-drop 20 pieces,
      ap suc count,
      (omega (arith, length-take 20 pieces), all),
    )

-- When the length of the pieces is a multiple of 20, `PieceHashes` does not panic and cuts them into hashes of 20 bytes, whatever lies behind them.
pub piece_hashes-Cuts :
    (n : ℕ) (pieces spare : Bytes)
    → length pieces ≡ 20 * n
    → Cuts n pieces (piece_hashes pieces spare)
unfolding piece_hashes
piece_hashes-Cuts n pieces spare e = hashes_from-Cuts n (length pieces) pieces spare e (omega arith)
