-- ===== src/Downloader/Selector.antt =====
-- internal/downloader/selector.go: the interface `PieceSelector` and its two implementations.
pub mod Rarest
pub mod Sequential
use jelly_torrent.Base.{
  ℕ, ◌+◌, ◌<◌, ◌≡◌, ◌≢◌, ◌⊎◌, Bool, true, false, Option, none, some, List, [], ◌∷◌, ◌++◌, ℤ, ltb_ℤ,
  eq_ℤ, All, length, get_elem?, ltb, if◌then◌else◌,
}
use jelly_torrent.Base.Result.{Result, ok, err, ◌>>=◌, Panic, index_out_of_range}

-- One of the candidates is `i`.
abbrev pub Occurs : ℕ → List ℕ → Type 0
Occurs i [] = ⊥
Occurs i (c ∷ cs) = (i ≡ c) ⊎ Occurs i cs

-- The indices of an array.
abbrev pub InRange : List ℤ → List ℕ → Type 0
InRange availability = All (λ c. c < length availability)

-- `Select` picks a candidate, if there is one: what the piece manager relies on.
pub record PieceSelector : Type 0 where
  pub select : List ℕ → List ℤ → Result Panic (Option ℕ)
  pub select_none : (availability : List ℤ) → select [] availability ≡ ok none
  pub select_some :
      (candidates : List ℕ) (availability : List ℤ)
      → candidates ≢ []
      → InRange availability candidates
      → (i : ℕ) × (select candidates availability ≡ ok (some i)) × Occurs i candidates

-- `xs[i]`
unfoldable pub at_index {ℓ} : {A : Type ℓ} → List A → ℕ → Result Panic A
at_index xs i = elim (get_elem? xs i) [ none ↦ err index_out_of_range | some x ↦ ok x ]

-- One round of the loop of `RarestFirstSelector.Select`.
unfoldable pub keep_rarest : ℕ → ℤ → ℤ × List ℕ → ℤ × List ℕ
keep_rarest c a (min_avail, rarest) =
    if ltb_ℤ a min_avail
    then (a, c ∷ [])
    else if eq_ℤ a min_avail
    then (min_avail, rarest ++ c ∷ [])
    else (min_avail, rarest)

unfoldable pub collect_rarest : List ℤ → List ℕ → ℤ × List ℕ → Result Panic (ℤ × List ℕ)
unfolding at_index keep_rarest
collect_rarest availability [] s = ok s
collect_rarest availability (c ∷ cs) s = do
  a ← at_index availability c
  collect_rarest availability cs (keep_rarest c a s)

-- `rand.Intn` is the argument.
unfoldable pub select_rarest : (ℕ → ℕ) → List ℕ → List ℤ → Result Panic (Option ℕ)
unfolding collect_rarest
select_rarest intn [] availability = ok none
select_rarest intn (c ∷ cs) availability = do
  a ← at_index availability c
  s ← collect_rarest availability cs (a, c ∷ [])
  i ← at_index s.1 (intn (length s.1))
  ok (some i)

-- The loop of `SequentialSelector.Select`.
unfoldable pub least : List ℕ → ℕ → ℕ
least [] m = m
least (c ∷ cs) m = least cs (if ltb c m then c else m)

unfoldable pub select_sequential : List ℕ → List ℤ → Result Panic (Option ℕ)
unfolding least
select_sequential [] availability = ok none
select_sequential (c ∷ cs) availability = ok (some (least cs c))
