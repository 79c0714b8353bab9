-- ===== src/Downloader/Selector/Sequential.antt =====
-- internal/downloader/selector.go: `SequentialSelector`.
use jelly_torrent.Base.{
  ℕ, ◌≤◌, ◌<◌, ◌≡◌, ◌≢◌, refl, sym, inl, inr, ◌⊎◌, none, some, List, [], ◌∷◌, ℤ, arith, ltb,
  Bool-cases, ltb→lt, le_of_not_ltb,
}
use mathlib.Core.Path.{subst}
use jelly_torrent.Base.Result.{ok}
use jelly_torrent.Downloader.Selector.{Occurs, InRange, PieceSelector, least, select_sequential}

least_step :
    (c m : ℕ) (cs : List ℕ)
    → (least (c ∷ cs) m ≡ least cs c) × (c < m) ⊎ (least (c ∷ cs) m ≡ least cs m) × (m ≤ c)
unfolding least
least_step c m cs = elim (Bool-cases (ltb c m)) [
  | inl e ↦ inl (rw e refl, ltb→lt c m e)
  | inr e ↦ inr (rw e refl, le_of_not_ltb c m e)
]

later : (x m c : ℕ) (cs : List ℕ) → Occurs x (m ∷ cs) → Occurs x (m ∷ c ∷ cs)
later x m c cs (inl e) = inl e
later x m c cs (inr o) = inr (inr o)

least-Occurs : (cs : List ℕ) (m : ℕ) → Occurs (least cs m) (m ∷ cs)
least-Occurs [] m = unfold least in inl refl
least-Occurs (c ∷ cs) m = elim (least_step c m cs) [
  | inl (p, lt) ↦ subst (λ t. Occurs t (m ∷ c ∷ cs)) (sym p) (inr (least-Occurs cs c))
  | inr (p, le) ↦ subst (λ t. Occurs t (m ∷ c ∷ cs)) (sym p) (later _ m c cs (least-Occurs cs m))
]

least-le : (cs : List ℕ) (m c : ℕ) → Occurs c (m ∷ cs) → least cs m ≤ c
least-le [] m c (inl e) = unfold least in omega arith
least-le [] m c (inr o) = absurd o
least-le (d ∷ cs) m c (inl e) =
    grind (arith, least_step d m cs, least-le cs m m (inl refl), least-le cs d d (inl refl))
least-le (d ∷ cs) m c (inr (inl e)) =
    grind (arith, least_step d m cs, least-le cs m m (inl refl), least-le cs d d (inl refl))
least-le (d ∷ cs) m c (inr (inr o)) =
    grind (arith, least_step d m cs, least-le cs m c (inr o), least-le cs d c (inr o))

pub sequential_some :
    (candidates : List ℕ) (availability : List ℤ)
    → candidates ≢ []
    → InRange availability candidates
    → (i : ℕ) × (select_sequential candidates availability ≡ ok (some i)) × Occurs i candidates
unfolding select_sequential
sequential_some [] a ne r = absurd (ne refl)
sequential_some (c ∷ cs) a ne r = (least cs c, refl, least-Occurs cs c)

pub sequential_none : (availability : List ℤ) → select_sequential [] availability ≡ ok none
unfolding select_sequential
sequential_none availability = refl

abbrev pub sequential : PieceSelector
sequential = record {
  select = select_sequential;
  select_none = sequential_none;
  select_some = sequential_some;
}

-- The sequential selector picks a candidate, and none of the candidates is lower.
pub select_sequential_least :
    (c : ℕ) (cs : List ℕ) (availability : List ℤ)
    → (i : ℕ) × (select_sequential (c ∷ cs) availability ≡ ok (some i))
      × Occurs i (c ∷ cs)
      × ((j : ℕ) → Occurs j (c ∷ cs) → i ≤ j)
unfolding select_sequential
select_sequential_least c cs a = (least cs c, refl, least-Occurs cs c, least-le cs c)
