-- ===== src/Downloader/Selector/Rarest.antt =====
-- internal/downloader/selector.go: `RarestFirstSelector`.
use jelly_torrent.Base.{
  ℕ, zero, suc, ◌<◌, ◌≡◌, ◌≢◌, ◌⊎◌, refl, sym, inl, inr, true, none, some, List, [], ◌∷◌, ◌++◌, ℤ,
  pos, ltb_ℤ, eq_ℤ, ◌≤ℤ◌, All, All-append, length-append, arith, length, get_or, Bool-cases,
}
use mathlib.Core.Path.{subst}
use jelly_torrent.Base.Result.{ok}
use jelly_torrent.Downloader.Selector.{
  Occurs, InRange, PieceSelector, at_index, keep_rarest, collect_rarest, select_rarest,
}

pub at_index-get_or {ℓ} :
    {A : Type ℓ} (xs : List A) (i : ℕ) (d : A) → i < length xs → at_index xs i ≡ ok (get_or xs i d)
unfolding at_index
at_index-get_or [] i d h = elim h [ ]
at_index-get_or (x ∷ xs) zero d h = refl
at_index-get_or (x ∷ xs) (suc i) d h = at_index-get_or xs i d (omega arith)

All-get_or : (P : ℕ → Type 0) (xs : List ℕ) (i d : ℕ) → i < length xs → All P xs → P (get_or xs i d)
All-get_or P [] i d h a = elim h [ ]
All-get_or P (x ∷ xs) zero d h a = a.0
All-get_or P (x ∷ xs) (suc i) d h a = All-get_or P xs i d (omega arith) a.1

pub All-Occurs : (P : ℕ → Type 0) (cs : List ℕ) → ((c : ℕ) → Occurs c cs → P c) → All P cs
All-Occurs P [] f = tt
All-Occurs P (c ∷ cs) f = (f c (inl refl), All-Occurs P cs (λ d o. f d (inr o)))

All_at : (P : ℕ → Type 0) (cs : List ℕ) (c : ℕ) → All P cs → Occurs c cs → P c
All_at P [] c a o = absurd o
All_at P (d ∷ cs) c a (inl e) = rw e a.0
All_at P (d ∷ cs) c a (inr o) = All_at P cs c a.1 o

≤ℤ-trans : (a b c : ℤ) → a ≤ℤ b → b ≤ℤ c → a ≤ℤ c
≤ℤ-trans a b c h k = omega arith

≤ℤ_of_eq : (a b : ℤ) → a ≡ b → a ≤ℤ b
≤ℤ_of_eq a b e = rw e (omega arith)

eq_ℤ-sound : (a b : ℤ) → eq_ℤ a b ≡ true → a ≡ b
eq_ℤ-sound a b h = ground arith

keep_rarest-cases :
    (c : ℕ) (a m : ℤ) (r : List ℕ)
    → ((keep_rarest c a (m, r) ≡ (a, c ∷ [])) × (a ≤ℤ m))
      ⊎ ((keep_rarest c a (m, r) ≡ (m, r ++ c ∷ [])) × (a ≡ m))
      ⊎ ((keep_rarest c a (m, r) ≡ (m, r)) × (m ≤ℤ a))
unfolding keep_rarest
keep_rarest-cases c a m r = elim (Bool-cases (ltb_ℤ a m)) [
  | inl lt ↦ inl (rw lt refl, ground arith)
  | inr n ↦ elim (Bool-cases (eq_ℤ a m)) [
    | inl e ↦ inr (inl (rw (n, e) refl, eq_ℤ-sound a m e))
    | inr n' ↦ inr (inr (rw (n, n') refl, ground arith))
  ]
]

bounds_all :
    (f : ℕ → ℤ) (a : ℤ) (c : ℕ) (cs : List ℕ)
    → a ≤ℤ f c
    → ((i : ℕ) → Occurs i cs → a ≤ℤ f i)
    → (j : ℕ) → Occurs j (c ∷ cs)
    → a ≤ℤ f j
bounds_all f a c cs le all j (inl e) = rw e le
bounds_all f a c cs le all j (inr o) = all j o

module _ (availability : List ℤ) (Q : ℕ → Type 0) where
  -- The value that the code reads where the index is in range.
  abbrev seen : ℕ → ℤ
  seen c = get_or availability c (pos 0)

  -- The collected candidates share the least availability so far.
  record AreRarest (s : ℤ × List ℕ) : Type 0 where
    nonempty : 0 < length s.1
    shared : All (λ c. (seen c ≡ s.0) × Q c) s.1

  abbrev Kept : ℕ → ℤ → ℤ × List ℕ → Type 0
  Kept c m s = AreRarest s × (s.0 ≤ℤ m) × (s.0 ≤ℤ seen c)

  keep_rarest-Kept :
      (c : ℕ) (m : ℤ) (r : List ℕ)
      → Q c
      → AreRarest (m, r)
      → Kept c m (keep_rarest c (seen c) (m, r))
  keep_rarest-Kept c m r q h = elim (keep_rarest-cases c (seen c) m r) [
    | inl (p, le) ↦
        subst (Kept c m) (sym p)
          (record { nonempty = omega arith; shared = ((refl, q), tt) }, le, omega arith)
    | inr (inl (p, e)) ↦ subst (Kept c m) (sym p) (
      record {
        nonempty = omega (arith, length-append r (c ∷ []), h.nonempty);
        shared = All-append _ r (c ∷ []) h.shared ((e, q), tt);
      },
      omega arith,
      ≤ℤ_of_eq m (seen c) (sym e),
    )
    | inr (inr (p, le)) ↦ subst (Kept c m) (sym p) (h, omega arith, le)
  ]

  -- The loop ends, and what it collects is rarest among all that it has seen.
  collect_rarest_lem :
      (cs : List ℕ) (m : ℤ) (r : List ℕ)
      → InRange availability cs
      → All Q cs
      → AreRarest (m, r)
      → (s : ℤ × List ℕ) × (collect_rarest availability cs (m, r) ≡ ok s)
        × AreRarest s
        × (s.0 ≤ℤ m)
        × ((j : ℕ) → Occurs j cs → s.0 ≤ℤ seen j)
  unfolding collect_rarest
  collect_rarest_lem [] m r i q h = ((m, r), refl, h, omega arith, λ j o. absurd o)
  collect_rarest_lem (c ∷ cs) m r i q h =
      let (h', le, le') = keep_rarest-Kept c m r q.0 h in
      let k = keep_rarest c (seen c) (m, r) in
      let (s, e, good, down, all) = collect_rarest_lem cs k.0 k.1 i.1 q.1 h' in
      (
        s,
        rw (at_index-get_or availability c (pos 0) i.0) e,
        good,
        ≤ℤ-trans s.0 k.0 m down le,
        bounds_all seen s.0 c cs (≤ℤ-trans s.0 k.0 (seen c) down le') all,
      )

module _ (intn : ℕ → ℕ) (below : (n : ℕ) → 0 < n → intn n < n) where
  -- Where every candidate is the index of a piece, the selector picks a candidate, and no candidate
  -- has fewer peers; `rand.Intn n` is below `n`.
  pub select_rarest_least :
      (c : ℕ) (cs : List ℕ) (availability : List ℤ)
      → InRange availability (c ∷ cs)
      → (i : ℕ) × (select_rarest intn (c ∷ cs) availability ≡ ok (some i))
        × Occurs i (c ∷ cs)
        × ((j : ℕ)
            → Occurs j (c ∷ cs)
            → get_or availability i (pos 0) ≤ℤ get_or availability j (pos 0))
  unfolding select_rarest
  select_rarest_least c cs availability r =
      let Q = λ (i : ℕ). Occurs i (c ∷ cs) in
      let (s, e, good, le, all) =
        collect_rarest_lem availability Q cs (get_or availability c (pos 0)) (c ∷ []) r.1
          (All-Occurs Q cs (λ d o. inr o))
          (record { nonempty = omega arith; shared = ((refl, inl refl), tt) }) in
      let k = intn (length s.1) in
      let lt = below (length s.1) good.nonempty in
      let i = get_or s.1 k 0 in
      let (same, o) = All-get_or _ s.1 k 0 lt good.shared in
      (
        i,
        rw (at_index-get_or availability c (pos 0) r.0, e, at_index-get_or s.1 k 0 lt) refl,
        o,
        λ j o'. rw same (bounds_all (λ d. get_or availability d (pos 0)) s.0 c cs le all j o'),
      )

  rarest_some :
      (candidates : List ℕ) (availability : List ℤ)
      → candidates ≢ []
      → InRange availability candidates
      → (i : ℕ) × (select_rarest intn candidates availability ≡ ok (some i)) × Occurs i candidates
  rarest_some [] availability ne r = absurd (ne refl)
  rarest_some (c ∷ cs) availability ne r =
      let (i, e, o, least) = select_rarest_least c cs availability r in (i, e, o)

  rarest_none : (availability : List ℤ) → select_rarest intn [] availability ≡ ok none
  unfolding select_rarest
  rarest_none availability = refl

  pub rarest_first : PieceSelector
  rarest_first = record {
    select = select_rarest intn;
    select_none = rarest_none;
    select_some = rarest_some;
  }
