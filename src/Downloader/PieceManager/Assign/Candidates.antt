-- ===== src/Downloader/PieceManager/Assign/Candidates.antt =====
-- internal/downloader/piece_manager.go: which pieces `Assign` offers to the selector.
use jelly_torrent.Base.{
  ℕ, zero, suc, ◌+◌, ◌≡◌, ◌⊎◌, refl, ap, inl, inr, Bool, true, false, ◌&&◌, not, some, List, [],
  ◌∷◌, Bytes, bytes_eq, arith, get_elem?, get_or, if◌then◌else◌,
}
use native.Mathlib.Nat.{add-zero}
use jelly_torrent.Peer.BitField.{BitField, has_piece}
use jelly_torrent.Downloader.Selector.{Occurs}
use jelly_torrent.Downloader.PieceManager.{PieceState, pending, in_progress, completed_piece}
use jelly_torrent.Downloader.PieceManager.Assign.{gather, sort_piece}

pick_if :
    (P : List ℕ × List ℕ → Type 0) (t : Bool) (a b : List ℕ × List ℕ)
    → (t ≡ true → P a)
    → (t ≡ false → P b)
    → P (if t then a else b)
pick_if P true a b f g = f refl
pick_if P false a b f g = g refl

module _ (eg : Bool) (addr : Bytes) (k : ℕ) (owner : Bytes) where
  sort_piece-mine :
      (s : PieceState) (later : List ℕ × List ℕ) (i : ℕ)
      → Occurs i (sort_piece eg addr k owner s later).0
      → (i ≡ k) × (s ≡ pending) ⊎ Occurs i later.0
  unfolding sort_piece
  sort_piece-mine pending (mine, others) i (inl e) = inl (e, refl)
  sort_piece-mine pending (mine, others) i (inr o) = inr o
  sort_piece-mine in_progress (mine, others) i o = inr (
      pick_if (λ c. Occurs i c.0 → Occurs i mine) (eg && not (bytes_eq owner addr))
        (mine, k ∷ others) (mine, others) (λ e o. o) (λ e o. o) o)
  sort_piece-mine completed_piece (mine, others) i o = inr o

  sort_piece-others :
      (s : PieceState) (later : List ℕ × List ℕ) (i : ℕ)
      → Occurs i (sort_piece eg addr k owner s later).1
      → (i ≡ k) × (s ≡ in_progress) × (eg ≡ true) × (bytes_eq owner addr ≡ false) ⊎ Occurs i later.1
  unfolding sort_piece
  sort_piece-others pending (mine, others) i o = inr o
  sort_piece-others in_progress (mine, others) i o =
      pick_if
        (λ c.
          Occurs i c.1
          → (i ≡ k) × (in_progress ≡ in_progress) × (eg ≡ true) × (bytes_eq owner addr ≡ false)
            ⊎ Occurs i others)
        (eg && not (bytes_eq owner addr)) (mine, k ∷ others) (mine, others)
        (λ e. elim [ inl p ↦ inl (p, refl, ground arith, ground arith) | inr o ↦ inr o ])
        (λ e o. inr o) o
  sort_piece-others completed_piece (mine, others) i o = inr o

  sort_piece-keeps :
      (s : PieceState) (later : List ℕ × List ℕ) (i : ℕ)
      → Occurs i later.0
      → Occurs i (sort_piece eg addr k owner s later).0
  unfolding sort_piece
  sort_piece-keeps pending (mine, others) i o = inr o
  sort_piece-keeps in_progress (mine, others) i o =
      pick_if (λ c. Occurs i c.0) (eg && not (bytes_eq owner addr)) (mine, k ∷ others)
        (mine, others) (λ e. o) (λ e. o)
  sort_piece-keeps completed_piece (mine, others) i o = o

  sort_piece-here :
      (s : PieceState) (later : List ℕ × List ℕ)
      → s ≡ pending
      → Occurs k (sort_piece eg addr k owner s later).0
  unfolding sort_piece
  sort_piece-here pending (mine, others) e = inl refl
  sort_piece-here in_progress later e = cc
  sort_piece-here completed_piece later e = cc

module _ (addr : Bytes) (k : ℕ) (owner : Bytes) where
  sort_piece-keeps_others :
      (eg : Bool) (s : PieceState) (later : List ℕ × List ℕ) (i : ℕ)
      → Occurs i later.1
      → Occurs i (sort_piece eg addr k owner s later).1
  unfolding sort_piece
  sort_piece-keeps_others eg pending (mine, others) i o = o
  sort_piece-keeps_others eg in_progress (mine, others) i o =
      pick_if (λ c. Occurs i c.1) (eg && not (bytes_eq owner addr)) (mine, k ∷ others)
        (mine, others) (λ e. inr o) (λ e. o)
  sort_piece-keeps_others eg completed_piece (mine, others) i o = o

  sort_piece-here_others :
      (eg : Bool) (s : PieceState) (later : List ℕ × List ℕ)
      → s ≡ in_progress
      → eg ≡ true
      → bytes_eq owner addr ≡ false
      → Occurs k (sort_piece eg addr k owner s later).1
  unfolding sort_piece
  sort_piece-here_others eg pending later e t n = cc
  sort_piece-here_others eg in_progress (mine, others) e t n = rw (t, n) (inl refl)
  sort_piece-here_others eg completed_piece later e t n = cc

-- A piece that the peer has and that nobody works on; `k` is the index of the first state.
abbrev pub Open : BitField → ℕ → List PieceState → ℕ → Type 0
Open bf k states i =
    (j : ℕ) × (i ≡ k + j) × (has_piece bf i ≡ true) × (get_elem? states j ≡ some pending)

module _ (eg : Bool) (addr : Bytes) (bf : BitField) (owners : List Bytes) where
  -- A piece that the peer has and that another peer works on, in the endgame.
  abbrev pub Duplicate : ℕ → List PieceState → ℕ → Type 0
  Duplicate k states i =
      (j : ℕ) × (i ≡ k + j)
      × (has_piece bf i ≡ true)
      × (get_elem? states j ≡ some in_progress)
      × (eg ≡ true)
      × (bytes_eq (get_or owners i []) addr ≡ false)

  Open-here :
      (k : ℕ) (s : PieceState) (states : List PieceState) (i : ℕ)
      → i ≡ k
      → has_piece bf k ≡ true
      → s ≡ pending
      → Open bf k (s ∷ states) i
  Open-here k s states i e h p = (0, omega arith, rw e h, ap some p)

  Duplicate-here :
      (k : ℕ) (s : PieceState) (states : List PieceState) (i : ℕ)
      → i ≡ k
      → has_piece bf k ≡ true
      → s ≡ in_progress
      → eg ≡ true
      → bytes_eq (get_or owners k []) addr ≡ false
      → Duplicate k (s ∷ states) i
  Duplicate-here k s states i e h p t n = (0, omega arith, rw e h, ap some p, t, rw e n)

  Open-later :
      (k : ℕ) (s : PieceState) (states : List PieceState) (i : ℕ)
      → Open bf (suc k) states i
      → Open bf k (s ∷ states) i
  Open-later k s states i (j, e, h, p) = (suc j, omega arith, h, p)

  Duplicate-later :
      (k : ℕ) (s : PieceState) (states : List PieceState) (i : ℕ)
      → Duplicate (suc k) states i
      → Duplicate k (s ∷ states) i
  Duplicate-later k s states i (j, e, h, p, t, o) = (suc j, omega arith, h, p, t, o)

  pub gather-Open :
      (k : ℕ) (states : List PieceState) (i : ℕ)
      → Occurs i (gather eg addr bf owners k states).0
      → Open bf k states i
  unfolding gather
  gather-Open k [] i o = absurd o
  gather-Open k (s ∷ states) i o =
      pick_if (λ c. Occurs i c.0 → Open bf k (s ∷ states) i) (has_piece bf k)
        (sort_piece eg addr k (get_or owners k []) s (gather eg addr bf owners (suc k) states))
        (gather eg addr bf owners (suc k) states)
        (λ h o.
          elim (sort_piece-mine eg addr k (get_or owners k []) s
            (gather eg addr bf owners (suc k) states) i o) [
              | inl (e, p) ↦ Open-here k s states i e h p
              | inr o ↦ Open-later k s states i (gather-Open (suc k) states i o)
            ])
        (λ h o. Open-later k s states i (gather-Open (suc k) states i o)) o

  pub gather-Duplicate :
      (k : ℕ) (states : List PieceState) (i : ℕ)
      → Occurs i (gather eg addr bf owners k states).1
      → Duplicate k states i
  unfolding gather
  gather-Duplicate k [] i o = absurd o
  gather-Duplicate k (s ∷ states) i o =
      pick_if (λ c. Occurs i c.1 → Duplicate k (s ∷ states) i) (has_piece bf k)
        (sort_piece eg addr k (get_or owners k []) s (gather eg addr bf owners (suc k) states))
        (gather eg addr bf owners (suc k) states)
        (λ h o.
          elim (sort_piece-others eg addr k (get_or owners k []) s
            (gather eg addr bf owners (suc k) states) i o) [
              | inl (e, p, t, n) ↦ Duplicate-here k s states i e h p t n
              | inr o ↦ Duplicate-later k s states i (gather-Duplicate (suc k) states i o)
            ])
        (λ h o. Duplicate-later k s states i (gather-Duplicate (suc k) states i o)) o

  -- No open piece is left out.
  pub Occurs-gather :
      (k j : ℕ) (states : List PieceState)
      → has_piece bf (k + j) ≡ true
      → get_elem? states j ≡ some pending
      → Occurs (k + j) (gather eg addr bf owners k states).0
  unfolding gather
  Occurs-gather k j [] h p = cc
  Occurs-gather k zero (s ∷ states) h p =
      let h' : has_piece bf k ≡ true = rw add-zero at h in
      rw (add-zero, h') (sort_piece-here eg addr k (get_or owners k []) s _ (cc))
  Occurs-gather k (suc j) (s ∷ states) h p =
      let at : suc k + j ≡ k + suc j = omega arith in
      let later = Occurs-gather (suc k) j states (rw at h) p in
      pick_if (λ c. Occurs (k + suc j) c.0) (has_piece bf k)
        (sort_piece eg addr k (get_or owners k []) s (gather eg addr bf owners (suc k) states))
        (gather eg addr bf owners (suc k) states)
        (λ e. sort_piece-keeps eg addr k (get_or owners k []) s _ (k + suc j) (rw at at later))
        (λ e. rw at at later)

  -- No duplicate of the endgame is left out.
  pub Occurs-gather_others :
      (k j : ℕ) (states : List PieceState)
      → has_piece bf (k + j) ≡ true
      → get_elem? states j ≡ some in_progress
      → eg ≡ true
      → bytes_eq (get_or owners (k + j) []) addr ≡ false
      → Occurs (k + j) (gather eg addr bf owners k states).1
  unfolding gather
  Occurs-gather_others k j [] h p t n = cc
  Occurs-gather_others k zero (s ∷ states) h p t n =
      let h' : has_piece bf k ≡ true = rw add-zero at h in
      let n' : bytes_eq (get_or owners k []) addr ≡ false = rw add-zero at n in
      rw (add-zero, h') (sort_piece-here_others addr k (get_or owners k []) eg s _ (cc) t n')
  Occurs-gather_others k (suc j) (s ∷ states) h p t n =
      let at : suc k + j ≡ k + suc j = omega arith in
      let later = Occurs-gather_others (suc k) j states (rw at h) p t (rw at n) in
      pick_if (λ c. Occurs (k + suc j) c.1) (has_piece bf k)
        (sort_piece eg addr k (get_or owners k []) s (gather eg addr bf owners (suc k) states))
        (gather eg addr bf owners (suc k) states)
        (λ e.
          sort_piece-keeps_others addr k (get_or owners k []) eg s _ (k + suc j) (rw at at later))
        (λ e. rw at at later)
