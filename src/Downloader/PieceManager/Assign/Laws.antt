-- ===== src/Downloader/PieceManager/Assign/Laws.antt =====
-- internal/downloader/piece_manager.go: what `Assign` hands out, and that it keeps the state valid.
use jelly_torrent.Base.{
  ℕ, ◌+◌, ◌<◌, ◌≡◌, refl, sym, ap, ◌∙◌, Option, none, some, List, [], ◌∷◌, Bytes, arith, length,
  get_elem?, set, ◌||◌,
}
use jelly_torrent.Base.Result.{ok}
use mathlib.Core.Path.{subst}
use native.Mathlib.Nat.{zero-add}
use jelly_torrent.Peer.BitField.{BitField}
use jelly_torrent.Downloader.Selector.{Occurs, InRange, PieceSelector}
use jelly_torrent.Downloader.Selector.Rarest.{All-Occurs}
use jelly_torrent.Downloader.PieceManager.{
  PieceManager, PieceInfo, PieceState, pending, in_progress, IsValid,
}
use jelly_torrent.Downloader.PieceManager.Counts.{get_elem?-lt, get_elem?-total}
use jelly_torrent.Downloader.PieceManager.Assign.{endgame, gather, second_choice, hand_out, assign}
use jelly_torrent.Downloader.PieceManager.Assign.Candidates.{
  Open, Duplicate, gather-Open, gather-Duplicate, Occurs-gather, Occurs-gather_others,
}

-- What may come of `Assign` on the state `pm`: an open piece, which now is the peer's, or, if there is
-- none, a duplicate of the endgame, or, if there is none of them either, nothing.
pub data Assigned (addr : Bytes) (bf : BitField) (pm : PieceManager)
    : Option PieceInfo × PieceManager → Type 0 where
  nothing :
      {r : Option PieceInfo × PieceManager}
      → ((i : ℕ) → ¬ Open bf 0 pm.states i)
      → ((i : ℕ) → ¬ Duplicate (endgame pm) addr bf pm.owners 0 pm.states i)
      → (r.0 ≡ none) × (r.1.states ≡ pm.states) × (r.1.owners ≡ pm.owners)
      → Assigned addr bf pm r
  fresh_piece :
      {r : Option PieceInfo × PieceManager} (i : ℕ) (piece : PieceInfo)
      → Open bf 0 pm.states i
      → get_elem? pm.pieces i ≡ some piece
      → (r.0 ≡ some piece)
        × (r.1.states ≡ set pm.states i in_progress)
        × (r.1.owners ≡ set pm.owners i addr)
      → Assigned addr bf pm r
  duplicate_piece :
      {r : Option PieceInfo × PieceManager} (i : ℕ) (piece : PieceInfo)
      → ((i : ℕ) → ¬ Open bf 0 pm.states i)
      → Duplicate (endgame pm) addr bf pm.owners 0 pm.states i
      → get_elem? pm.pieces i ≡ some piece
      → (r.0 ≡ some piece) × (r.1.states ≡ pm.states) × (r.1.owners ≡ pm.owners)
      → Assigned addr bf pm r

abbrev activated : PieceManager → PieceManager
activated pm = record pm { endgame_activated = pm.endgame_activated || endgame pm }

hand_out_pending :
    (addr : Bytes) (i : ℕ) (piece : PieceInfo) (pm : PieceManager)
    → get_elem? pm.states i ≡ some pending
    → get_elem? pm.pieces i ≡ some piece
    → hand_out addr (some i) pm
      ≡ ok (
        some piece,
        record pm { states = set pm.states i in_progress; owners = set pm.owners i addr },
      )
unfolding hand_out
hand_out_pending addr i piece pm p q = ground arith

hand_out_duplicate :
    (addr : Bytes) (i : ℕ) (piece : PieceInfo) (pm : PieceManager)
    → get_elem? pm.states i ≡ some in_progress
    → get_elem? pm.pieces i ≡ some piece
    → hand_out addr (some i) pm ≡ ok (some piece, pm)
unfolding hand_out
hand_out_duplicate addr i piece pm p q = ground arith

hand_out-none : (addr : Bytes) (pm : PieceManager) → hand_out addr none pm ≡ ok (none, pm)
unfolding hand_out
hand_out-none addr pm = refl

module _ (sel : PieceSelector) (addr : Bytes) (bf : BitField) (pm : PieceManager)
    (valid : IsValid pm) where
  abbrev AssignResult : Type 0
  AssignResult =
      (r : Option PieceInfo × PieceManager) × (assign sel addr bf pm ≡ ok r) × Assigned addr bf pm r

  abbrev offered : List ℕ × List ℕ
  offered = gather (endgame pm) addr bf pm.owners 0 pm.states

  Open-state : (i : ℕ) → Open bf 0 pm.states i → get_elem? pm.states i ≡ some pending
  Open-state i (j, e, h, p) = rw (e, zero-add) p

  Duplicate-state :
      (i : ℕ)
      → Duplicate (endgame pm) addr bf pm.owners 0 pm.states i
      → get_elem? pm.states i ≡ some in_progress
  Duplicate-state i (j, e, h, p, t, n) = rw (e, zero-add) p

  in_range : (i : ℕ) (s : PieceState) → get_elem? pm.states i ≡ some s → i < length pm.availability
  in_range i s p =
      omega (arith, get_elem?-lt pm.states i s p, valid.states_len, valid.availability_len)

  piece_at :
      (i : ℕ) (s : PieceState)
      → get_elem? pm.states i ≡ some s
      → (x : PieceInfo) × (get_elem? pm.pieces i ≡ some x)
  piece_at i s p =
      get_elem?-total pm.pieces i
        (omega (arith, get_elem?-lt pm.states i s p, valid.states_len, valid.pieces_len))

  none-Open : offered.0 ≡ [] → (i : ℕ) → ¬ Open bf 0 pm.states i
  none-Open e i (j, p, h, q) =
      subst (Occurs (0 + j)) e
        (Occurs-gather (endgame pm) addr bf pm.owners 0 j pm.states (rw p at h) q)

  none-Duplicate :
      offered.1 ≡ [] → (i : ℕ) → ¬ Duplicate (endgame pm) addr bf pm.owners 0 pm.states i
  none-Duplicate e i (j, p, h, q, t, n) = subst (Occurs (0 + j)) e (
      Occurs-gather_others (endgame pm) addr bf pm.owners 0 j pm.states (rw p at h) q t (rw p at n))

  assign_steps :
      (first choice : Option ℕ) (r : Option PieceInfo × PieceManager)
      → sel.select offered.0 pm.availability ≡ ok first
      → second_choice sel offered.1 pm.availability first ≡ ok choice
      → hand_out addr choice (activated pm) ≡ ok r
      → assign sel addr bf pm ≡ ok r
  unfolding assign
  assign_steps first choice r p q h = rw (p, q, h)

  from_open : (c : ℕ) (cs : List ℕ) → offered.0 ≡ c ∷ cs → AssignResult
  from_open c cs e =
      let all : InRange pm.availability (c ∷ cs) = All-Occurs _ (c ∷ cs) (λ i o.
        in_range i pending (
          Open-state i (
            gather-Open (endgame pm) addr bf pm.owners 0 pm.states i
              (subst (Occurs i) (sym e) o)))) in
      let (i, p, o) = sel.select_some (c ∷ cs) pm.availability (cc) all in
      let is_open =
        gather-Open (endgame pm) addr bf pm.owners 0 pm.states i (subst (Occurs i) (sym e) o) in
      let (piece, q) = piece_at i pending (Open-state i is_open) in
      let selected : sel.select offered.0 pm.availability ≡ ok (some i) =
        ap (λ o. sel.select o pm.availability) e ∙ p in
      (
        _,
        assign_steps (some i) (some i) _ selected (unfold second_choice in refl)
            (hand_out_pending addr i piece (activated pm) (Open-state i is_open) q),
        Assigned.fresh_piece i piece is_open q (refl, refl, refl),
      )

  from_duplicate : offered.0 ≡ [] → (c : ℕ) (cs : List ℕ) → offered.1 ≡ c ∷ cs → AssignResult
  unfolding second_choice
  from_duplicate none_mine c cs e =
      let duplicate_of : (i : ℕ)
          → Occurs i (c ∷ cs)
          → Duplicate (endgame pm) addr bf pm.owners 0 pm.states i =
        λ i o.
          gather-Duplicate (endgame pm) addr bf pm.owners 0 pm.states i
            (subst (Occurs i) (sym e) o) in
      let all : InRange pm.availability (c ∷ cs) =
        All-Occurs _ (c ∷ cs)
          (λ i o. in_range i in_progress (Duplicate-state i (duplicate_of i o))) in
      let (i, p, o) = sel.select_some (c ∷ cs) pm.availability (cc) all in
      let (piece, q) = piece_at i in_progress (Duplicate-state i (duplicate_of i o)) in
      let selected : sel.select offered.0 pm.availability ≡ ok none =
        ap (λ o. sel.select o pm.availability) none_mine ∙ sel.select_none pm.availability in
      let chosen : second_choice sel offered.1 pm.availability none ≡ ok (some i) =
        ap (λ o. sel.select o pm.availability) e ∙ p in
      (
        _,
        assign_steps none (some i) _ selected chosen (
            hand_out_duplicate addr i piece (activated pm) (Duplicate-state i (duplicate_of i o))
              q),
        Assigned.duplicate_piece i piece (none-Open none_mine) (duplicate_of i o) q
            (refl, refl, refl),
      )

  from_nothing : offered.0 ≡ [] → offered.1 ≡ [] → AssignResult
  unfolding second_choice
  from_nothing none_mine none_others =
      let selected : sel.select offered.0 pm.availability ≡ ok none =
        ap (λ o. sel.select o pm.availability) none_mine ∙ sel.select_none pm.availability in
      let chosen : second_choice sel offered.1 pm.availability none ≡ ok none =
        ap (λ o. sel.select o pm.availability) none_others ∙ sel.select_none pm.availability in
      (
        _,
        assign_steps none none _ selected chosen (hand_out-none addr (activated pm)),
        Assigned.nothing (none-Open none_mine) (none-Duplicate none_others) (refl, refl, refl),
      )

  by_candidates : (mine others : List ℕ) → offered.0 ≡ mine → offered.1 ≡ others → AssignResult
  by_candidates (c ∷ cs) others e f = from_open c cs e
  by_candidates [] (c ∷ cs) e f = from_duplicate e c cs f
  by_candidates [] [] e f = from_nothing e f

  -- On a valid state `Assign` does not panic, whatever the selector. A piece of the peer that nobody
  -- works on comes first, and is marked as the peer's; if there is none, a piece that another peer
  -- works on is given in the endgame, and nothing is marked; and nothing is given only if there is no
  -- piece of either kind.
  pub assign-Assigned :
      (r : Option PieceInfo × PieceManager) × (assign sel addr bf pm ≡ ok r) × Assigned addr bf pm r
  assign-Assigned = by_candidates offered.0 offered.1 refl refl
