-- ===== src/Downloader/Worker/Tried.antt =====
-- internal/downloader/worker.go: what follows the download of a piece.
use mathlib.Core.Path.{subst}
use jelly_torrent.Base.{
  ℕ, zero, suc, ◌<◌, ◌≡◌, refl, sym, ap, ◌∙◌, inl, inr, Bool, true, false, Option, none, some, List,
  [], ◌∷◌, ◌++◌, Bytes, get_elem?, set, Option-cases, arith,
}
use jelly_torrent.Base.Result.{ok, err, bind-ok, ok-injective}
use jelly_torrent.Storage.{WriteCalls}
use jelly_torrent.Peer.Wire.{Run, WireError}
use jelly_torrent.Peer.BitField.{BitField}
use jelly_torrent.Peer.Incoming.{wait_for_unchoke}
use jelly_torrent.Downloader.Selector.{PieceSelector, at_index}
use jelly_torrent.Downloader.PieceManager.{
  PieceManager, PieceInfo, PieceState, pending, in_progress, completed_piece, release, cancel_ch,
  find_ch, IsValid,
}
use jelly_torrent.Downloader.PieceManager.Assign.{assign, mark, hand_out, second_choice}
use jelly_torrent.Downloader.PieceManager.Complete.Laws.{complete-Completes}
use jelly_torrent.Downloader.PieceManager.Counts.{get_elem?-total}
use jelly_torrent.Downloader.PieceManager.Keeps.{at_index-ok, release-IsValid}
use jelly_torrent.Downloader.PieceManager.Availability.{cancel_ch-IsValid}
use jelly_torrent.Downloader.Worker.{
  Worker, Turn, again, fails, serving, Trouble, was_cancelled, was_choked, has_panicked,
  never_returns, other, trouble, after_unchoke, after_release, on_trouble, on_complete, on_piece,
  cancel_if, flush_haves,
}

-- The index of every piece is one of the manager's.
abbrev pub IsIndexed : PieceManager → Type 0
IsIndexed pm =
    (i : ℕ) (info : PieceInfo) → get_elem? pm.pieces i ≡ some info → info.index < pm.total

-- What `Assign` hands out is a piece of the manager, whose number of pieces stays.
abbrev pub Hands : PieceManager → Option PieceInfo × PieceManager → Type 0
Hands pm (none, pm') = Unit
Hands pm (some info, pm') = (pm'.total ≡ pm.total) × ((i : ℕ) × (get_elem? pm.pieces i ≡ some info))

mark-total :
    (addr : Bytes) (i : ℕ) (s : PieceState) (pm : PieceManager)
    → (mark addr i s pm).total ≡ pm.total
unfolding mark
mark-total addr i pending pm = refl
mark-total addr i in_progress pm = refl
mark-total addr i completed_piece pm = refl

hand_out-Hands :
    (addr : Bytes) (o : Option ℕ) (pm : PieceManager) (r : Option PieceInfo × PieceManager)
    → hand_out addr o pm ≡ ok r
    → Hands pm r
unfolding hand_out
hand_out-Hands addr none pm r h = subst (Hands pm) (ok-injective h) tt
hand_out-Hands addr (some i) pm r h =
    let (s, p, q) = bind-ok (at_index pm.states i) _ h in
    let (info, p', q') = bind-ok (at_index pm.pieces i) _ q in
    subst (Hands pm) (ok-injective q')
      (mark-total addr i s pm, (i, at_index-ok pm.pieces i info p'))

pub assign-Hands :
    (sel : PieceSelector) (addr : Bytes) (bf : BitField) (pm : PieceManager)
    (r : Option PieceInfo × PieceManager)
    → assign sel addr bf pm ≡ ok r
    → Hands pm r
unfolding assign
assign-Hands sel addr bf pm r h =
    let (first, p, q) = bind-ok (sel.select _ pm.availability) _ h in
    let (choice, p', q') = bind-ok (second_choice sel _ pm.availability first) _ q in
    hand_out-Hands addr choice _ r q'

cancel_ch-total : (i : ℕ) (pm : PieceManager) → (cancel_ch i pm).1.total ≡ pm.total
unfolding cancel_ch
cancel_ch-total i pm = elim (Option-cases (find_ch i pm.cancel_chs)) [
  | inl e ↦ rw (e, cancel_ch) refl
  | inr (ch, e) ↦ rw (e, cancel_ch) refl
]

-- The state of a piece that is not worked on any more.
abbrev pub let_go : PieceState → PieceState
let_go completed_piece = completed_piece
let_go _ = pending

-- Piece `i` was let go of, and every other piece is in the state it was in.
abbrev pub IsReleased : ℕ → PieceManager → PieceManager → Type 0
IsReleased i pm pm' =
    IsValid pm'
    × ((s : PieceState) × (get_elem? pm.states i ≡ some s)
        × (pm'.states ≡ set pm.states i (let_go s)))

-- What follows an error of `GetPiece`, by its kind; `w` has the manager as it then is.
abbrev pub Fails : ℕ → WireError → Trouble → Worker → Turn × Worker → Type 0
Fails i e was_cancelled w t = t ≡ (again, w)
Fails i e has_panicked w t = t ≡ (fails e, w)
Fails i e never_returns w t = t ≡ (fails e, w)
Fails i e was_choked w t =
    (pm : PieceManager) × IsReleased i w.pm pm
    × (t ≡ after_unchoke (wait_for_unchoke (serving pm w.peer)) (record w { pm = pm }))
Fails i e other w t =
    (pm : PieceManager) × IsReleased i w.pm pm
    × (t ≡ (again, record w { pm = pm; failed = suc w.failed }))

-- What follows `GetPiece` for piece `i`: a piece that was downloaded is given on, and is completed in
-- the manager, every other piece in the state it was in.
abbrev pub Tried : ℕ → Run Bytes → Worker → Turn × Worker → Type 0
Tried i (ok bs, p) w t =
    (pm : PieceManager) × IsValid pm
    × (pm.states ≡ set w.pm.states i completed_piece)
    × (t ≡ (
      again,
      record w {
        peer = p;
        pm = pm;
        downloaded = suc w.downloaded;
        results = w.results ++ ((i, bs) ∷ []);
      },
    ))
Tried i (err e, p) w t = Fails i e (trouble e) (record w { peer = p }) t

set_same :
    (ss : List PieceState) (i : ℕ) (s : PieceState) → get_elem? ss i ≡ some s → set ss i s ≡ ss
set_same [] i s h = refl
set_same (x ∷ ss) zero s h = cc
set_same (x ∷ ss) (suc i) s h = ap (λ t. x ∷ t) (set_same ss i s h)

release_states :
    (i : ℕ) (s : PieceState) (pm pm' : PieceManager)
    → get_elem? pm.states i ≡ some s
    → release i pm ≡ ok pm'
    → pm'.states ≡ set pm.states i (let_go s)
unfolding release
release_states i pending pm pm' p h =
    ap (λ q. q.states) (sym (ok-injective (rw (p, release) at h)))
    ∙ sym (set_same pm.states i pending p)
release_states i completed_piece pm pm' p h =
    ap (λ q. q.states) (sym (ok-injective (rw (p, release) at h)))
    ∙ sym (set_same pm.states i completed_piece p)
release_states i in_progress pm pm' p h =
    ap (λ q. q.states) (sym (ok-injective (rw (p, release) at h)))

release-IsReleased :
    (i : ℕ) (pm : PieceManager)
    → IsValid pm
    → i < pm.total
    → (pm' : PieceManager) × (release i pm ≡ ok pm') × IsReleased i pm pm'
release-IsReleased i pm v lt =
    let (pm', e, v') = release-IsValid i pm v lt in
    let (s, p) = get_elem?-total pm.states i (omega (arith, v.states_len)) in
    let released : IsReleased i pm pm' = (v', (s, p, release_states i s pm pm' p e)) in
    (pm', e, released)

on_trouble-Fails :
    (t : Trouble) (e : WireError) (i : ℕ) (w : Worker)
    → IsValid w.pm
    → i < w.pm.total
    → Fails i e t w (on_trouble t e i w)
unfolding on_trouble after_release
on_trouble-Fails was_cancelled e i w v lt = refl
on_trouble-Fails has_panicked e i w v lt = refl
on_trouble-Fails never_returns e i w v lt = refl
on_trouble-Fails was_choked e i w v lt =
    let (pm, p, released) = release-IsReleased i w.pm v lt in (pm, released, rw p refl)
on_trouble-Fails other e i w v lt =
    let (pm, p, released) = release-IsReleased i w.pm v lt in (pm, released, rw p refl)

pub on_piece-Tried :
    (calls : WriteCalls) (i : ℕ) (r : Run Bytes) (w : Worker)
    → IsValid w.pm
    → i < w.pm.total
    → Tried i r w (on_piece calls i r w)
unfolding on_piece on_complete
on_piece-Tried calls i (ok bs, p) w v lt =
    let (pm, e, v', states) = complete-Completes calls i bs w.pm v lt in (pm, v', states, rw e refl)
on_piece-Tried calls i (err e, p) w v lt =
    on_trouble-Fails (trouble e) e i (record w { peer = p }) v lt

pub cancel_if-IsValid :
    (b : Bool) (polls : List Bool) (i : ℕ) (pm : PieceManager)
    → IsValid pm
    → IsValid (cancel_if b polls i pm).1 × ((cancel_if b polls i pm).1.total ≡ pm.total)
unfolding cancel_if
cancel_if-IsValid true polls i pm v = (cancel_ch-IsValid i pm v, cancel_ch-total i pm)
cancel_if-IsValid false polls i pm v = (v, refl)

pub flush_haves-IsValid :
    (w : Worker)
    → IsValid w.pm
    → IsIndexed w.pm
    → IsValid (flush_haves w).pm × IsIndexed (flush_haves w).pm
unfolding flush_haves
flush_haves-IsValid w v h = (ground arith, h)
