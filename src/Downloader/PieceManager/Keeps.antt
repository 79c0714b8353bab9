-- ===== src/Downloader/PieceManager/Keeps.antt =====
-- internal/downloader/piece_manager.go: the operations keep the state valid.
use jelly_torrent.Base.{
  ℕ, zero, suc, ◌+◌, ◌<◌, ◌≡◌, refl, ◌∙◌, Option, none, some, List, [], ◌∷◌, Bytes, arith, length,
  length-set, get_elem?, set,
}
use jelly_torrent.Base.Result.{ok, bind-ok, ok-injective}
use jelly_torrent.Peer.BitField.{BitField}
use jelly_torrent.Downloader.Selector.{PieceSelector, at_index}
use jelly_torrent.Downloader.PieceManager.{
  PieceManager, PieceInfo, PieceState, pending, in_progress, completed_piece, count_completed,
  IsValid, release, release_owned, release_loop, release_all,
}
use jelly_torrent.Downloader.PieceManager.Counts.{one_if_done, count_completed-set, get_elem?-total}
use jelly_torrent.Downloader.PieceManager.Assign.{assign, second_choice, hand_out, mark}

-- States of the same number that are completed as often.
abbrev SameCount : List PieceState → List PieceState → Type 0
SameCount ss ts = (length ss ≡ length ts) × (count_completed ss ≡ count_completed ts)

with_states :
    (ss : List PieceState) (os : List Bytes) (pm : PieceManager)
    → IsValid pm
    → SameCount ss pm.states
    → length os ≡ length pm.owners
    → IsValid (record pm { states = ss; owners = os })
with_states ss os pm v (len, count) len' = record {
  pieces_len = v.pieces_len;
  states_len = len ∙ v.states_len;
  data_len = v.data_len;
  owners_len = len' ∙ v.owners_len;
  availability_len = v.availability_len;
  counted = count ∙ v.counted;
  closed_done = v.closed_done;
  done_closes = v.done_closes;
}

SameCount-set :
    (ss : List PieceState) (i : ℕ) (s t : PieceState)
    → get_elem? ss i ≡ some s
    → one_if_done s ≡ one_if_done t
    → SameCount (set ss i t) ss
SameCount-set ss i s t p e = (length-set ss i t, omega (arith, count_completed-set ss i s t p))

release_at :
    (i : ℕ) (s : PieceState) (pm : PieceManager)
    → IsValid pm
    → get_elem? pm.states i ≡ some s
    → (pm' : PieceManager) × (release i pm ≡ ok pm') × IsValid pm'
unfolding release
release_at i in_progress pm v p = (
  _,
  rw (p, release) refl,
  with_states (set pm.states i pending) (set pm.owners i []) pm v
      (SameCount-set pm.states i in_progress pending p refl) (length-set pm.owners i []),
)
release_at i pending pm v p = (pm, rw (p, release) refl, v)
release_at i completed_piece pm v p = (pm, rw (p, release) refl, v)

pub release-IsValid :
    (i : ℕ) (pm : PieceManager)
    → IsValid pm
    → i < pm.total
    → (pm' : PieceManager) × (release i pm ≡ ok pm') × IsValid pm'
release-IsValid i pm v lt =
    let (s, p) = get_elem?-total pm.states i (omega (arith, v.states_len)) in release_at i s pm v p

release_owned-count :
    (addr : Bytes) (s : PieceState) (o : Bytes)
    → one_if_done (release_owned addr s o).0 ≡ one_if_done s
unfolding release_owned
release_owned-count addr pending o = refl
release_owned-count addr in_progress o = ground arith
release_owned-count addr completed_piece o = refl

count_completed-cons :
    (s : PieceState) (ss : List PieceState)
    → count_completed (s ∷ ss) ≡ one_if_done s + count_completed ss
count_completed-cons s ss = ground arith

release_loop-SameCount :
    (addr : Bytes) (ss : List PieceState) (os : List Bytes)
    → SameCount (release_loop addr ss os).0 ss × (length (release_loop addr ss os).1 ≡ length os)
unfolding release_loop
release_loop-SameCount addr [] os = ((refl, refl), refl)
release_loop-SameCount addr (s ∷ ss) [] = ((refl, refl), refl)
release_loop-SameCount addr (s ∷ ss) (o ∷ os) =
    let (same, len) = release_loop-SameCount addr ss os in
    let head = (release_owned addr s o).0 in
    let tail = (release_loop addr ss os).0 in
    (
      (
        omega arith,
        omega (
          arith,
          count_completed-cons head tail,
          count_completed-cons s ss,
          release_owned-count addr s o,
        ),
      ),
      omega arith,
    )

pub release_all-IsValid :
    (addr : Bytes) (pm : PieceManager) → IsValid pm → IsValid (release_all addr pm)
unfolding release_all
release_all-IsValid addr pm v =
    let (same, len) = release_loop-SameCount addr pm.states pm.owners in
    with_states _ _ pm v same len

mark-IsValid :
    (addr : Bytes) (i : ℕ) (s : PieceState) (pm : PieceManager)
    → IsValid pm
    → get_elem? pm.states i ≡ some s
    → IsValid (mark addr i s pm)
unfolding mark
mark-IsValid addr i pending pm v p =
    with_states (set pm.states i in_progress) (set pm.owners i addr) pm v
      (SameCount-set pm.states i pending in_progress p refl) (length-set pm.owners i addr)
mark-IsValid addr i in_progress pm v p = v
mark-IsValid addr i completed_piece pm v p = v

pub at_index-ok :
    {A : Type 0} (xs : List A) (i : ℕ) (x : A) → at_index xs i ≡ ok x → get_elem? xs i ≡ some x
unfolding at_index
at_index-ok [] i x h = cc
at_index-ok (y ∷ xs) zero x h = cc
at_index-ok (y ∷ xs) (suc i) x h = at_index-ok xs i x h

hand_out-IsValid :
    (addr : Bytes) (o : Option ℕ) (pm : PieceManager) (r : Option PieceInfo × PieceManager)
    → IsValid pm
    → hand_out addr o pm ≡ ok r
    → IsValid r.1
hand_out-IsValid addr none pm r v h = unfold hand_out in rw (← ok-injective h) v
hand_out-IsValid addr (some i) pm r v h =
    unfold hand_out in
    let (s, p, q) = bind-ok (at_index pm.states i) _ h in
    let (piece, p', q') = bind-ok (at_index pm.pieces i) _ q in
    rw (← ok-injective q') (mark-IsValid addr i s pm v (at_index-ok pm.states i s p))

-- A success of `Assign` leaves a valid state.
pub assign-IsValid :
    (sel : PieceSelector) (addr : Bytes) (bf : BitField) (pm : PieceManager)
    (r : Option PieceInfo × PieceManager)
    → IsValid pm
    → assign sel addr bf pm ≡ ok r
    → IsValid r.1
assign-IsValid sel addr bf pm r v h =
    unfold assign in
    let (first, p, q) = bind-ok (sel.select _ pm.availability) _ h in
    let (choice, p', q') = bind-ok (second_choice sel _ pm.availability first) _ q in
    hand_out-IsValid addr choice _ r
      (record {
        pieces_len = v.pieces_len;
        states_len = v.states_len;
        data_len = v.data_len;
        owners_len = v.owners_len;
        availability_len = v.availability_len;
        counted = v.counted;
        closed_done = v.closed_done;
        done_closes = v.done_closes;
      })
      q'
