-- ===== src/Downloader/PieceManager/Run.antt =====
-- internal/downloader/piece_manager.go: every sequence of operations from a new piece manager on.
use jelly_torrent.Base.{
  ℕ, zero, suc, ◌<◌, ◌≡◌, refl, sym, ap, ◌∙◌, inl, inr, Bool, true, false, Option, none, some, List,
  [], ◌∷◌, Bytes, arith, length, length-replicate, get_elem?, replicate, ◌==◌, pos, Bool-cases,
  ==_iff, ◌⊎◌,
}
use mathlib.Core.Path.{subst}
use jelly_torrent.Base.Result.{Result, ok, bind-ok, ok-injective, Panic}
use jelly_torrent.Storage.{WriteCalls, DiskStore, completed_bitfield}
use jelly_torrent.Peer.BitField.{BitField}
use jelly_torrent.Downloader.Selector.{PieceSelector}
use jelly_torrent.Downloader.PieceManager.{
  PieceManager, PieceInfo, HaveSub, PieceState, pending, in_progress, completed_piece,
  count_completed, IsValid, resume, fresh, new_piece_manager, release, release_all, cancel_ch,
  is_finished,
}
use jelly_torrent.Downloader.PieceManager.Counts.{one_if_done, count_completed-lt}
use jelly_torrent.Downloader.PieceManager.Assign.{
  assign, add_availability, remove_availability, increment_availability,
}
use jelly_torrent.Downloader.PieceManager.Complete.{complete, subscribe_have, unsubscribe_have}
use jelly_torrent.Downloader.PieceManager.Complete.Laws.{complete-Completes}
use jelly_torrent.Downloader.PieceManager.Keeps.{
  assign-IsValid, release-IsValid, release_all-IsValid,
}
use jelly_torrent.Downloader.PieceManager.Availability.{
  add_availability-IsValid, remove_availability-IsValid, increment_availability-IsValid,
  cancel_ch-IsValid, subscribe_have-IsValid, unsubscribe_have-IsValid,
}

-- One call of a method that writes, by any of the workers; the mutex makes it one step.
pub data Step : PieceManager → PieceManager → Type 0 where
  assigns :
      {pm : PieceManager} (sel : PieceSelector) (addr : Bytes) (bf : BitField)
      (r : Option PieceInfo × PieceManager)
      → assign sel addr bf pm ≡ ok r
      → Step pm r.1
  completes :
      {pm pm' : PieceManager} (calls : WriteCalls) (i : ℕ) (bs : Bytes)
      → i < pm.total
      → complete calls i bs pm ≡ ok pm'
      → Step pm pm'
  releases : {pm pm' : PieceManager} (i : ℕ) → i < pm.total → release i pm ≡ ok pm' → Step pm pm'
  releases_all : {pm : PieceManager} (addr : Bytes) → Step pm (release_all addr pm)
  adds : {pm : PieceManager} (bf : BitField) → Step pm (add_availability bf pm)
  removes : {pm : PieceManager} (bf : BitField) → Step pm (remove_availability bf pm)
  increments : {pm : PieceManager} (i : ℕ) → Step pm (increment_availability i pm)
  asks_cancel : {pm : PieceManager} (i : ℕ) → Step pm (cancel_ch i pm).1
  subscribes : {pm : PieceManager} → Step pm (subscribe_have pm).1
  unsubscribes : {pm : PieceManager} (ch : ℕ) → Step pm (unsubscribe_have ch pm)
  receives : {pm : PieceManager} (subs : List HaveSub) → Step pm (record pm { have_subs = subs })

pub data Reach (pm : PieceManager) : PieceManager → Type 0 where
  here : Reach pm pm
  next : {pm1 pm2 : PieceManager} → Reach pm pm1 → Step pm1 pm2 → Reach pm pm2

valid_of_ok :
    {pm' : PieceManager} (r : Result Panic PieceManager) (P : PieceManager → Type 0)
    → r ≡ ok pm'
    → (pm1 : PieceManager) × (r ≡ ok pm1) × P pm1
    → P pm'
valid_of_ok r P e (pm1, e', p) = subst P (ok-injective (sym e' ∙ e)) p

Step-IsValid : {pm pm' : PieceManager} → Step pm pm' → IsValid pm → IsValid pm'
Step-IsValid (assigns sel addr bf r e) v = assign-IsValid sel addr bf _ r v e
Step-IsValid (completes calls i bs lt e) v =
    let (pm1, e', v', s) = complete-Completes calls i bs _ v lt in
    valid_of_ok _ IsValid e (pm1, e', v')
Step-IsValid (releases i lt e) v = valid_of_ok _ IsValid e (release-IsValid i _ v lt)
Step-IsValid (releases_all addr) v = release_all-IsValid addr _ v
Step-IsValid (adds bf) v = add_availability-IsValid bf _ v
Step-IsValid (removes bf) v = remove_availability-IsValid bf _ v
Step-IsValid (increments i) v = increment_availability-IsValid i _ v
Step-IsValid (asks_cancel i) v = cancel_ch-IsValid i _ v
Step-IsValid subscribes v = subscribe_have-IsValid _ v
Step-IsValid (unsubscribes ch) v = unsubscribe_have-IsValid ch _ v
Step-IsValid (receives subs) v = ground arith

pub Reach-IsValid : {pm pm' : PieceManager} → IsValid pm → Reach pm pm' → IsValid pm'
Reach-IsValid v here = v
Reach-IsValid v (next r s) = Step-IsValid s (Reach-IsValid v r)

count_completed-replicate : (n : ℕ) → count_completed (replicate n pending) ≡ 0
count_completed-replicate zero = refl
count_completed-replicate (suc n) = count_completed-replicate n

-- What the resume loop does to pieces of which none is completed.
abbrev Resumed : ℕ → List PieceState × ℕ → Type 0
Resumed n r = (length r.0 ≡ n) × (count_completed r.0 ≡ r.1)

resume-Resumed :
    (bf : List Bool) (n : ℕ) (r : List PieceState × ℕ)
    → resume bf (replicate n pending) ≡ ok r
    → Resumed n r
unfolding resume
resume-Resumed [] n r h =
    rw (← ok-injective h) (length-replicate n pending, count_completed-replicate n)
resume-Resumed (true ∷ bf) zero r h = cc
resume-Resumed (false ∷ bf) zero r h = resume-Resumed bf zero r h
resume-Resumed (has ∷ bf) (suc n) r h =
    let (r', p, q) = bind-ok (resume bf (replicate n pending)) _ h in
    let (len, count) = resume-Resumed bf n r' p in
    elim (Bool-cases has) [
      | inl e ↦ rw (← ok-injective q, e) (ap suc len, ap suc count)
      | inr e ↦ rw (← ok-injective q, e) (ap suc len, count)
    ]

Resumed-IsValid :
    (pieces : List PieceInfo) (threshold : ℕ) (store : Option DiskStore) (r : List PieceState × ℕ)
    → Resumed (length pieces) r
    → IsValid (record (fresh pieces threshold store) {
      states = r.0;
      completed = r.1;
      done_closed = r.1 == length pieces;
    })
Resumed-IsValid pieces threshold store r (len, count) = record {
  pieces_len = refl;
  states_len = len;
  data_len = length-replicate (length pieces) none;
  owners_len = length-replicate (length pieces) [];
  availability_len = length-replicate (length pieces) (pos 0);
  counted = count;
  closed_done = λ e. (==_iff r.1 (length pieces)).0 e;
  done_closes = λ _ e. (==_iff r.1 (length pieces)).1 e;
}

fresh-IsValid :
    (pieces : List PieceInfo) (threshold : ℕ) (store : Option DiskStore)
    → IsValid (fresh pieces threshold store)
fresh-IsValid pieces threshold store = record {
  pieces_len = refl;
  states_len = length-replicate (length pieces) pending;
  data_len = length-replicate (length pieces) none;
  owners_len = length-replicate (length pieces) [];
  availability_len = length-replicate (length pieces) (pos 0);
  counted = count_completed-replicate (length pieces);
  closed_done = λ e. absurd (cc);
  done_closes = λ lt e. absurd (omega arith);
}

pub new_piece_manager-IsValid :
    (pieces : List PieceInfo) (threshold : ℕ) (store : Option DiskStore) (pm : PieceManager)
    → new_piece_manager pieces threshold store ≡ ok pm
    → IsValid pm
unfolding new_piece_manager
new_piece_manager-IsValid pieces threshold none pm h =
    subst IsValid (ok-injective h) (fresh-IsValid pieces threshold none)
new_piece_manager-IsValid pieces threshold (some ds) pm h =
    let (r, p, q) =
      bind-ok (resume (completed_bitfield ds) (replicate (length pieces) pending)) _ h in
    subst IsValid (ok-injective q) (
      Resumed-IsValid pieces threshold (some ds) r
        (resume-Resumed (completed_bitfield ds) (length pieces) r p))

-- In any state that the workers reach from a new piece manager, by any calls in any order, the counter is the number of completed pieces, every slice has an entry for each piece, and the done channel is closed exactly when every piece is completed (a torrent without pieces aside).
pub Reach-from-new_piece_manager :
    (pieces : List PieceInfo) (threshold : ℕ) (store : Option DiskStore) (pm pm' : PieceManager)
    → new_piece_manager pieces threshold store ≡ ok pm
    → Reach pm pm'
    → IsValid pm'
Reach-from-new_piece_manager pieces threshold store pm pm' h r =
    Reach-IsValid (new_piece_manager-IsValid pieces threshold store pm h) r

not_done : (s : PieceState) → (one_if_done s ≡ 0) ⊎ (s ≡ completed_piece)
not_done pending = inl refl
not_done in_progress = inl refl
not_done completed_piece = inr refl

-- When `IsFinished` answers yes in a valid state, every piece is completed.
pub is_finished-completed :
    (pm : PieceManager) (i : ℕ) (s : PieceState)
    → IsValid pm
    → is_finished pm ≡ true
    → get_elem? pm.states i ≡ some s
    → s ≡ completed_piece
unfolding is_finished
is_finished-completed pm i s v fin p = elim (not_done s) [
  | inl e ↦ absurd (
      omega (
        arith,
        count_completed-lt pm.states i s p e,
        v.counted,
        v.states_len,
        (==_iff pm.completed pm.total).0 fin,
      ))
  | inr e ↦ e
]
