-- ===== src/Downloader/PieceManager/Complete/Laws.antt =====
-- internal/downloader/piece_manager.go: `Complete` does not panic, and keeps the state valid.
use jelly_torrent.Base.{
  ℕ, zero, suc, ◌<◌, ◌≡◌, refl, sym, ap, inl, inr, true, false, Option, none, some, List, [], ◌∷◌,
  Bytes, arith, length, length-set, get_elem?, set, Bool-cases, ◌==◌,
}
use jelly_torrent.Base.Result.{Result, ok, Panic}
use jelly_torrent.Storage.{WriteCalls, DiskStore}
use jelly_torrent.Downloader.PieceManager.{
  PieceManager, PieceState, pending, in_progress, completed_piece, count_completed, IsValid,
  find_ch,
}
use jelly_torrent.Downloader.PieceManager.Counts.{
  one_if_done, count_completed-set, count_completed-lt,
}
use jelly_torrent.Downloader.PieceManager.Counts.{get_elem?-total}
use jelly_torrent.Downloader.PieceManager.Complete.{
  persist, close_cancel, close_done, notify, finish, complete,
}

-- What holds of the state between the count and the closing of the done channel; `ss` are the states.
record IsCounted (ss : List PieceState) (pm : PieceManager) : Type 0 where
  pieces_len : length pm.pieces ≡ pm.total
  states_len : length pm.states ≡ pm.total
  data_len : length pm.piece_data ≡ pm.total
  owners_len : length pm.owners ≡ pm.total
  availability_len : length pm.availability ≡ pm.total
  counted : count_completed pm.states ≡ pm.completed
  still_open : pm.done_closed ≡ false
  kept : pm.states ≡ ss

module _ (ss : List PieceState) where
  persist-IsCounted :
      (calls : WriteCalls) (i : ℕ) (bs : Bytes) (o : Option DiskStore) (pm : PieceManager)
      → IsCounted ss pm
      → IsCounted ss (persist calls i bs o pm)
  unfolding persist
  persist-IsCounted calls i bs none pm h = h
  persist-IsCounted calls i bs (some ds) pm h = ground (arith, length-set pm.piece_data i none)

  close_cancel-IsCounted :
      (i : ℕ) (o : Option ℕ) (pm : PieceManager)
      → IsCounted ss pm
      → IsCounted ss (close_cancel i o pm)
  unfolding close_cancel
  close_cancel-IsCounted i none pm h = h
  close_cancel-IsCounted i (some ch) pm h = ground arith

  -- The closing of the done channel succeeds where it is still open, and leaves a valid state.
  close_done-IsValid :
      (pm : PieceManager)
      → IsCounted ss pm
      → (pm' : PieceManager) × (close_done pm ≡ ok pm') × IsValid pm' × (pm'.states ≡ ss)
  unfolding close_done
  close_done-IsValid pm h = elim (Bool-cases (pm.completed == pm.total)) [
    | inl e ↦ (record pm { done_closed = true }, rw (e, h.still_open), ground arith, h.kept)
    | inr n ↦ (pm, rw n, ground arith, h.kept)
  ]

abbrev counted_up : ℕ → Bytes → PieceManager → PieceManager
counted_up i bs pm = record pm {
  states = set pm.states i completed_piece;
  piece_data = set pm.piece_data i (some bs);
  owners = set pm.owners i [];
  completed = suc pm.completed;
}

-- A piece that is not completed keeps the done channel open.
not_done :
    (i : ℕ) (s : PieceState) (pm : PieceManager)
    → IsValid pm
    → get_elem? pm.states i ≡ some s
    → one_if_done s ≡ 0
    → pm.done_closed ≡ false
not_done i s pm v p n = elim (Bool-cases pm.done_closed) [
  | inl e ↦ absurd (
      omega (arith, v.closed_done e, v.counted, v.states_len, count_completed-lt pm.states i s p n))
  | inr e ↦ e
]

counted_up-IsCounted :
    (i : ℕ) (bs : Bytes) (s : PieceState) (pm : PieceManager)
    → IsValid pm
    → get_elem? pm.states i ≡ some s
    → one_if_done s ≡ 0
    → IsCounted (set pm.states i completed_piece) (counted_up i bs pm)
counted_up-IsCounted i bs s pm v p n = record {
  pieces_len = v.pieces_len;
  states_len = omega (arith, length-set pm.states i completed_piece, v.states_len);
  data_len = omega (arith, length-set pm.piece_data i (some bs), v.data_len);
  owners_len = omega (arith, length-set pm.owners i [], v.owners_len);
  availability_len = v.availability_len;
  counted = omega (arith, count_completed-set pm.states i s completed_piece p, v.counted);
  still_open = not_done i s pm v p n;
  kept = refl;
}

-- A call on piece `i` succeeds, and leaves a valid state in which just that piece became completed.
abbrev pub Completes : ℕ → PieceManager → Result Panic PieceManager → Type 0
Completes i pm r =
    (pm' : PieceManager) × (r ≡ ok pm')
    × IsValid pm'
    × (pm'.states ≡ set pm.states i completed_piece)

finish-IsValid :
    (calls : WriteCalls) (i : ℕ) (bs : Bytes) (s : PieceState) (pm : PieceManager)
    → IsValid pm
    → get_elem? pm.states i ≡ some s
    → one_if_done s ≡ 0
    → Completes i pm (finish calls i bs pm)
unfolding finish
finish-IsValid calls i bs s pm v p n =
    let ss = set pm.states i completed_piece in
    let pm1 = counted_up i bs pm in
    let pm2 = persist calls i bs pm1.store pm1 in
    let h = persist-IsCounted ss calls i bs pm1.store pm1 (counted_up-IsCounted i bs s pm v p n) in
    let (pm3, e, valid, states) =
      close_done-IsValid ss (close_cancel i (find_ch i pm2.cancel_chs) pm2)
        (close_cancel-IsCounted ss i (find_ch i pm2.cancel_chs) pm2 h) in
    (record pm3 { have_subs = notify i pm3.have_subs }, rw e, ground arith, states)

set_same :
    (ss : List PieceState) (i : ℕ) (s : PieceState) → get_elem? ss i ≡ some s → set ss i s ≡ ss
set_same [] i s h = refl
set_same (x ∷ ss) zero s h = cc
set_same (x ∷ ss) (suc i) s h = ap (λ t. x ∷ t) (set_same ss i s h)

complete_open :
    (calls : WriteCalls) (i : ℕ) (bs : Bytes) (s : PieceState) (pm : PieceManager)
    → get_elem? pm.states i ≡ some s
    → one_if_done s ≡ 0
    → complete calls i bs pm ≡ finish calls i bs pm
unfolding complete
complete_open calls i bs pending pm p n = rw (p, complete)
complete_open calls i bs in_progress pm p n = rw (p, complete)
complete_open calls i bs completed_piece pm p n = absurd (omega arith)

complete_again :
    (calls : WriteCalls) (i : ℕ) (bs : Bytes) (pm : PieceManager)
    → get_elem? pm.states i ≡ some completed_piece
    → complete calls i bs pm ≡ ok pm
unfolding complete
complete_again calls i bs pm p = rw (p, complete)

complete_at :
    (calls : WriteCalls) (i : ℕ) (bs : Bytes) (s : PieceState) (pm : PieceManager)
    → IsValid pm
    → get_elem? pm.states i ≡ some s
    → Completes i pm (complete calls i bs pm)
complete_at calls i bs completed_piece pm v p =
    (pm, complete_again calls i bs pm p, v, sym (set_same pm.states i completed_piece p))
complete_at calls i bs pending pm v p =
    rw (complete_open calls i bs pending pm p refl) (finish-IsValid calls i bs pending pm v p refl)
complete_at calls i bs in_progress pm v p =
    rw (complete_open calls i bs in_progress pm p refl)
      (finish-IsValid calls i bs in_progress pm v p refl)

-- On a valid state and the index of a piece `Complete` does not panic, whatever the disk does, so that
-- the done channel is never closed twice; it leaves a valid state, in which that piece is completed
-- and every other piece is in the state it was in.
pub complete-Completes :
    (calls : WriteCalls) (i : ℕ) (bs : Bytes) (pm : PieceManager)
    → IsValid pm
    → i < pm.total
    → Completes i pm (complete calls i bs pm)
complete-Completes calls i bs pm v lt =
    let (s, p) = get_elem?-total pm.states i (omega (arith, v.states_len)) in
    complete_at calls i bs s pm v p
