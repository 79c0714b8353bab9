-- ===== src/Downloader/PieceManager/Complete.antt =====
-- internal/downloader/piece_manager.go: `Complete`, and the subscriptions that it notifies.
pub mod Laws
use jelly_torrent.Base.{
  ℕ, zero, suc, ◌+◌, Bool, true, false, Option, none, some, List, [], ◌∷◌, ◌++◌, Bytes, length,
  get_elem?, set, ltb, ◌==◌, if◌then◌else◌,
}
use jelly_torrent.Base.Result.{
  Result, ok, err, ◌>>=◌, Panic, index_out_of_range, close_of_closed_channel,
}
use jelly_torrent.Storage.{WriteCalls, DiskStore, write_piece}
use jelly_torrent.Downloader.PieceManager.{
  PieceManager, PieceState, pending, in_progress, completed_piece, HaveSub, find_ch,
}

-- Persist to disk, and free the memory where that succeeds.
unfoldable pub persist : WriteCalls → ℕ → Bytes → Option DiskStore → PieceManager → PieceManager
persist calls i bs none pm = pm
persist calls i bs (some ds) pm =
    let (ds', no_error) = write_piece calls i bs ds in
    record pm {
      store = some ds';
      piece_data = (if no_error then set pm.piece_data i none else pm.piece_data);
    }

unfoldable pub delete_ch : ℕ → List (ℕ × ℕ) → List (ℕ × ℕ)
delete_ch i [] = []
delete_ch i ((j, ch) ∷ chs) = if j == i then chs else (j, ch) ∷ delete_ch i chs

unfoldable pub close_cancel : ℕ → Option ℕ → PieceManager → PieceManager
unfolding delete_ch
close_cancel i none pm = pm
close_cancel i (some ch) pm = record pm {
  closed_chs = ch ∷ pm.closed_chs;
  cancel_chs = delete_ch i pm.cancel_chs;
}

-- `close(pm.done)` once all is there; to close it twice is a panic.
unfoldable pub close_done : PieceManager → Result Panic PieceManager
close_done pm =
    if pm.completed == pm.total
    then if pm.done_closed
      then err close_of_closed_channel
      else ok (record pm { done_closed = true })
    else ok pm

abbrev pub have_buffer : ℕ
have_buffer = 64

-- A send that does not block: a full buffer drops the index.
unfoldable pub notify : ℕ → List HaveSub → List HaveSub
notify i [] = []
notify i (sub ∷ subs) =
    (if ltb (length sub.queue) have_buffer then record sub { queue = sub.queue ++ i ∷ [] } else sub)
    ∷ notify i subs

unfoldable pub finish : WriteCalls → ℕ → Bytes → PieceManager → Result Panic PieceManager
unfolding persist close_cancel close_done notify find_ch
finish calls i bs pm = do
  let pm1 = record pm {
    states = set pm.states i completed_piece;
    piece_data = set pm.piece_data i (some bs);
    owners = set pm.owners i [];
    completed = suc pm.completed;
  }
  let pm2 = persist calls i bs pm1.store pm1
  pm3 ← close_done (close_cancel i (find_ch i pm2.cancel_chs) pm2)
  ok (record pm3 { have_subs = notify i pm3.have_subs })

unfoldable pub complete : WriteCalls → ℕ → Bytes → PieceManager → Result Panic PieceManager
unfolding finish
complete calls i bs pm = elim (get_elem? pm.states i) [
  | none ↦ err index_out_of_range
  | some completed_piece ↦ ok pm
  | some _ ↦ finish calls i bs pm
]

unfoldable pub subscribe_have : PieceManager → ℕ × PieceManager
subscribe_have pm = (
  pm.next_ch,
  record pm {
    have_subs = pm.have_subs ++ record { channel = pm.next_ch; queue = [] } ∷ [];
    next_ch = suc pm.next_ch;
  },
)

unfoldable pub remove_sub : ℕ → List HaveSub → List HaveSub
remove_sub ch [] = []
remove_sub ch (sub ∷ subs) = if sub.channel == ch then subs else sub ∷ remove_sub ch subs

unfoldable pub unsubscribe_have : ℕ → PieceManager → PieceManager
unfolding remove_sub
unsubscribe_have ch pm = record pm { have_subs = remove_sub ch pm.have_subs }
