-- ===== src/Downloader/Worker/Settled.antt =====
-- internal/downloader/worker.go: what a round of a worker does with the piece that it is given.
use mathlib.Core.Path.{subst}
use jelly_torrent.Base.{
  ℕ, zero, suc, ◌<◌, ◌^◌, ◌%◌, ◌≡◌, refl, sym, inl, inr, Bool, true, false, Option, none, some,
  List, [], ◌∷◌, Bytes, get_elem?, Bool-cases, if◌then◌else◌, arith, bytes_eq,
}
use jelly_torrent.Base.Result.{ok}
use jelly_torrent.Storage.{WriteCalls}
use jelly_torrent.Peer.Download.{get_piece}
use jelly_torrent.Downloader.Selector.{PieceSelector}
use jelly_torrent.Downloader.PieceManager.{
  PieceManager, PieceInfo, PieceState, pending, in_progress, completed_piece, IsValid, is_finished,
  release_all, release_loop, release_owned,
}
use jelly_torrent.Downloader.PieceManager.Assign.{assign, remove_availability}
use jelly_torrent.Downloader.PieceManager.Queries.{is_endgame}
use jelly_torrent.Downloader.PieceManager.Assign.Laws.{assign-Assigned}
use jelly_torrent.Downloader.PieceManager.Keeps.{assign-IsValid}
use jelly_torrent.Downloader.Worker.{
  Worker, Turn, finished, serving, cleanup, must_wait, cancel_if, with_cancel, on_info, on_assign,
  take_turn, flush_haves,
}
use jelly_torrent.Downloader.Worker.Tried.{
  IsIndexed, assign-Hands, Tried, on_piece-Tried, cancel_if-IsValid, flush_haves-IsValid,
}

-- The piece that is in progress is another peer's.
abbrev pub Unowned : Bytes → List PieceState → List Bytes → Type 0
Unowned addr states owners =
    (i : ℕ) (o : Bytes)
    → get_elem? states i ≡ some in_progress
    → get_elem? owners i ≡ some o
    → bytes_eq o addr ≡ false

owned_kept :
    (addr x o : Bytes)
    → some (release_owned addr in_progress x).0 ≡ some in_progress
    → some (release_owned addr in_progress x).1 ≡ some o
    → bytes_eq o addr ≡ false
unfolding release_owned
owned_kept addr x o p q = elim (Bool-cases (bytes_eq x addr)) [
  | inl e ↦ absurd (cc (rw e at p))
  | inr n ↦ cc (n, rw n at q)
]

release_loop-Unowned :
    (addr : Bytes) (states : List PieceState) (owners : List Bytes)
    → Unowned addr (release_loop addr states owners).0 (release_loop addr states owners).1
unfolding release_loop
release_loop-Unowned addr [] owners i o p q = cc
release_loop-Unowned addr (s ∷ states) [] i o p q = cc
release_loop-Unowned addr (s ∷ states) (x ∷ owners) (suc i) o p q =
    release_loop-Unowned addr states owners i o p q
release_loop-Unowned addr (pending ∷ states) (x ∷ owners) zero o p q = unfold release_owned in cc
release_loop-Unowned addr (completed_piece ∷ states) (x ∷ owners) zero o p q =
    unfold release_owned in cc
release_loop-Unowned addr (in_progress ∷ states) (x ∷ owners) zero o p q = owned_kept addr x o p q

cleanup-Unowned :
    (addr : Bytes) (w : Worker) → Unowned addr (cleanup addr w).states (cleanup addr w).owners
unfolding cleanup release_all remove_availability
cleanup-Unowned addr w = release_loop-Unowned addr w.pm.states w.pm.owners

module _ (hash : Bytes → Bytes) (calls : WriteCalls) (polls : List Bool)
    (meanwhile : PieceManager → PieceManager) (sel : PieceSelector) (addr : Bytes) where
  -- What comes of a round that starts, the pending Have messages sent, with this worker.
  pub data Settled (w : Worker) : Turn × Worker → Type 0 where
    all_done : w.pm.done_closed ≡ true → Settled w (finished, w)
    nothing :
        (pm : PieceManager)
        → w.pm.done_closed ≡ false
        → assign sel addr w.peer.bit_field w.pm ≡ ok (none, pm)
        → Settled w (if is_finished pm then finished else must_wait, record w { pm = pm })
    tried :
        (info : PieceInfo) (pm : PieceManager) (t : Turn × Worker)
        → w.pm.done_closed ≡ false
        → assign sel addr w.peer.bit_field w.pm ≡ ok (some info, pm)
        → IsValid (meanwhile (with_cancel polls info.index pm).1)
        → Tried info.index
            (get_piece hash info.hash info.piece_length
              (info.index % 2 ^ 32)
              (with_cancel polls info.index pm).0
              (serving (with_cancel polls info.index pm).1 w.peer))
            (record w {
              pm = meanwhile (with_cancel polls info.index pm).1;
              attempted = suc w.attempted;
            })
            t
        → Settled w t

  on_assign-Settled :
      (w : Worker) (r : Option PieceInfo × PieceManager)
      → ((pm : PieceManager) → IsValid pm → IsValid (meanwhile pm))
      → ((pm : PieceManager) → (meanwhile pm).total ≡ pm.total)
      → IsValid w.pm
      → IsIndexed w.pm
      → w.pm.done_closed ≡ false
      → assign sel addr w.peer.bit_field w.pm ≡ ok r
      → Settled w (on_assign hash calls polls meanwhile (ok r) w)
  unfolding on_assign on_info with_cancel
  on_assign-Settled w (none, pm) keeps same v indexed n e = nothing pm n e
  on_assign-Settled w (some info, pm) keeps same v indexed n e =
      let (total, (i, at)) = assign-Hands sel addr w.peer.bit_field w.pm (some info, pm) e in
      let v1 = assign-IsValid sel addr w.peer.bit_field w.pm (some info, pm) v e in
      let (v2, total2) = cancel_if-IsValid (is_endgame pm) polls info.index pm v1 in
      let pm2 = (cancel_if (is_endgame pm) polls info.index pm).1 in
      let valid = keeps pm2 v2 in
      let lt : info.index < (meanwhile pm2).total = omega (arith, indexed i info at, same pm2) in
      tried info pm _ n e valid (on_piece-Tried calls info.index _ _ valid lt)

  by_done_closed :
      (w : Worker) (b : Bool) (t : Turn × Worker)
      → w.pm.done_closed ≡ b
      → (w.pm.done_closed ≡ false → Settled w t)
      → Settled w (if b then (finished, w) else t)
  by_done_closed w true t e h = all_done e
  by_done_closed w false t e h = h e

  take_turn-from :
      (w : Worker)
      → ((pm : PieceManager) → IsValid pm → IsValid (meanwhile pm))
      → ((pm : PieceManager) → (meanwhile pm).total ≡ pm.total)
      → IsValid w.pm
      → IsIndexed w.pm
      → Settled (flush_haves w) (take_turn hash calls polls meanwhile sel addr w)
  unfolding take_turn
  take_turn-from w keeps same v indexed =
      let w' = flush_haves w in
      let (v', indexed') = flush_haves-IsValid w v indexed in
      let (r, e, given) = assign-Assigned sel addr w'.peer.bit_field w'.pm v' in
      by_done_closed w' w'.pm.done_closed
        (on_assign hash calls polls meanwhile (assign sel addr w'.peer.bit_field w'.pm) w') refl
        (λ n.
          subst (λ x. Settled w' (on_assign hash calls polls meanwhile x w')) (sym e)
            (on_assign-Settled w' r keeps same v' indexed' n e))

-- A round of a worker on a valid piece manager, each piece of which has an index below their number, whatever the other workers do to it while a piece is downloaded that keeps it valid and as large: if the torrent is done it ends; if `Assign` gives nothing, the worker ends or waits, by whether every piece is completed; and a piece that is given is downloaded. Then a piece that passes its hash is given on and counted, and completed in the manager; after a cancel nothing more changes; and after any other error but a panic, if the download returns, the piece is let go of, so that it is not in progress, and the worker waits for the peer's Unchoke if it was choked, and counts a failure if not. When the worker ends, no piece that is in progress is its peer's.
pub take_turn-Settles :
    (hash : Bytes → Bytes) (calls : WriteCalls) (polls : List Bool)
    (meanwhile : PieceManager → PieceManager) (sel : PieceSelector) (addr : Bytes) (w : Worker)
    → ((pm : PieceManager) → IsValid pm → IsValid (meanwhile pm))
    → ((pm : PieceManager) → (meanwhile pm).total ≡ pm.total)
    → IsValid w.pm
    → IsIndexed w.pm
    → Settled hash calls polls meanwhile sel addr
        (flush_haves w)
        (take_turn hash calls polls meanwhile sel addr w)
      × Unowned addr
          (cleanup addr (take_turn hash calls polls meanwhile sel addr w).1).states
          (cleanup addr (take_turn hash calls polls meanwhile sel addr w).1).owners
take_turn-Settles hash calls polls meanwhile sel addr w keeps same v indexed = (
  take_turn-from hash calls polls meanwhile sel addr w keeps same v indexed,
  cleanup-Unowned addr (take_turn hash calls polls meanwhile sel addr w).1,
)
