-- ===== src/Dht/Transactions.antt =====
-- internal/dht/krpc/transaction.go: the queries that wait for an answer.
pub mod Laws
use jelly_torrent.Base.{
  ℕ, suc, Bool, true, false, Option, none, some, List, [], ◌∷◌, Bytes, bytes_eq, ◌==◌,
  if◌then◌else◌,
}
use jelly_torrent.Base.Result.{Result, ok, err, ◌>>=◌, Panic, close_of_closed_channel}
use jelly_torrent.Base.Assoc.{Assoc, find}

-- A channel is a number. `delivered` is what was sent on the channels, the last message first.
pub record TransactionManager (Message : Type 0) : Type 0 where
  pub pending : Assoc ℕ
  pub next_ch : ℕ
  pub closed : List ℕ
  pub delivered : List (ℕ × Message)

unfoldable pub new_transactions : {Message : Type 0} → TransactionManager Message
new_transactions = record { pending = []; next_ch = 0; closed = []; delivered = [] }

-- `delete(m, k)`
unfoldable pub remove_entry : Bytes → Assoc ℕ → Assoc ℕ
unfolding bytes_eq
remove_entry k [] = []
remove_entry k ((j, ch) ∷ m) =
    let more = remove_entry k m in if bytes_eq j k then more else (j, ch) ∷ more

unfoldable pub is_closed : ℕ → List ℕ → Bool
is_closed ch [] = false
is_closed ch (c ∷ cs) = let more = is_closed ch cs in if c == ch then true else more

unfoldable pub close : ℕ → List ℕ → Result Panic (List ℕ)
unfolding is_closed
close ch closed = if is_closed ch closed then err close_of_closed_channel else ok (ch ∷ closed)

module _ {Message : Type 0} where
  unfoldable pub start : Bytes → TransactionManager Message → Bytes × ℕ × TransactionManager Message
  start id tm = (
    id,
    tm.next_ch,
    record tm { pending = (id, tm.next_ch) ∷ tm.pending; next_ch = suc tm.next_ch },
  )

  -- `Add` with what `rand.Read` gives; `none` when the loop has not ended with it.
  unfoldable pub add :
      List Bytes → TransactionManager Message → Option (Bytes × ℕ × TransactionManager Message)
  unfolding start find
  add [] tm = none
  add (id ∷ ids) tm = elim (find id tm.pending) [ none ↦ some (start id tm) | some ch ↦ add ids tm ]

  -- A send on a channel with room for one message, and the close.
  unfoldable pub deliver :
      Option ℕ
      → Bytes
      → Message
      → TransactionManager Message
      → Result Panic (Bool × TransactionManager Message)
  unfolding close remove_entry
  deliver none id msg tm = ok (false, tm)
  deliver (some ch) id msg tm = do
    closed ← close ch tm.closed
    ok (
      true,
      record tm {
        pending = remove_entry id tm.pending;
        closed = closed;
        delivered = (ch, msg) ∷ tm.delivered;
      },
    )

  unfoldable pub complete :
      Bytes
      → Message
      → TransactionManager Message
      → Result Panic (Bool × TransactionManager Message)
  unfolding deliver find
  complete id msg tm = deliver (find id tm.pending) id msg tm

  unfoldable pub give_up :
      Option ℕ → Bytes → TransactionManager Message → Result Panic (TransactionManager Message)
  unfolding close remove_entry
  give_up none id tm = ok tm
  give_up (some ch) id tm = do
    closed ← close ch tm.closed
    ok (record tm { pending = remove_entry id tm.pending; closed = closed })

  unfoldable pub cancel :
      Bytes → TransactionManager Message → Result Panic (TransactionManager Message)
  unfolding give_up find
  cancel id tm = give_up (find id tm.pending) id tm
