-- ===== src/Dht/Transactions/Laws.antt =====
-- internal/dht/krpc/transaction.go: a query gets at most one answer, and no channel is closed twice.
use mathlib.Core.Path.{subst}
use jelly_torrent.Base.{
  ℕ, ◌<◌, ◌≤◌, ◌≡◌, refl, sym, ◌∙◌, inl, inr, Bool, true, false, Option, none, some, List, [], ◌∷◌,
  Bytes, bytes_eq, All, arith, Bool-cases,
}
use jelly_torrent.Base.Result.{Result, ok, Panic, ok-injective}
use jelly_torrent.Base.Assoc.{Assoc, find}
use jelly_torrent.Dht.Transactions.{
  TransactionManager, new_transactions, remove_entry, is_closed, close, start, deliver, complete,
  give_up, cancel,
}

-- The channels fall along the entries, all below `n`.
abbrev pub Falls : ℕ → Assoc ℕ → Type 0
Falls n [] = Unit
Falls n ((k, ch) ∷ m) = (ch < n) × Falls ch m

abbrev pub AreOpen : List ℕ → Assoc ℕ → Type 0
AreOpen closed m = All (λ e. is_closed e.1 closed ≡ false) m

-- Every channel that waits is open, and no two entries share one.
pub record IsOpen {Message : Type 0} (tm : TransactionManager Message) : Type 0 where
  pub falls : Falls tm.next_ch tm.pending
  pub below : (ch : ℕ) → is_closed ch tm.closed ≡ true → ch < tm.next_ch
  pub open_chs : AreOpen tm.closed tm.pending

find-remove_entry : (k : Bytes) (m : Assoc ℕ) → find k (remove_entry k m) ≡ none
unfolding find remove_entry
find-remove_entry k [] = refl
find-remove_entry k ((j, ch) ∷ m) = ground (arith, find-remove_entry k m)

Falls-le : (m n : ℕ) (xs : Assoc ℕ) → m ≤ n → Falls m xs → Falls n xs
Falls-le m n [] le h = tt
Falls-le m n ((k, ch) ∷ xs) le (lt, h) = (omega arith, h)

remove_entry-Falls : (k : Bytes) (n : ℕ) (m : Assoc ℕ) → Falls n m → Falls n (remove_entry k m)
unfolding remove_entry
remove_entry-Falls k n [] h = tt
remove_entry-Falls k n ((j, ch) ∷ m) (lt, h) = elim (Bool-cases (bytes_eq j k)) [
  | inl e ↦ rw e (remove_entry-Falls k n m (Falls-le ch n m (omega arith) h))
  | inr e ↦ rw e (lt, remove_entry-Falls k ch m h)
]

find-Falls : (k : Bytes) (n ch : ℕ) (m : Assoc ℕ) → Falls n m → find k m ≡ some ch → ch < n
unfolding find
find-Falls k n ch [] h e = cc
find-Falls k n ch ((j, c) ∷ m) (lt, h) e = elim (Bool-cases (bytes_eq j k)) [
  | inl y ↦ ground (arith)
  | inr y ↦ ground (arith, find-Falls k c ch m h)
]

close-AreOpen :
    (n ch : ℕ) (closed : List ℕ) (m : Assoc ℕ)
    → Falls n m
    → n ≤ ch
    → AreOpen closed m
    → AreOpen (ch ∷ closed) m
unfolding is_closed
close-AreOpen n ch closed [] h le o = tt
close-AreOpen n ch closed ((j, c) ∷ m) (lt, h) le (o, os) =
    (ground (arith), close-AreOpen c ch closed m h (omega arith) os)

remove_entry-AreOpen :
    (k : Bytes) (closed : List ℕ) (m : Assoc ℕ)
    → AreOpen closed m
    → AreOpen closed (remove_entry k m)
unfolding remove_entry
remove_entry-AreOpen k closed [] o = tt
remove_entry-AreOpen k closed ((j, c) ∷ m) (o, os) = elim (Bool-cases (bytes_eq j k)) [
  | inl y ↦ rw y (remove_entry-AreOpen k closed m os)
  | inr y ↦ rw y (o, remove_entry-AreOpen k closed m os)
]

find-same :
    (k j : Bytes) (c ch : ℕ) (m : Assoc ℕ)
    → bytes_eq j k ≡ true
    → find k ((j, c) ∷ m) ≡ some ch
    → c ≡ ch
unfolding find
find-same k j c ch m y e = ground (arith)

-- What stays of the entries has other channels than the one that was found.
closed_entry-AreOpen :
    (k : Bytes) (n ch : ℕ) (closed : List ℕ) (m : Assoc ℕ)
    → Falls n m
    → find k m ≡ some ch
    → AreOpen closed m
    → AreOpen (ch ∷ closed) (remove_entry k m)
unfolding find remove_entry is_closed
closed_entry-AreOpen k n ch closed [] h e o = tt
closed_entry-AreOpen k n ch closed ((j, c) ∷ m) (lt, h) e (o, os) =
    elim (Bool-cases (bytes_eq j k)) [
      | inl y ↦ rw y (
          remove_entry-AreOpen k (ch ∷ closed) m
            (close-AreOpen c ch closed m h (omega (arith, find-same k j c ch m y e)) os))
      | inr y ↦
          let f : find k m ≡ some ch = ground (arith) in
          rw y
            (ground (arith, find-Falls k c ch m h f), closed_entry-AreOpen k c ch closed m h f os)
    ]

find-AreOpen :
    (k : Bytes) (ch : ℕ) (closed : List ℕ) (m : Assoc ℕ)
    → find k m ≡ some ch
    → AreOpen closed m
    → is_closed ch closed ≡ false
unfolding find
find-AreOpen k ch closed [] e o = cc
find-AreOpen k ch closed ((j, c) ∷ m) e (o, os) = elim (Bool-cases (bytes_eq j k)) [
  | inl y ↦ cc (find-same k j c ch m y e, o)
  | inr y ↦ find-AreOpen k ch closed m (ground (arith)) os
]

module _ {Message : Type 0} where
  new_transactions-IsOpen : IsOpen (new_transactions {Message = Message})
  unfolding new_transactions is_closed
  new_transactions-IsOpen = record { falls = tt; below = λ ch e. cc e; open_chs = tt }

  start-IsOpen : (id : Bytes) (tm : TransactionManager Message) → IsOpen tm → IsOpen (start id tm).2
  unfolding start
  start-IsOpen id tm h = record {
    falls = (omega arith, h.falls);
    below = λ ch e. omega (arith, h.below ch e);
    open_chs = (
      elim (Bool-cases (is_closed tm.next_ch tm.closed)) [
        | inl e ↦ absurd (omega (arith, h.below tm.next_ch e))
        | inr e ↦ e
      ],
      h.open_chs,
    );
  }

  closed_entry-IsOpen :
      (id : Bytes) (ch : ℕ) (tm : TransactionManager Message) (sent : List (ℕ × Message))
      → find id tm.pending ≡ some ch
      → IsOpen tm
      → IsOpen (record tm {
        pending = remove_entry id tm.pending;
        closed = ch ∷ tm.closed;
        delivered = sent;
      })
  unfolding is_closed
  closed_entry-IsOpen id ch tm sent e h = record {
    falls = remove_entry-Falls id tm.next_ch tm.pending h.falls;
    below = λ c y. ground (arith, h.below c, find-Falls id tm.next_ch ch tm.pending h.falls e);
    open_chs = closed_entry-AreOpen id tm.next_ch ch tm.closed tm.pending h.falls e h.open_chs;
  }

  -- The call does not panic, and leaves no entry for the identifier.
  pub record Answered (id : Bytes) (r : Result Panic (Bool × TransactionManager Message))
      : Type 0 where
    pub answer : Bool × TransactionManager Message
    pub returns : r ≡ ok answer
    pub open_after : IsOpen answer.1
    pub once : (again : Message) → complete id again answer.1 ≡ ok (false, answer.1)

  deliver-Answered :
      (found : Option ℕ) (id : Bytes) (msg : Message) (tm : TransactionManager Message)
      → find id tm.pending ≡ found
      → IsOpen tm
      → Answered id (deliver found id msg tm)
  unfolding deliver complete close
  deliver-Answered none id msg tm e h = record {
    answer = (false, tm);
    returns = refl;
    open_after = h;
    once = λ again. rw e refl;
  }
  deliver-Answered (some ch) id msg tm e h = record {
    answer = (
      true,
      record tm {
        pending = remove_entry id tm.pending;
        closed = ch ∷ tm.closed;
        delivered = (ch, msg) ∷ tm.delivered;
      },
    );
    returns = rw (find-AreOpen id ch tm.closed tm.pending e h.open_chs) refl;
    open_after = closed_entry-IsOpen id ch tm ((ch, msg) ∷ tm.delivered) e h;
    once = λ again. rw (find-remove_entry id tm.pending) refl;
  }

  pub record GivenUp (id : Bytes) (r : Result Panic (TransactionManager Message)) : Type 0 where
    pub left : TransactionManager Message
    pub returns : r ≡ ok left
    pub open_after : IsOpen left
    pub gone : (late : Message) → complete id late left ≡ ok (false, left)

  give_up-GivenUp :
      (found : Option ℕ) (id : Bytes) (tm : TransactionManager Message)
      → find id tm.pending ≡ found
      → IsOpen tm
      → GivenUp id (give_up found id tm)
  unfolding give_up complete deliver close
  give_up-GivenUp none id tm e h = record {
    left = tm;
    returns = refl;
    open_after = h;
    gone = λ late. rw e refl;
  }
  give_up-GivenUp (some ch) id tm e h = record {
    left = record tm { pending = remove_entry id tm.pending; closed = ch ∷ tm.closed };
    returns = rw (find-AreOpen id ch tm.closed tm.pending e h.open_chs) refl;
    open_after = closed_entry-IsOpen id ch tm tm.delivered e h;
    gone = λ late. rw (find-remove_entry id tm.pending) refl;
  }

  -- The states that calls reach, in any order, from a new manager.
  pub data Reached : TransactionManager Message → Type 0 where
    fresh : Reached new_transactions
    added : (id : Bytes) (tm : TransactionManager Message) → Reached tm → Reached (start id tm).2
    completed :
        (id : Bytes) (msg : Message) (tm : TransactionManager Message)
        (q : Bool × TransactionManager Message)
        → Reached tm
        → complete id msg tm ≡ ok q
        → Reached q.1
    cancelled :
        (id : Bytes) (tm q : TransactionManager Message)
        → Reached tm
        → cancel id tm ≡ ok q
        → Reached q

  Reached-IsOpen : (tm : TransactionManager Message) → Reached tm → IsOpen tm
  unfolding complete cancel
  Reached-IsOpen _ fresh = new_transactions-IsOpen
  Reached-IsOpen _ (added id tm r) = start-IsOpen id tm (Reached-IsOpen tm r)
  Reached-IsOpen _ (completed id msg tm q r e) =
      let a = deliver-Answered (find id tm.pending) id msg tm refl (Reached-IsOpen tm r) in
      subst (λ (p : Bool × TransactionManager Message). IsOpen p.1)
        (ok-injective (sym a.returns ∙ e)) a.open_after
  Reached-IsOpen _ (cancelled id tm q r e) =
      let a = give_up-GivenUp (find id tm.pending) id tm refl (Reached-IsOpen tm r) in
      subst IsOpen (ok-injective (sym a.returns ∙ e)) a.open_after

  -- In any state that calls reach, Complete does not panic, so that no channel is closed twice, and a second answer for the identifier finds no entry; so does an answer that comes after Cancel, which does not panic either.
  pub complete-Answered :
      (id : Bytes) (msg : Message) (tm : TransactionManager Message)
      → Reached tm
      → Answered id (complete id msg tm) × GivenUp id (cancel id tm)
  unfolding complete cancel
  complete-Answered id msg tm r = (
    deliver-Answered (find id tm.pending) id msg tm refl (Reached-IsOpen tm r),
    give_up-GivenUp (find id tm.pending) id tm refl (Reached-IsOpen tm r),
  )
