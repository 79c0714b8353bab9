-- ===== src/Bencode/Decode/Cursors.antt =====
-- Cursors that stand in the input: their index and their rest agree. How each reader of
-- internal/bencode/decode.go moves one.
use jelly_torrent.Base.{
  ℕ, suc, ◌+◌, ◌≤◌, ◌<◌, ◌≡◌, refl, sym, ap, ◌∙◌, inl, inr, Option, none, some, [], ◌∷◌, ◌++◌,
  arith, Bytes, ℤ, pos, negsuc, length, drop, length-append, length-drop, drop-append, drop-add,
  Bool-cases, le_of_not_ltb, Option-cases, ltb,
}
use native.Mathlib.Nat.{add-zero}
use jelly_torrent.Base.Result.{Result, ok, err}
use jelly_torrent.Strconv.{atoi, NumError}
use jelly_torrent.Bencode.Decode.{
  Outcome, done, failed, out_of_fuel, Cursor, split_at, read_content, read_length, read_string,
  decode_string, read_number, read_int, read_terminated, decode_int, skip,
}

pub record InInput (input : Bytes) (c : Cursor) : Type 0 where
  pub rest_eq : c.rest ≡ drop c.index input
  pub total_eq : c.index + length c.rest ≡ length input

abbrev pub cursor : ℕ → Bytes → Cursor
cursor i s = record { index = i; rest = s }

abbrev pub moved : Cursor → ℕ → Cursor
moved c k = record { index = c.index + k; rest = drop k c.rest }

pub moved-InInput :
    (input : Bytes) (c : Cursor) (k : ℕ)
    → InInput input c
    → k ≤ length c.rest
    → InInput input (moved c k)
moved-InInput input c k h le = record {
  rest_eq = ap (drop k) h.rest_eq ∙ sym (drop-add c.index k input);
  total_eq = omega (arith, length-drop k c.rest, h.total_eq);
}

-- What a reader may do from `c`: end behind `c` in the input, or fail; it does not run out of fuel.
abbrev pub Moves : Bytes → Cursor → {A : Type 0} → Outcome (A × Cursor) → Type 0
Moves input c (done (a, c')) = InInput input c' × (length c'.rest < length c.rest)
Moves input c (failed e) = Unit
Moves input c out_of_fuel = ⊥

pub split_at-append :
    (sep : ℕ) (s before after : Bytes)
    → split_at sep s ≡ some (before, after)
    → s ≡ before ++ sep ∷ after
unfolding split_at
split_at-append sep [] b a h = cc
split_at-append sep (c ∷ s) b a h = elim (Option-cases (split_at sep s)) [
  | inl e ↦ ground arith
  | inr ((b', a'), e) ↦ ground (arith, split_at-append sep s b' a' e)
]

pub moved_to :
    (input : Bytes) (c : Cursor) (k : ℕ) (s t : Bytes)
    → InInput input c
    → c.rest ≡ s ++ t
    → length s ≡ k
    → InInput input (record { index = c.index + k; rest = t })
moved_to input c k s t h e l =
    let e' : drop k c.rest ≡ t = rw (e, ← l) (drop-append s t) in
    rw e' at (moved-InInput input c k h (omega (arith, ap length e, length-append s t)))

-- The cursor behind `before`, the separator and `n` bytes more.
behind :
    (input : Bytes) (c : Cursor) (sep n : ℕ) (before after : Bytes)
    → InInput input c
    → c.rest ≡ before ++ sep ∷ after
    → n ≤ length after
    → InInput input (record { index = c.index + length before + 1 + n; rest = drop n after })
      × (length (drop n after) < length c.rest)
behind input c sep n before after h e le =
    let size : length c.rest ≡ length before + suc (length after) =
      ap length e ∙ length-append before (sep ∷ after) in
    let there : drop (length before + (1 + n)) c.rest ≡ drop n after = rw e (
      drop-add (length before) (1 + n) (before ++ sep ∷ after)
      ∙ ap (drop (1 + n)) (drop-append before (sep ∷ after))
      ∙ drop-add 1 n (sep ∷ after)) in
    let at : c.index + (length before + (1 + n)) ≡ c.index + length before + 1 + n = omega arith in
    (
      rw (at, there) at (moved-InInput input c (length before + (1 + n)) h (omega arith)),
      omega (arith, length-drop n after),
    )

module _ (input : Bytes) (c : Cursor) (h : InInput input c) where
  read_content-Moves :
      (before after : Bytes) (z : ℤ)
      → c.rest ≡ before ++ b':' ∷ after
      → Moves input c (read_content (length input) c before after z)
  unfolding read_content
  read_content-Moves before after (negsuc n) e = tt
  read_content-Moves before after (pos n) e =
      let end_index = c.index + length before + 1 + n in
      elim (Bool-cases (ltb (length input) n)) [
        | inl big ↦ rw big tt
        | inr fits ↦ elim (Bool-cases (ltb (length input) end_index)) [
          | inl past ↦ rw (fits, past) tt
          | inr within ↦
              rw (fits, within)
                (behind input c b':' n before after h e (
                  omega (
                    arith,
                    le_of_not_ltb _ _ within,
                    h.total_eq,
                    ap length e,
                    length-append before (b':' ∷ after),
                  )))
        ]
      ]

  read_length-Moves :
      (before after : Bytes) (r : Result NumError ℤ)
      → c.rest ≡ before ++ b':' ∷ after
      → Moves input c (read_length (length input) c before after r)
  unfolding read_length
  read_length-Moves before after (err e) s = tt
  read_length-Moves before after (ok n) s = read_content-Moves before after n s

  read_string-Moves :
      (o : Option (Bytes × Bytes))
      → split_at b':' c.rest ≡ o
      → Moves input c (read_string (length input) c o)
  unfolding read_string
  read_string-Moves none e = tt
  read_string-Moves (some (before, after)) e =
      read_length-Moves before after (atoi before) (split_at-append b':' c.rest before after e)

  pub decode_string-Moves : Moves input c (decode_string (length input) c)
  unfolding decode_string
  decode_string-Moves = read_string-Moves (split_at b':' c.rest) refl

  read_number-Moves :
      (c' : Cursor) (r : Result NumError ℤ)
      → InInput input c'
      → length c'.rest < length c.rest
      → Moves input c (read_number (length input) c c' r)
  unfolding read_number
  read_number-Moves c' (err e) h' lt = tt
  read_number-Moves c' (ok n) h' lt = (h', lt)

  read_int-Moves :
      (num_str : Bytes) (c' : Cursor)
      → InInput input c'
      → length c'.rest < length c.rest
      → Moves input c (read_int (length input) c num_str c')
  unfolding read_int
  read_int-Moves num_str c' h' lt = ground (arith, read_number-Moves c' (atoi num_str) h' lt)

  read_terminated-Moves :
      (o : Option (Bytes × Bytes))
      → split_at b'e' c.rest ≡ o
      → Moves input c (read_terminated (length input) c o)
  unfolding read_terminated
  read_terminated-Moves none e = tt
  read_terminated-Moves (some (before, after)) e =
      let (h', lt) =
        behind input c b'e' 0 before after h (split_at-append b'e' c.rest before after e)
          (omega arith) in
      read_int-Moves (drop 1 before) _ (rw add-zero at h') lt

  pub decode_int-Moves : Moves input c (decode_int (length input) c)
  unfolding decode_int
  decode_int-Moves = read_terminated-Moves (split_at b'e' c.rest) refl

  pub skip-InInput : 0 < length c.rest → InInput input (skip c)
  skip-InInput lt = moved-InInput input c 1 h lt
