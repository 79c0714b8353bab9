-- ===== src/Storage/Laws.antt =====
-- internal/storage/disk_store.go: what is written can be read, now and after a restart.
use jelly_torrent.Base.{
  ℕ, zero, suc, ◌<◌, ◌≡◌, refl, sym, ap, ◌≢◌, Bool, true, false, none, some, List, [], ◌∷◌, map,
  arith, Bytes, length, length-set, get_or, set, replicate, length-replicate, ltb, Bool-cases, inl,
  inr,
}
use jelly_torrent.Storage.{
  WriteOutcome, written, write_failed, WriteCalls, DiskStore, load_bits, new_disk_store, bit_byte,
  write_file, write_piece, read_piece, completed_bitfield, copy_bits,
}

-- The slices have an entry for each piece, and a piece that is marked has a file.
pub record IsValid (ds : DiskStore) : Type 0 where
  pub bits : length ds.bitfield ≡ ds.num_pieces
  pub files : length ds.disk.piece_files ≡ ds.num_pieces

get_or-set_self :
    {A : Type 0} (xs : List A) (i : ℕ) (v d : A) → i < length xs → get_or (set xs i v) i d ≡ v
get_or-set_self [] i v d h = elim h [ ]
get_or-set_self (x ∷ xs) zero v d h = refl
get_or-set_self (x ∷ xs) (suc i) v d h = get_or-set_self xs i v d (omega arith)

get_or-set_ne :
    {A : Type 0} (xs : List A) (i j : ℕ) (v d : A) → i ≢ j → get_or (set xs i v) j d ≡ get_or xs j d
get_or-set_ne [] i j v d h = refl
get_or-set_ne (x ∷ xs) zero zero v d h = absurd (h refl)
get_or-set_ne (x ∷ xs) zero (suc j) v d h = refl
get_or-set_ne (x ∷ xs) (suc i) zero v d h = refl
get_or-set_ne (x ∷ xs) (suc i) (suc j) v d h = get_or-set_ne xs i j v d (λ e. h (ap suc e))

write_file-IsValid :
    (calls : WriteCalls) (i : ℕ) (bs : Bytes) (ds : DiskStore) (o : WriteOutcome)
    → IsValid ds
    → IsValid (write_file calls i bs ds o).0
unfolding write_file
write_file-IsValid calls i bs ds (write_failed left) h =
    omega (arith, h.bits, h.files, length-set ds.disk.piece_files i left)
write_file-IsValid calls i bs ds written h =
    ground (arith, length-set ds.bitfield i true, length-set ds.disk.piece_files i (some bs))

-- `WritePiece` keeps an entry for each piece, whatever the calls it makes return.
pub write_piece-IsValid :
    (calls : WriteCalls) (i : ℕ) (bs : Bytes) (ds : DiskStore)
    → IsValid ds
    → IsValid (write_piece calls i bs ds).0
unfolding write_piece
write_piece-IsValid calls i bs ds h = elim (Bool-cases (ltb i ds.num_pieces)) [
  | inl e ↦ rw e (write_file-IsValid calls i bs ds calls.piece_file h)
  | inr e ↦ rw e h
]

-- A `WritePiece` without an error makes the piece readable, with the data that was written.
pub read_piece-write_piece :
    (calls : WriteCalls) (i : ℕ) (bs : Bytes) (ds : DiskStore)
    → IsValid ds
    → (write_piece calls i bs ds).1 ≡ true
    → read_piece i (write_piece calls i bs ds).0 ≡ some bs
unfolding write_piece read_piece
read_piece-write_piece calls i bs ds h e = ground (
  arith,
  get_or-set_self ds.bitfield i true false,
  get_or-set_self ds.disk.piece_files i (some bs) none,
)

read_piece-write_file_ne :
    (calls : WriteCalls) (i j : ℕ) (bs : Bytes) (ds : DiskStore) (o : WriteOutcome)
    → i ≢ j
    → read_piece j (write_file calls i bs ds o).0 ≡ read_piece j ds
unfolding write_file read_piece
read_piece-write_file_ne calls i j bs ds (write_failed left) h =
    rw (get_or-set_ne ds.disk.piece_files i j left none h)
read_piece-write_file_ne calls i j bs ds written h = ground (
  arith,
  get_or-set_ne ds.bitfield i j true false h,
  get_or-set_ne ds.disk.piece_files i j (some bs) none h,
)

-- Whatever its outcome, it leaves every other piece as it was.
pub read_piece-write_piece_ne :
    (calls : WriteCalls) (i j : ℕ) (bs : Bytes) (ds : DiskStore)
    → i ≢ j
    → read_piece j (write_piece calls i bs ds).0 ≡ read_piece j ds
unfolding write_piece
read_piece-write_piece_ne calls i j bs ds h = elim (Bool-cases (ltb i ds.num_pieces)) [
  | inl e ↦ rw e (read_piece-write_file_ne calls i j bs ds calls.piece_file h)
  | inr e ↦ rw e refl
]

load_bits-map :
    (bits fresh : List Bool)
    → length fresh ≡ length bits
    → load_bits (map bit_byte bits) fresh ≡ bits
unfolding load_bits
load_bits-map [] [] h = refl
load_bits-map [] (f ∷ fs) h = absurd (omega arith)
load_bits-map (b ∷ bs) [] h = absurd (omega arith)
load_bits-map (true ∷ bs) (f ∷ fs) h = ap (λ t. true ∷ t) (load_bits-map bs fs (omega arith))
load_bits-map (false ∷ bs) (f ∷ fs) h = ap (λ t. false ∷ t) (load_bits-map bs fs (omega arith))

write_file-saved :
    (calls : WriteCalls) (i : ℕ) (bs : Bytes) (ds : DiskStore) (o : WriteOutcome)
    → (write_file calls i bs ds o).1 ≡ true
    → (write_file calls i bs ds o).0.disk.bitfield_file
      ≡ some (map bit_byte (write_file calls i bs ds o).0.bitfield)
unfolding write_file
write_file-saved calls i bs ds (write_failed left) h = cc
write_file-saved calls i bs ds written h = ground arith

write_piece-saved :
    (calls : WriteCalls) (i : ℕ) (bs : Bytes) (ds : DiskStore)
    → (write_piece calls i bs ds).1 ≡ true
    → (write_piece calls i bs ds).0.disk.bitfield_file
      ≡ some (map bit_byte (write_piece calls i bs ds).0.bitfield)
unfolding write_piece
write_piece-saved calls i bs ds h = ground (arith, write_file-saved calls i bs ds calls.piece_file)

num_pieces-write_file :
    (calls : WriteCalls) (i : ℕ) (bs : Bytes) (ds : DiskStore) (o : WriteOutcome)
    → (write_file calls i bs ds o).0.num_pieces ≡ ds.num_pieces
unfolding write_file
num_pieces-write_file calls i bs ds (write_failed left) = refl
num_pieces-write_file calls i bs ds written = ground arith

num_pieces-write_piece :
    (calls : WriteCalls) (i : ℕ) (bs : Bytes) (ds : DiskStore)
    → (write_piece calls i bs ds).0.num_pieces ≡ ds.num_pieces
unfolding write_piece
num_pieces-write_piece calls i bs ds = elim (Bool-cases (ltb i ds.num_pieces)) [
  | inl e ↦ rw e (num_pieces-write_file calls i bs ds calls.piece_file)
  | inr e ↦ rw e refl
]

-- A store that is opened on the files that a `WritePiece` without an error left is the store that
-- wrote them: a restart resumes with the same pieces.
pub new_disk_store-write_piece :
    (calls : WriteCalls) (i : ℕ) (bs : Bytes) (ds : DiskStore)
    → IsValid ds
    → (write_piece calls i bs ds).1 ≡ true
    → new_disk_store ds.num_pieces (write_piece calls i bs ds).0.disk
      ≡ (write_piece calls i bs ds).0
unfolding new_disk_store
new_disk_store-write_piece calls i bs ds h e =
    let after = (write_piece calls i bs ds).0 in
    let saved = write_piece-saved calls i bs ds e in
    let valid = write_piece-IsValid calls i bs ds h in
    let same = num_pieces-write_piece calls i bs ds in
    let loaded : load_bits (map bit_byte after.bitfield) (replicate ds.num_pieces false)
        ≡ after.bitfield =
      load_bits-map after.bitfield _
        (omega (arith, length-replicate ds.num_pieces false, valid.bits, same)) in
    rw saved (λ k. record { num_pieces = sym same k; bitfield = loaded k; disk = after.disk })

copy_bits-length : (n : ℕ) (bits : List Bool) → length bits ≡ n → copy_bits n bits ≡ bits
unfolding copy_bits
copy_bits-length zero [] h = refl
copy_bits-length zero (b ∷ bs) h = absurd (omega arith)
copy_bits-length (suc n) [] h = absurd (omega arith)
copy_bits-length (suc n) (b ∷ bs) h = ap (λ t. b ∷ t) (copy_bits-length n bs (omega arith))

pub completed_bitfield-bits : (ds : DiskStore) → IsValid ds → completed_bitfield ds ≡ ds.bitfield
unfolding completed_bitfield
completed_bitfield-bits ds h = copy_bits-length ds.num_pieces ds.bitfield h.bits
