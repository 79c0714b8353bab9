-- ===== src/Storage.antt =====
-- internal/storage/disk_store.go: the pieces on disk, and which of them are there. The directory is
-- part of the state: a file for each piece, by its index, and the bitfield file. What the operating
-- system does with a write is an argument.
pub mod Laws
use jelly_torrent.Base.{
  ℕ, zero, suc, Bool, true, false, Option, none, some, List, [], ◌∷◌, map, Bytes, length, get_elem?,
  get_or, set, replicate, ltb, ◌==◌, if◌then◌else◌,
}

-- What `os.WriteFile` leaves: the whole text, or an error with any content or no file.
pub data WriteOutcome : Type 0 where
  written : WriteOutcome
  write_failed : Option Bytes → WriteOutcome

-- The outcomes of the three calls of one `WritePiece`.
pub record WriteCalls : Type 0 where
  pub piece_file : WriteOutcome
  pub temp_file_ok : Bool
  pub rename_ok : Bool

pub record Disk : Type 0 where
  pub piece_files : List (Option Bytes)
  pub bitfield_file : Option Bytes

pub record DiskStore : Type 0 where
  pub num_pieces : ℕ
  pub bitfield : List Bool
  pub disk : Disk

-- The loop of `loadBitfield`: the bytes of the file, up to the number of pieces.
unfoldable pub load_bits : Bytes → List Bool → List Bool
load_bits [] bits = bits
load_bits (b ∷ bs) [] = []
load_bits (b ∷ bs) (has ∷ bits) = (b == 1) ∷ load_bits bs bits

unfoldable pub load_bitfield : Option Bytes → List Bool → List Bool
unfolding load_bits
load_bitfield none bits = bits
load_bitfield (some file) bits = load_bits file bits

-- `NewDiskStore` where the directory can be made.
unfoldable pub new_disk_store : ℕ → Disk → DiskStore
unfolding load_bitfield
new_disk_store n d = record {
  num_pieces = n;
  bitfield = load_bitfield d.bitfield_file (replicate n false);
  disk = d;
}

abbrev pub bit_byte : Bool → ℕ
bit_byte has = if has then 1 else 0

-- The second part of the result tells whether there was no error.
unfoldable pub save_bitfield : WriteCalls → DiskStore → DiskStore × Bool
save_bitfield calls ds =
    if calls.temp_file_ok
    then if calls.rename_ok
      then (
        record ds { disk = record ds.disk { bitfield_file = some (map bit_byte ds.bitfield) } },
        true,
      )
      else (ds, false)
    else (ds, false)

abbrev pub set_file : ℕ → Option Bytes → DiskStore → DiskStore
set_file i file ds = record ds {
  disk = record ds.disk { piece_files = set ds.disk.piece_files i file };
}

unfoldable pub write_file : WriteCalls → ℕ → Bytes → DiskStore → WriteOutcome → DiskStore × Bool
unfolding save_bitfield
write_file calls i bs ds (write_failed left) = (set_file i left ds, false)
write_file calls i bs ds written =
    let ds' = set_file i (some bs) ds in
    save_bitfield calls (record ds' { bitfield = set ds'.bitfield i true })

unfoldable pub write_piece : WriteCalls → ℕ → Bytes → DiskStore → DiskStore × Bool
unfolding write_file
write_piece calls i bs ds =
    if ltb i ds.num_pieces then write_file calls i bs ds calls.piece_file else (ds, false)

-- `none` is an error: no such piece, not available, or no file.
unfoldable pub read_piece : ℕ → DiskStore → Option Bytes
read_piece i ds =
    if ltb i ds.num_pieces
    then if get_or ds.bitfield i false then get_or ds.disk.piece_files i none else none
    else none

unfoldable pub has_piece : ℕ → DiskStore → Bool
has_piece i ds = if ltb i ds.num_pieces then get_or ds.bitfield i false else false

-- `copy` into a new slice of `numPieces` entries.
unfoldable pub copy_bits : ℕ → List Bool → List Bool
copy_bits zero bits = []
copy_bits (suc n) [] = false ∷ copy_bits n []
copy_bits (suc n) (has ∷ bits) = has ∷ copy_bits n bits

unfoldable pub completed_bitfield : DiskStore → List Bool
unfolding copy_bits
completed_bitfield ds = copy_bits ds.num_pieces ds.bitfield
