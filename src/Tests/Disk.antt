-- ===== src/Tests/Disk.antt =====
-- internal/storage and internal/peer/bitfield.go: runs at concrete inputs.
use jelly_torrent.Base.{
  ◌≡◌, refl, true, false, none, some, [], ◌∷◌, codes, arith, ◌==◌, if◌then◌else◌,
}
use jelly_torrent.Storage.{
  WriteCalls, written, write_failed, Disk, DiskStore, new_disk_store, write_piece, read_piece,
  completed_bitfield,
}
use jelly_torrent.Storage
use jelly_torrent.Storage.Laws.{
  write_piece-IsValid, read_piece-write_piece, read_piece-write_piece_ne,
  new_disk_store-write_piece,
}
use jelly_torrent.Peer.BitField.{new_bit_field, has_piece, set_piece}
use jelly_torrent.Peer.BitField.Laws.{has_piece-set_piece}

abbrev empty_disk : Disk
empty_disk = record { piece_files = none ∷ none ∷ []; bitfield_file = none }

abbrev two_pieces : DiskStore
two_pieces = record { num_pieces = 2; bitfield = false ∷ false ∷ []; disk = empty_disk }

abbrev all_ok : WriteCalls
all_ok = record { piece_file = written; temp_file_ok = true; rename_ok = true }

two_pieces-IsValid : Storage.Laws.IsValid two_pieces
two_pieces-IsValid = record { bits = refl; files = refl }

written_ok : (write_piece all_ok 1 (codes "ab") two_pieces).1 ≡ true
unfolding write_piece
written_ok = refl

read_piece-write_piece_example :
    read_piece 1 (write_piece all_ok 1 (codes "ab") two_pieces).0 ≡ some (codes "ab")
read_piece-write_piece_example =
    read_piece-write_piece all_ok 1 (codes "ab") two_pieces two_pieces-IsValid written_ok

new_disk_store-write_piece_example :
    new_disk_store 2 (write_piece all_ok 1 (codes "ab") two_pieces).0.disk
    ≡ (write_piece all_ok 1 (codes "ab") two_pieces).0
new_disk_store-write_piece_example =
    new_disk_store-write_piece all_ok 1 (codes "ab") two_pieces two_pieces-IsValid written_ok

has_piece-set_piece_example :
    has_piece (set_piece (0x80 ∷ 0 ∷ []) 9) 0
    ≡ (if 0 == 9 then true else has_piece (0x80 ∷ 0 ∷ []) 0)
has_piece-set_piece_example =
    has_piece-set_piece (0x80 ∷ 0 ∷ []) 9 0 (omega arith, (omega arith, tt)) (omega arith)

bit_of_ten : has_piece (set_piece (new_bit_field 10) 9) 9 ≡ true
unfolding has_piece set_piece new_bit_field
bit_of_ten = refl
