-- ===== src/Metainfo/Info/Laws.antt =====
-- internal/metainfo/info.go: the serialization is the bencoding of the info dictionary, and reading
-- the dictionary back gives the info.
use jelly_torrent.Base.{
  ℕ, suc, ◌≡◌, refl, ap, List, [], ◌∷◌, ◌++◌, append_assoc, Bytes, bytes_eq, bytes_ltb, codes, ℤ,
  pos, replicate,
}
use jelly_torrent.Base.Result.{ok}
use jelly_torrent.Strconv.{itoa_ℕ}
use jelly_torrent.Bencode.{Value, str, bytes, int, list, dict, Items, nil, cons, Fields, end, field}
use jelly_torrent.Bencode.Encode.{
  encode, encode_items, encode_fields, encode_string, encode_int, sort_entries, write_entries,
}
use jelly_torrent.Metainfo.Info.{
  Info, FileInfo, new_info, with_length, parse_files, parse_file, parse_path, sum_lengths,
  serialize_info, files_text, file_text, path_text,
}

abbrev pub path_items : List Bytes → Items
path_items [] = nil
path_items (c ∷ cs) = cons (str c) (path_items cs)

abbrev pub file_value : FileInfo → Value
file_value f = dict (
    field (codes "length") (int f.file_length)
      (field (codes "path") (list (path_items f.path)) end))

abbrev pub file_items : List FileInfo → Items
file_items [] = nil
file_items (f ∷ fs) = cons (file_value f) (file_items fs)

abbrev pub common_fields : Info → Fields
common_fields i = field (codes "name") (str i.name) (
    field (codes "piece length") (int i.piece_length) (field (codes "pieces") (bytes i.pieces) end))

abbrev pub mode_fields : ℤ → List FileInfo → Fields → Fields
mode_fields n [] rest = field (codes "length") (int n) rest
mode_fields n (f ∷ fs) rest = field (codes "files") (list (file_items (f ∷ fs))) rest

-- The info dictionary of BEP 3.
abbrev pub info_fields : Info → Fields
info_fields i = mode_fields i.total_length i.files (common_fields i)

encode-path_items : (cs : List Bytes) → encode_items (path_items cs) ≡ ok (path_text cs)
unfolding encode encode_string path_text
encode-path_items [] = refl
encode-path_items (c ∷ cs) = rw (encode-path_items cs) refl

encode-file_value : (f : FileInfo) → encode (file_value f) ≡ ok (file_text f)
unfolding encode encode_fields encode_string encode_int sort_entries write_entries bytes_ltb itoa_ℕ
encode-file_value f = rw (encode-path_items f.path) (simp append_assoc)

encode-cons :
    (x : Value) (xs : Items) {e b : Bytes}
    → encode x ≡ ok e
    → encode_items xs ≡ ok b
    → encode_items (cons x xs) ≡ ok (e ++ b)
unfolding encode
encode-cons x xs p q = rw (p, q) refl

encode-file_items : (fs : List FileInfo) → encode_items (file_items fs) ≡ ok (files_text fs)
unfolding files_text
encode-file_items [] = unfold encode in refl
encode-file_items (f ∷ fs) =
    encode-cons (file_value f) (file_items fs) (encode-file_value f) (encode-file_items fs)

encode-common :
    (n : ℤ) (fs : List FileInfo) (name pieces : Bytes) (piece_length : ℤ) (hash : Bytes)
    → let i : Info = record {
      total_length = n;
      name = name;
      piece_length = piece_length;
      pieces = pieces;
      info_hash = hash;
      files = fs;
    } in
      encode (dict (info_fields i)) ≡ ok (serialize_info i)
unfolding encode encode_fields encode_string encode_int sort_entries write_entries bytes_ltb itoa_ℕ
    serialize_info
encode-common n [] name pieces piece_length hash = simp append_assoc
encode-common n (f ∷ fs) name pieces piece_length hash =
    rw (encode-file_items (f ∷ fs)) (simp append_assoc)

-- The serialization of an info, written by hand in the code, is the bencoding of its dictionary.
pub encode-info : (i : Info) → encode (dict (info_fields i)) ≡ ok (serialize_info i)
encode-info i = encode-common i.total_length i.files i.name i.pieces i.piece_length i.info_hash

parse_path-path_items : (i j : ℕ) (cs : List Bytes) → parse_path i j (path_items cs) ≡ ok cs
unfolding parse_path
parse_path-path_items i j [] = refl
parse_path-path_items i j (c ∷ cs) = rw (parse_path-path_items i (suc j) cs) refl

parse_file-file_value : (i : ℕ) (f : FileInfo) → parse_file i (file_value f) ≡ ok f
unfolding parse_file bytes_eq
parse_file-file_value i f = rw (parse_path-path_items i 0 f.path) refl

parse_files-cons :
    (i : ℕ) (x : Value) (xs : Items) {f : FileInfo} {fs : List FileInfo}
    → parse_file i x ≡ ok f
    → parse_files (suc i) xs ≡ ok fs
    → parse_files i (cons x xs) ≡ ok (f ∷ fs)
unfolding parse_files
parse_files-cons i x xs p q = rw (p, q) refl

parse_files-file_items : (i : ℕ) (fs : List FileInfo) → parse_files i (file_items fs) ≡ ok fs
parse_files-file_items i [] = unfold parse_files in refl
parse_files-file_items i (f ∷ fs) =
    parse_files-cons i (file_value f) (file_items fs) (parse_file-file_value i f)
      (parse_files-file_items (suc i) fs)

-- The length of a torrent with files is the sum of theirs.
abbrev pub Sums : ℤ → List FileInfo → Type 0
Sums n [] = Unit
Sums n (f ∷ fs) = sum_lengths (pos 0) (f ∷ fs) ≡ n

abbrev no_hash : Bytes
no_hash = replicate 20 0

pub new_info-common :
    (n : ℤ) (fs : List FileInfo) (name pieces : Bytes) (piece_length : ℤ)
    → Sums n fs
    → let i : Info = record {
      total_length = n;
      name = name;
      piece_length = piece_length;
      pieces = pieces;
      info_hash = no_hash;
      files = fs;
    } in
      new_info (info_fields i) ≡ ok i
unfolding new_info bytes_eq with_length
new_info-common n [] name pieces piece_length h = refl
new_info-common n (f ∷ fs) name pieces piece_length h = rw (parse_files-file_items 0 (f ∷ fs)) (
    ap
      (λ t. ok (record {
        total_length = t;
        name = name;
        piece_length = piece_length;
        pieces = pieces;
        info_hash = no_hash;
        files = f ∷ fs;
      }))
      h)
