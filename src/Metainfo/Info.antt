-- ===== src/Metainfo/Info.antt =====
-- internal/metainfo/info.go. The length of a download is a Go int, whose sum wraps.
pub mod Laws
pub mod RoundTrip
pub mod Ignored
use jelly_torrent.Base.{
  ℕ, zero, suc, ◌+◌, ◌-◌, ◌%◌, ◌^◌, Bool, true, false, Option, none, some, List, [], ◌∷◌, ◌++◌,
  Bytes, codes, ℤ, pos, negsuc, length, replicate, ltb, if◌then◌else◌,
}
use jelly_torrent.Base.Result.{Result, ok, err, ◌>>=◌}
use jelly_torrent.Strconv.{itoa, itoa_ℕ}
use jelly_torrent.Bencode.{Value, str, bytes, int, list, dict, other, Items, nil, cons, Fields, get}

pub record FileInfo : Type 0 where
  pub file_length : ℤ
  pub path : List Bytes

pub record Info : Type 0 where
  pub total_length : ℤ
  pub name : Bytes
  pub piece_length : ℤ
  pub pieces : Bytes
  pub info_hash : Bytes
  pub files : List FileInfo

pub data InfoError : Type 0 where
  bad_name bad_piece_length bad_pieces bad_length : InfoError
  bad_file bad_file_length bad_path : ℕ → InfoError
  bad_component : ℕ → ℕ → InfoError

-- The sum of two ints in 64 bits.
abbrev to_word : ℤ → ℕ
to_word (pos n) = n
to_word (negsuc n) = 2 ^ 64 - 1 - n

abbrev of_word : ℕ → ℤ
of_word w = if ltb w (2 ^ 63) then pos w else negsuc (2 ^ 64 - 1 - w)

unfoldable pub add_int : ℤ → ℤ → ℤ
add_int a b = of_word ((to_word a + to_word b) % 2 ^ 64)

-- The type assertions `x.(string)`, `x.([]byte)`, `x.(int)`, `x.([]interface{})` and
-- `x.(map[string]interface{})`, on the entry of a map.
abbrev pub as_str : Option Value → Option Bytes
as_str (some (str s)) = some s
as_str _ = none

abbrev pub as_bytes : Option Value → Option Bytes
as_bytes (some (bytes s)) = some s
as_bytes _ = none

abbrev pub as_int : Option Value → Option ℤ
as_int (some (int n)) = some n
as_int _ = none

abbrev pub as_list : Option Value → Option Items
as_list (some (list xs)) = some xs
as_list _ = none

abbrev pub as_dict : Option Value → Option Fields
as_dict (some (dict fs)) = some fs
as_dict _ = none

abbrev pub or_err : {A : Type 0} → InfoError → Option A → Result InfoError A
or_err e none = err e
or_err e (some a) = ok a

-- The inner loop of `parseFiles`: component `j` of the path of file `i`.
unfoldable pub parse_path : ℕ → ℕ → Items → Result InfoError (List Bytes)
parse_path i j nil = ok []
parse_path i j (cons x xs) = do
  s ← or_err (bad_component i j) (as_str (some x))
  more ← parse_path i (suc j) xs
  ok (s ∷ more)

unfoldable pub parse_file : ℕ → Value → Result InfoError FileInfo
unfolding get parse_path
parse_file i x = do
  m ← or_err (bad_file i) (as_dict (some x))
  n ← or_err (bad_file_length i) (as_int (get m (codes "length")))
  components ← or_err (bad_path i) (as_list (get m (codes "path")))
  path ← parse_path i 0 components
  ok (record { file_length = n; path = path })

unfoldable pub parse_files : ℕ → Items → Result InfoError (List FileInfo)
unfolding parse_file
parse_files i nil = ok []
parse_files i (cons x xs) = do f ← parse_file i x; fs ← parse_files (suc i) xs; ok (f ∷ fs)

unfoldable pub sum_lengths : ℤ → List FileInfo → ℤ
unfolding add_int
sum_lengths n [] = n
sum_lengths n (f ∷ fs) = sum_lengths (add_int n f.file_length) fs

-- The branches on `length` and on `files`.
unfoldable pub with_length : Option ℤ → Option Items → Info → Result InfoError Info
unfolding parse_files sum_lengths
with_length (some n) files info = ok (record info { total_length = n })
with_length none (some xs) info = do
  fs ← parse_files 0 xs
  ok (record info { files = fs; total_length = sum_lengths (pos 0) fs })
with_length none none info = err bad_length

unfoldable pub new_info : Fields → Result InfoError Info
unfolding get with_length
new_info m = do
  name ← or_err bad_name (as_str (get m (codes "name")))
  piece_length ← or_err bad_piece_length (as_int (get m (codes "piece length")))
  pieces ← or_err bad_pieces (as_bytes (get m (codes "pieces")))
  with_length (as_int (get m (codes "length"))) (as_list (get m (codes "files"))) (record {
    total_length = pos 0;
    name = name;
    piece_length = piece_length;
    pieces = pieces;
    info_hash = replicate 20 0;
    files = [];
  })

unfoldable pub is_single_file : Info → Bool
is_single_file i = elim i.files [ [] ↦ true | _ ∷ _ ↦ false ]

unfoldable pub get_files : Info → List FileInfo
get_files i = elim i.files [
  | [] ↦ record { file_length = i.total_length; path = i.name ∷ [] } ∷ []
  | f ∷ fs ↦ f ∷ fs
]

abbrev pub length_text : ℤ → Bytes
length_text n = codes "6:lengthi" ++ (itoa n ++ codes "e")

abbrev pub name_text : Bytes → Bytes
name_text s = codes "4:name" ++ (itoa_ℕ (length s) ++ (codes ":" ++ s))

abbrev pub piece_length_text : ℤ → Bytes
piece_length_text n = codes "12:piece lengthi" ++ (itoa n ++ codes "e")

abbrev pub pieces_text : Bytes → Bytes
pieces_text s = codes "6:pieces" ++ (itoa_ℕ (length s) ++ (codes ":" ++ s))

unfoldable pub path_text : List Bytes → Bytes
path_text [] = []
path_text (c ∷ cs) = (itoa_ℕ (length c) ++ (codes ":" ++ c)) ++ path_text cs

abbrev pub file_text : FileInfo → Bytes
file_text f =
    codes "d6:lengthi"
    ++ (itoa f.file_length ++ (codes "e4:pathl" ++ (path_text f.path ++ codes "ee")))

unfoldable pub files_text : List FileInfo → Bytes
unfolding path_text
files_text [] = []
files_text (f ∷ fs) = file_text f ++ files_text fs

-- What the two modes write first.
unfoldable pub first_text : ℤ → List FileInfo → Bytes
unfolding files_text
first_text n [] = length_text n
first_text n (f ∷ fs) = codes "5:filesl" ++ (files_text (f ∷ fs) ++ codes "e")

unfoldable pub serialize_info : Info → Bytes
unfolding first_text
serialize_info i =
    codes "d"
    ++ (first_text i.total_length i.files
        ++ (name_text i.name
            ++ (piece_length_text i.piece_length ++ (pieces_text i.pieces ++ codes "e"))))
