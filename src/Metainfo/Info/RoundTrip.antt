-- ===== src/Metainfo/Info/RoundTrip.antt =====
-- internal/metainfo/info.go: an info that is serialized and decoded.
use jelly_torrent.Base.{
  ◌≡◌, ◌≤◌, refl, true, false, List, [], ◌∷◌, Bytes, bytes_ltb, ℤ, IsInt, arith, max_int, length,
  replicate, All,
}
use jelly_torrent.Base.Result.{ok}
use jelly_torrent.Strconv.{valid_utf8}
use jelly_torrent.Bencode.{dict}
use jelly_torrent.Bencode.Canonical.{IsCanonical, AreCanonical, nesting, nesting_items}
use jelly_torrent.Bencode.Decode.{decode, done}
use jelly_torrent.Bencode.RoundTrip.{decode-encode}
use jelly_torrent.Metainfo.Info.{Info, FileInfo, new_info, serialize_info}
use jelly_torrent.Metainfo.Info.Laws.{
  path_items, file_items, info_fields, common_fields, mode_fields, encode-info, Sums,
  new_info-common,
}

abbrev pub IsText : Bytes → Type 0
IsText s = valid_utf8 s ≡ true

-- What the decoder can give back: names are UTF-8 and the hashes of the pieces are not, numbers are
-- in range, and the length is the sum of the files.
-- `NewInfo` leaves the hash at its zero value.
abbrev pub unhashed : Info → Info
unhashed i = record i { info_hash = replicate 20 0 }

-- The name and the paths are UTF-8 and the hashes are not, the numbers are in the range of an int, and
-- the total length is the sum of the files' lengths, if there are several.
pub record IsPortable (i : Info) : Type 0 where
  pub name_text : IsText i.name
  pub pieces_binary : valid_utf8 i.pieces ≡ false
  pub piece_length_int : IsInt i.piece_length
  pub total_int : IsInt i.total_length
  pub files_text : All (λ f. IsInt f.file_length × All IsText f.path) i.files
  pub sums : Sums i.total_length i.files

path_items-AreCanonical : (cs : List Bytes) → All IsText cs → AreCanonical (path_items cs)
path_items-AreCanonical [] h = tt
path_items-AreCanonical (c ∷ cs) (t, h) = (t, path_items-AreCanonical cs h)

file_items-AreCanonical :
    (fs : List FileInfo)
    → All (λ f. IsInt f.file_length × All IsText f.path) fs
    → AreCanonical (file_items fs)
unfolding bytes_ltb
file_items-AreCanonical [] h = tt
file_items-AreCanonical (f ∷ fs) ((n, p), h) =
    (((refl, tt), (n, (path_items-AreCanonical f.path p, tt))), file_items-AreCanonical fs h)

path_items-nesting : (cs : List Bytes) → nesting_items (path_items cs) ≡ 0
path_items-nesting [] = refl
path_items-nesting (c ∷ cs) = ground (arith, path_items-nesting cs)

file_items-nesting : (fs : List FileInfo) → nesting_items (file_items fs) ≤ 2
file_items-nesting [] = omega arith
file_items-nesting (f ∷ fs) = ground (arith, path_items-nesting f.path, file_items-nesting fs)

mode-IsCanonical :
    (n : ℤ) (fs : List FileInfo) (i : Info)
    → IsInt n
    → All (λ f. IsInt f.file_length × All IsText f.path) fs
    → IsText i.name
    → IsInt i.piece_length
    → valid_utf8 i.pieces ≡ false
    → IsCanonical (dict (mode_fields n fs (common_fields i)))
unfolding bytes_ltb
mode-IsCanonical n [] i num files name piece_length pieces =
    ((refl, (refl, (refl, tt))), (num, (name, (piece_length, (pieces, tt)))))
mode-IsCanonical n (f ∷ fs) i num files name piece_length pieces = (
  (refl, (refl, (refl, tt))),
  (file_items-AreCanonical (f ∷ fs) files, (name, (piece_length, (pieces, tt)))),
)

info_fields-IsCanonical : (i : Info) → IsPortable i → IsCanonical (dict (info_fields i))
info_fields-IsCanonical i p =
    mode-IsCanonical i.total_length i.files i p.total_int p.files_text p.name_text
      p.piece_length_int p.pieces_binary

info_fields-nesting :
    (n : ℤ) (fs : List FileInfo) (i : Info)
    → nesting (dict (mode_fields n fs (common_fields i))) ≤ 4
info_fields-nesting n [] i = ground arith
info_fields-nesting n (f ∷ fs) i = ground (arith, file_items-nesting (f ∷ fs))

new_info-info_fields : (i : Info) → IsPortable i → new_info (info_fields i) ≡ ok (unhashed i)
new_info-info_fields i p =
    new_info-common i.total_length i.files i.name i.pieces i.piece_length p.sums

-- An info that is serialized is decoded to its dictionary, and `NewInfo` reads everything but the info hash back from it, where its name and paths are UTF-8 and its hashes are not, its numbers are in the range of an int, its total length is the sum of the files' lengths if there are files, and the text is no longer than an int can count.
pub decode-serialize_info :
    (i : Info)
    → IsPortable i
    → length (serialize_info i) ≤ max_int
    → (decode (serialize_info i) ≡ done (dict (info_fields i)))
      × (new_info (info_fields i) ≡ ok (unhashed i))
decode-serialize_info i p fits = (
  decode-encode (dict (info_fields i)) (serialize_info i) (info_fields-IsCanonical i p)
      (omega (arith, info_fields-nesting i.total_length i.files i)) fits (encode-info i),
  new_info-info_fields i p,
)
