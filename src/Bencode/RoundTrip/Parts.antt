-- ===== src/Bencode/RoundTrip/Parts.antt =====
-- internal/bencode: the encodings of values from those of their parts, and their first bytes.
use jelly_torrent.Base.{◌≡◌, refl, sym, ◌∙◌, ◌≢◌, List, [], ◌∷◌, ◌++◌, Bytes}
use jelly_torrent.Base.Result.{ok, bind-ok, ok-injective}
use jelly_torrent.Strconv.Digits.{Head, Head-map}
use jelly_torrent.Bencode.{
  Value, str, bytes, int, list, dict, other, Items, nil, cons, Fields, end, field,
}
use jelly_torrent.Bencode.Canonical.{KeysRise, IsCanonical}
use jelly_torrent.Bencode.Encode.{
  Entry, encode, encode_items, encode_fields, encode_string, write_entries,
}
use jelly_torrent.Bencode.Encode.Order.{sort_entries-sorted}
use jelly_torrent.Bencode.Decode.{Kind, text, number, sequence, mapping, unknown, identify}
use jelly_torrent.Bencode.RoundTrip.Atoms.{encode_string-Head}
use jelly_torrent.Bencode.RoundTrip.Lists.{identify-ne_e}
use jelly_torrent.Bencode.RoundTrip.Maps.{encode_fields-IsSorted}

unfoldable pub kind : Value → Kind
kind (str s) = text
kind (bytes s) = text
kind (int n) = number
kind (list xs) = sequence
kind (dict fs) = mapping
kind other = unknown

-- The encodings of lists and maps, from those of their parts.
pub encode-list :
    (xs : Items) (e : Bytes)
    → encode (list xs) ≡ ok e
    → (body : Bytes) × (encode_items xs ≡ ok body) × (e ≡ b'l' ∷ (body ++ b'e' ∷ []))
unfolding encode
encode-list xs e h =
    let (body, p, q) = bind-ok (encode_items xs) _ h in (body, p, sym (ok-injective q))

pub encode-dict :
    (fs : Fields) (e : Bytes)
    → KeysRise fs
    → encode (dict fs) ≡ ok e
    → (es : List Entry) × (encode_fields fs ≡ ok es) × (e ≡ b'd' ∷ (write_entries es ++ b'e' ∷ []))
unfolding encode
encode-dict fs e k h =
    let (es, p, q) = bind-ok (encode_fields fs) _ h in
    (es, p, sym (ok-injective q) ∙ rw (sort_entries-sorted es (encode_fields-IsSorted fs es k p)))

pub encode-cons :
    (x : Value) (xs : Items) (e : Bytes)
    → encode_items (cons x xs) ≡ ok e
    → (d : Bytes) × (ds : Bytes) × (encode x ≡ ok d) × (encode_items xs ≡ ok ds) × (e ≡ d ++ ds)
unfolding encode
encode-cons x xs e h =
    let (d, p, q) = bind-ok (encode x) _ h in
    let (ds, p', q') = bind-ok (encode_items xs) _ q in (d, ds, p, p', sym (ok-injective q'))

pub encode-field :
    (k : Bytes) (v : Value) (fs : Fields) (es : List Entry)
    → encode_fields (field k v fs) ≡ ok es
    → (d : Bytes) × (ds : List Entry) × (encode v ≡ ok d)
      × (encode_fields fs ≡ ok ds)
      × (es ≡ (k, d) ∷ ds)
unfolding encode
encode-field k v fs es h =
    let (d, p, q) = bind-ok (encode v) _ h in
    let (ds, p', q') = bind-ok (encode_fields fs) _ q in (d, ds, p, p', sym (ok-injective q'))

pub encode-Head : (v : Value) (e : Bytes) → encode v ≡ ok e → Head (λ c. identify c ≡ kind v) e
unfolding kind
encode-Head (str s) e h = unfold encode in rw (← ok-injective h) (encode_string-Head s)
encode-Head (bytes s) e h = unfold encode in rw (← ok-injective h) (encode_string-Head s)
encode-Head (int n) e h = unfold encode identify in rw (← ok-injective h) refl
encode-Head (list xs) e h = let (body, p, q) = encode-list xs e h in rw q (unfold identify in refl)
encode-Head (dict fs) e h =
    unfold encode identify in
    let (body, p, q) = bind-ok (encode_fields fs) _ h in rw (← ok-injective q) refl
encode-Head other e h = unfold encode in cc

-- A byte that names the kind of an encoded value ends no loop.
pub encode-Head_open :
    (v : Value) (e : Bytes) → IsCanonical v → encode v ≡ ok e → Head (λ c. c ≢ b'e') e
unfolding kind
encode-Head_open (str s) e c h = Head-map e (identify-ne_e text (cc)) (encode-Head (str s) e h)
encode-Head_open (bytes s) e c h = Head-map e (identify-ne_e text (cc)) (encode-Head (bytes s) e h)
encode-Head_open (int n) e c h = Head-map e (identify-ne_e number (cc)) (encode-Head (int n) e h)
encode-Head_open (list xs) e c h =
    Head-map e (identify-ne_e sequence (cc)) (encode-Head (list xs) e h)
encode-Head_open (dict fs) e c h =
    Head-map e (identify-ne_e mapping (cc)) (encode-Head (dict fs) e h)
encode-Head_open other e c h = absurd c

pub encode_string-Head_open : (s : Bytes) → Head (λ c. c ≢ b'e') (encode_string s)
encode_string-Head_open s =
    Head-map (encode_string s) (identify-ne_e text (cc)) (encode_string-Head s)

pub write_entries-cons :
    (k d : Bytes) (es : List Entry)
    → write_entries ((k, d) ∷ es) ≡ encode_string k ++ (d ++ write_entries es)
unfolding write_entries
write_entries-cons k d es = refl

pub encode_items-nil : (e : Bytes) → encode_items nil ≡ ok e → e ≡ []
unfolding encode
encode_items-nil e h = sym (ok-injective h)

pub encode_fields-end : (es : List Entry) → encode_fields end ≡ ok es → es ≡ []
unfolding encode
encode_fields-end es h = sym (ok-injective h)

pub write_entries-nil : write_entries [] ≡ []
unfolding write_entries
write_entries-nil = refl
