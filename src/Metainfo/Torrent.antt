-- ===== src/Metainfo/Torrent.antt =====
-- internal/metainfo/torrent.go: the torrent file. SHA-1 is an argument.
pub mod Ignored
use jelly_torrent.Base.{
  Bool, true, false, ◌&&◌, not, Option, none, some, List, [], ◌∷◌, ◌++◌, ◌≡◌, inl, inr, refl, Bytes,
  bytes_eq, bytes_eq_sound, bytes_eq_refl, codes, arith, if◌then◌else◌, Bool-cases,
}
use mathlib.Core.Path.{subst, sym}
use jelly_torrent.Base.Assoc.{bytes_eq_flip}
use jelly_torrent.Base.Result.{Result, ok, err, ◌>>=◌}
use jelly_torrent.Bencode.{Value, str, Items, nil, cons, get}
use jelly_torrent.Metainfo.Info.{
  Info, InfoError, new_info, serialize_info, as_str, as_list, as_dict,
}

pub record TorrentFile : Type 0 where
  pub announce : Bytes
  pub announce_list : List Bytes
  pub info : Info

pub data TorrentError : Type 0 where
  not_a_map bad_announce bad_info : TorrentError
  info_error : InfoError → TorrentError
  panic_on_empty_tier : TorrentError

abbrev or_fail : {A : Type 0} → TorrentError → Option A → Result TorrentError A
or_fail e none = err e
or_fail e (some a) = ok a

-- The first link of a tier; an entry that is no list or no link stays empty, and an empty tier is an
-- index out of range.
unfoldable pub tier_link : Option Items → Result TorrentError Bytes
tier_link none = ok []
tier_link (some nil) = err panic_on_empty_tier
tier_link (some (cons (str link) xs)) = ok link
tier_link (some (cons _ xs)) = ok []

unfoldable pub tier_links : Items → Result TorrentError (List Bytes)
unfolding tier_link
tier_links nil = ok []
tier_links (cons x xs) = do
  link ← tier_link (as_list (some x))
  links ← tier_links xs
  ok (link ∷ links)

unfoldable pub announce_list_of : Option Items → Result TorrentError (List Bytes)
unfolding tier_links
announce_list_of none = ok []
announce_list_of (some xs) = tier_links xs

abbrev wrap_info : Result InfoError Info → Result TorrentError Info
wrap_info (err e) = err (info_error e)
wrap_info (ok i) = ok i

unfoldable pub new_torrent_file : (Bytes → Bytes) → Value → Result TorrentError TorrentFile
unfolding get new_info announce_list_of serialize_info
new_torrent_file sha1 v = do
  d ← or_fail not_a_map (as_dict (some v))
  announce ← or_fail bad_announce (as_str (get d (codes "announce")))
  links ← announce_list_of (as_list (get d (codes "announce-list")))
  info_map ← or_fail bad_info (as_dict (get d (codes "info")))
  info ← wrap_info (new_info info_map)
  ok (record {
    announce = announce;
    announce_list = links;
    info = record info { info_hash = sha1 (serialize_info info) };
  })

abbrev pub has_url : Bytes → List Bytes → Bool
has_url u [] = false
has_url u (v ∷ urls) = let later = has_url u urls in if bytes_eq v u then true else later

abbrev pub is_empty : Bytes → Bool
is_empty [] = true
is_empty (b ∷ bs) = false

-- The loop of `TrackerURLs`; the set `seen` is the list of the urls so far.
unfoldable pub collect_urls : List Bytes → List Bytes → List Bytes
collect_urls [] urls = urls
collect_urls (u ∷ more) urls =
    collect_urls more (if not (is_empty u) && not (has_url u urls) then urls ++ (u ∷ []) else urls)

unfoldable pub tracker_urls : TorrentFile → List Bytes
unfolding collect_urls
tracker_urls t = collect_urls t.announce_list (t.announce ∷ [])

-- No url occurs twice.
abbrev pub NoRepeats : List Bytes → Type 0
NoRepeats [] = Unit
NoRepeats (u ∷ urls) = (has_url u urls ≡ false) × NoRepeats urls

has_url-tail :
    (v u : Bytes) (urls : List Bytes)
    → has_url v urls ≡ false
    → bytes_eq u v ≡ false
    → has_url v (urls ++ (u ∷ [])) ≡ false
has_url-tail v u [] h ne = ground arith
has_url-tail v u (w ∷ urls) h ne = ground (arith, has_url-tail v u urls)

NoRepeats-tail :
    (u : Bytes) (urls : List Bytes)
    → NoRepeats urls
    → has_url u urls ≡ false
    → NoRepeats (urls ++ (u ∷ []))
NoRepeats-tail u [] h n = (refl, tt)
NoRepeats-tail u (v ∷ urls) (h, hs) n = elim (Bool-cases (bytes_eq v u)) [
  | inl e ↦ absurd (ground arith)
  | inr e ↦ (has_url-tail v u urls h (bytes_eq_flip v u e), NoRepeats-tail u urls hs (ground arith))
]

collect_urls-NoRepeats :
    (more urls : List Bytes) → NoRepeats urls → NoRepeats (collect_urls more urls)
unfolding collect_urls
collect_urls-NoRepeats [] urls h = h
collect_urls-NoRepeats (u ∷ more) urls h =
    elim (Bool-cases (not (is_empty u) && not (has_url u urls))) [
      | inl e ↦
          rw (e, collect_urls)
            (collect_urls-NoRepeats more (urls ++ (u ∷ []))
              (NoRepeats-tail u urls h (ground arith)))
      | inr e ↦ rw (e, collect_urls) (collect_urls-NoRepeats more urls h)
    ]

has_url-append :
    (u v : Bytes) (urls : List Bytes) → has_url u urls ≡ true → has_url u (urls ++ (v ∷ [])) ≡ true
has_url-append u v [] h = cc
has_url-append u v (w ∷ urls) h = ground (arith, has_url-append u v urls)

has_url-last : (u : Bytes) (urls : List Bytes) → has_url u (urls ++ (u ∷ [])) ≡ true
has_url-last u [] = rw (bytes_eq_refl u) refl
has_url-last u (w ∷ urls) = ground (arith, has_url-last u urls)

collect_urls-has_url :
    (u : Bytes) (more urls : List Bytes)
    → has_url u urls ≡ true
    → has_url u (collect_urls more urls) ≡ true
unfolding collect_urls
collect_urls-has_url u [] urls h = h
collect_urls-has_url u (v ∷ more) urls h =
    elim (Bool-cases (not (is_empty v) && not (has_url v urls))) [
      | inl e ↦ rw (e, collect_urls) (collect_urls-has_url u more _ (has_url-append u v urls h))
      | inr e ↦ rw (e, collect_urls) (collect_urls-has_url u more urls h)
    ]

-- After its round a link is there.
one_round :
    (u : Bytes) (urls : List Bytes)
    → is_empty u ≡ false
    → has_url u (if not (is_empty u) && not (has_url u urls) then urls ++ (u ∷ []) else urls) ≡ true
one_round u urls full = ground (arith, has_url-last u urls)

collect_urls-listed :
    (u : Bytes) (more urls : List Bytes)
    → is_empty u ≡ false
    → has_url u more ≡ true
    → has_url u (collect_urls more urls) ≡ true
unfolding collect_urls
collect_urls-listed u [] urls full h = cc
collect_urls-listed u (v ∷ more) urls full h = elim (Bool-cases (bytes_eq v u)) [
  | inl e ↦ collect_urls-has_url u more _ (
      subst
        (λ w.
          has_url u (if not (is_empty w) && not (has_url w urls) then urls ++ (w ∷ []) else urls)
          ≡ true)
        (sym (bytes_eq_sound v u e)) (one_round u urls full))
  | inr e ↦ collect_urls-listed u more _ full (ground arith)
]

-- The tracker URLs of a torrent have no repeats, and the announce URL and every link of the announce list are among them, empty links aside.
pub tracker_urls-NoRepeats :
    (t : TorrentFile)
    → NoRepeats (tracker_urls t)
      × (has_url t.announce (tracker_urls t) ≡ true)
      × ((u : Bytes)
          → is_empty u ≡ false
          → has_url u t.announce_list ≡ true
          → has_url u (tracker_urls t) ≡ true)
unfolding tracker_urls
tracker_urls-NoRepeats t = (
  collect_urls-NoRepeats t.announce_list (t.announce ∷ []) (refl, tt),
  collect_urls-has_url t.announce t.announce_list (t.announce ∷ [])
      (rw (bytes_eq_refl t.announce) refl),
  λ u. collect_urls-listed u t.announce_list (t.announce ∷ []),
)
