-- ===== src/Peer/Wire/Laws.antt =====
-- internal/peer/peer.go: what is written as a message is read as that message.
use jelly_torrent.Base.{
  ℕ, suc, ◌+◌, ◌%◌, ◌^◌, ◌<◌, ◌≡◌, refl, sym, ap, ◌∙◌, ◌∷◌, ◌++◌, [], Bytes, arith, length, take,
  le→leb, not_ltb_of_le, ==_of_ne, length-append, take-append, take-all, drop-append,
}
use jelly_torrent.Base.Result.{ok}
use jelly_torrent.Base.Binary.{put_u32, get_u32-put_u32}
use jelly_torrent.Peer.Wire.{
  Peer, and_then, conn_write, write_left, read_full, frame, send_total, send_only, read_body,
  read_message,
}

-- A payload that a uint32 can count.
abbrev pub IsShort : Bytes → Type 0
IsShort payload = length payload + 5 < 2 ^ 32

pub send_only_lem :
    (kind : ℕ) (payload : Bytes) (p : Peer)
    → IsShort payload
    → send_only kind payload p ≡ conn_write (frame kind payload) p
unfolding send_only send_total frame put_u32
send_only_lem kind payload p short =
    let total : (4 + (length payload + 1) % 2 ^ 32) % 2 ^ 32 ≡ 5 + length payload = omega arith in
    let len : 5 + length payload ≡ length (frame kind payload) = omega arith in
    rw
      (
        total,
        not_ltb_of_le (5 + length payload) 4 (omega arith),
        ==_of_ne (5 + length payload) 4 (omega arith),
      )
      (ap (λ bs. conn_write bs p)
        (ap (λ n. take n (frame kind payload)) len ∙ take-all (frame kind payload)))

-- The bytes that are read lie at the front of the input.
pub read_full-append :
    (bs rest : Bytes) (p : Peer)
    → read_full (length bs) (record p { input = bs ++ rest }) ≡ (ok bs, record p { input = rest })
unfolding read_full
read_full-append bs rest p =
    rw
      (
        le→leb (length bs) (length (bs ++ rest)) (omega (arith, length-append bs rest)),
        take-append bs rest,
        drop-append bs rest,
      )
      refl

pub read_message-frame :
    (kind : ℕ) (payload rest : Bytes) (p : Peer)
    → IsShort payload
    → read_message (record p { input = frame kind payload ++ rest }) ≡ (
      ok (record { len = suc (length payload); kind = kind; payload = payload }),
      record p { input = rest },
    )
unfolding read_message frame put_u32 read_body and_then
read_message-frame kind payload rest p short =
    let n = suc (length payload) in
    rw
      (
        read_full-append (put_u32 n) (kind ∷ payload ++ rest) p,
        get_u32-put_u32 n [] (omega arith),
        read_full-append (kind ∷ payload) rest p,
      )
      refl

-- The message at the front of the input is read.
pub read_message-front :
    (kind : ℕ) (payload rest : Bytes) (p : Peer)
    → IsShort payload
    → p.input ≡ frame kind payload ++ rest
    → read_message p ≡ (
      ok (record { len = suc (length payload); kind = kind; payload = payload }),
      record p { input = rest },
    )
read_message-front kind payload rest p short h =
    ap (λ bs. read_message (record p { input = bs })) h
    ∙ read_message-frame kind payload rest p short

-- So many bytes at the front of the input are read.
pub read_full-front :
    (n : ℕ) (bs rest : Bytes) (p : Peer)
    → length bs ≡ n
    → p.input ≡ bs ++ rest
    → read_full n p ≡ (ok bs, record p { input = rest })
read_full-front n bs rest p len h =
    ap (λ k. read_full k p) (sym len)
    ∙ ap (λ xs. read_full (length bs) (record p { input = xs })) h
    ∙ read_full-append bs rest p

-- A write that the connection takes.
pub conn_write-writes :
    (n : ℕ) (bs : Bytes) (p : Peer)
    → p.writes_left ≡ suc n
    → conn_write bs p ≡ (ok tt, record p { sent = p.sent ++ (bs ∷ []); writes_left = n })
unfolding conn_write write_left
conn_write-writes n bs p e = ap (λ k. write_left k bs p) e

-- A keep-alive at the front of the input is read.
pub read_message-keep_alive :
    (rest : Bytes) (p : Peer)
    → p.input ≡ put_u32 0 ++ rest
    → read_message p ≡ (ok (record { len = 0; kind = 0; payload = [] }), record p { input = rest })
unfolding read_message put_u32 read_body and_then
read_message-keep_alive rest p h =
    rw (read_full-front 4 (put_u32 0) rest p refl h, get_u32-put_u32 0 [] (omega arith)) refl
