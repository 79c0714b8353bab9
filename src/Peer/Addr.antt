-- ===== src/Peer/Addr.antt =====
-- The addresses of Go's net/netip, as the code compares them and takes them apart.
use jelly_torrent.Base.{
  ℕ, ◌≡◌, ap, Bool, true, false, ◌&&◌, Bytes, bytes_eq, bytes_eq_refl, bytes_eq_sound, ◌==◌, arith,
}
use jelly_torrent.Base.Result.{Result, ok, err, Panic, as4_of_ipv6}

-- An IPv4 address, one that is mapped into IPv6, or another IPv6 address, by its bytes. An IPv4 address
-- and the mapped one are two addresses.
pub data Addr : Type 0 where
  v4 : Bytes → Addr
  mapped : Bytes → Addr
  v6 : Bytes → Addr

pub record AddrPort : Type 0 where
  pub addr : Addr
  pub port : ℕ

-- `As4`, which panics on an IPv6 address.
abbrev pub as4 : Addr → Result Panic Bytes
as4 (v4 ip) = ok ip
as4 (mapped ip) = ok ip
as4 (v6 ip) = err as4_of_ipv6

unfoldable pub same_ip : Addr → Addr → Bool
unfolding bytes_eq
same_ip (v4 a) (v4 b) = bytes_eq a b
same_ip (mapped a) (mapped b) = bytes_eq a b
same_ip (v6 a) (v6 b) = bytes_eq a b
same_ip (v4 a) (mapped b) = false
same_ip (v4 a) (v6 b) = false
same_ip (mapped a) (v4 b) = false
same_ip (mapped a) (v6 b) = false
same_ip (v6 a) (v4 b) = false
same_ip (v6 a) (mapped b) = false

unfoldable pub same_addr : AddrPort → AddrPort → Bool
unfolding same_ip
same_addr a b = same_ip a.addr b.addr && (a.port == b.port)

same_ip_refl : (a : Addr) → same_ip a a ≡ true
unfolding same_ip
same_ip_refl (v4 a) = bytes_eq_refl a
same_ip_refl (mapped a) = bytes_eq_refl a
same_ip_refl (v6 a) = bytes_eq_refl a

pub same_addr_refl : (a : AddrPort) → same_addr a a ≡ true
unfolding same_addr
same_addr_refl a = ground (arith, same_ip_refl a.addr)

same_ip_sound : (a b : Addr) → same_ip a b ≡ true → a ≡ b
unfolding same_ip
same_ip_sound (v4 a) (v4 b) h = ap v4 (bytes_eq_sound a b h)
same_ip_sound (mapped a) (mapped b) h = ap mapped (bytes_eq_sound a b h)
same_ip_sound (v6 a) (v6 b) h = ap v6 (bytes_eq_sound a b h)
same_ip_sound (v4 a) (mapped b) h = cc
same_ip_sound (v4 a) (v6 b) h = cc
same_ip_sound (mapped a) (v4 b) h = cc
same_ip_sound (mapped a) (v6 b) h = cc
same_ip_sound (v6 a) (v4 b) h = cc
same_ip_sound (v6 a) (mapped b) h = cc

and-left : (a b : Bool) → (a && b) ≡ true → a ≡ true
and-left a b h = ground arith

pub same_addr_sound : (a b : AddrPort) → same_addr a b ≡ true → a ≡ b
unfolding same_addr
same_addr_sound a b h =
    let ip = same_ip_sound a.addr b.addr (and-left (same_ip a.addr b.addr) (a.port == b.port) h) in
    let port : a.port ≡ b.port = ground arith in λ i. record { addr = ip i; port = port i }
