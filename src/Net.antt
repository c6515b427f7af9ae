-- ===== src/Net.antt =====
-- Network addresses, and internal/netkey/netkey.go: the key that a source address is charged
-- under. An address is its bytes, as in net.IP. The texts that the standard library renders are
-- parameters, in `Texts`.
pub mod Keys
pub mod Tests
use buddynet.Support.{ℕ, ◌==◌, List, [], ◌∷◌, Option, none, some, Text, length, take, if◌then◌else◌}
use buddynet.Support.{Bool, true, false, ◌&&◌, text_dec, holds, ◌||◌, drop}

-- *net.UDPAddr
pub record Addr : Type 0 where
  pub ip : Text
  pub port : ℕ

-- netip.Prefix
pub record Prefix : Type 0 where
  pub base : Text
  pub bits : ℕ

pub record Texts : Type 0 where
  -- (*net.UDPAddr).String
  pub addr_string : Addr → Text
  -- net.IP.String, for a slice that is no address
  pub ip_string : Text → Text
  -- netip.Addr.String
  pub netip_string : Text → Text
  -- netip.Prefix.String, of the masked address and the length
  pub prefix_string : Text → ℕ → Text
  -- netip.Prefix.Contains, of an unmapped address
  pub contains : Prefix → Text → Bool

-- netip.AddrFromSlice: 4 or 16 bytes.
unfoldable pub addr_from_slice : Text → Option Text
addr_from_slice ip = if length ip == 4 || length ip == 16 then some ip else none

abbrev pub mapped_prefix : Text
mapped_prefix = 0 ∷ 0 ∷ 0 ∷ 0 ∷ 0 ∷ 0 ∷ 0 ∷ 0 ∷ 0 ∷ 0 ∷ 255 ∷ 255 ∷ []

-- netip.Addr.Unmap: ::ffff:a.b.c.d is a.b.c.d.
unfoldable pub unmap : Text → Text
unmap a = if length a == 16 && holds (text_dec (take 12 a) mapped_prefix) then drop 12 a else a

abbrev pub v6_bits : ℕ
v6_bits = 64

-- `addr.Prefix(V6Bits)` keeps the first eight bytes and clears the rest.
unfoldable pub from_netip_addr : Texts → Text → Text
unfolding unmap
from_netip_addr texts addr =
    let a = unmap addr in
    if length a == 16 then texts.prefix_string (take 8 a) v6_bits else texts.netip_string a

unfoldable pub from_ip : Texts → Text → Text
unfolding addr_from_slice from_netip_addr
from_ip texts ip = elim (addr_from_slice ip) [
  | none ↦ texts.ip_string ip
  | some addr ↦ from_netip_addr texts addr
]

-- The loop of `cidrAllowed`, over the prefixes.
unfoldable pub any_contains : Texts → List Prefix → Text → Bool
any_contains texts [] a = false
any_contains texts (p ∷ allowed) a =
    if texts.contains p a then true else any_contains texts allowed a

-- `cidrAllowed` of the relay and of the handshake server: no list allows every source.
unfoldable pub cidr_allowed : Texts → List Prefix → Text → Bool
unfolding addr_from_slice unmap
cidr_allowed texts [] ip = true
cidr_allowed texts (p ∷ allowed) ip = elim (addr_from_slice ip) [
  | none ↦ false
  | some a ↦ any_contains texts (p ∷ allowed) (unmap a)
]
