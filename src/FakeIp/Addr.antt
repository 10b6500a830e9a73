-- ===== src/FakeIp/Addr.antt =====
-- `net/netip` as far as the address pool uses it. An address is its family and its value; zones
-- do not occur here. `unset n` is an address of no family: the zero `Addr` is `unset 0`.
use sfa_provider.Prelude.{
  ℕ, ◌+◌, ◌-◌, ◌/◌, ◌%◌, ◌^◌, ◌≡◌, ◌↔◌, Bool, true, false, ◌&&◌, arith, Comparable, nat_eq, ltb,
  if◌then◌else◌,
}

pub data Addr : Type 0 where
  unset : ℕ → Addr
  ipv4 : ℕ → Addr
  ipv6 : ℕ → Addr

abbrev pub addr_beq : Addr → Addr → Bool
addr_beq (unset a) (unset b) = nat_eq a b
addr_beq (ipv4 a) (ipv4 b) = nat_eq a b
addr_beq (ipv6 a) (ipv6 b) = nat_eq a b
addr_beq _ _ = false

pub addr_beq_iff : (a b : Addr) → (addr_beq a b ≡ true) ↔ (a ≡ b)
addr_beq_iff (unset a) b = ground arith
addr_beq_iff (ipv4 a) b = ground arith
addr_beq_iff (ipv6 a) b = ground arith

instance abbrev pub addr_key : Comparable Addr
addr_key = record { equal = addr_beq; equal_iff = addr_beq_iff }

-- Addr.IsValid
abbrev pub is_valid : Addr → Bool
is_valid (unset n) = false
is_valid (ipv4 n) = true
is_valid (ipv6 n) = true

-- Addr.Is4
abbrev pub is4 : Addr → Bool
is4 (ipv4 n) = true
is4 (unset n) = false
is4 (ipv6 n) = false

-- Addr.Next: past the last address of the family comes the zero `Addr`.
unfoldable pub next : Addr → Addr
next (unset n) = unset ((n + 1) % 2 ^ 128)
next (ipv4 n) = let m = (n + 1) % 2 ^ 32 in if nat_eq m 0 then unset 0 else ipv4 m
next (ipv6 n) = let m = (n + 1) % 2 ^ 128 in if nat_eq m 0 then unset 0 else ipv6 m

-- `bits_plus_one` is 0 in the zero `Prefix`, which is invalid.
pub record Prefix : Type 0 where
  pub addr : Addr
  pub bits_plus_one : ℕ

abbrev pub prefix_valid : Prefix → Bool
prefix_valid p = ltb 0 p.bits_plus_one

-- Two values of `width` bits agree on the first `bits` bits.
unfoldable pub same_block : ℕ → ℕ → ℕ → ℕ → Bool
same_block width bits m n = nat_eq (m / 2 ^ (width - bits)) (n / 2 ^ (width - bits))

abbrev pub contains_in : Addr → ℕ → Addr → Bool
contains_in (ipv4 m) bits (ipv4 n) = same_block 32 bits m n
contains_in (ipv6 m) bits (ipv6 n) = same_block 128 bits m n
contains_in _ bits _ = false

-- Prefix.Contains
unfoldable pub contains : Prefix → Addr → Bool
unfolding same_block
contains p a = prefix_valid p && contains_in p.addr (p.bits_plus_one - 1) a
