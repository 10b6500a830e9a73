-- ===== src/FakeIp/Store/Cycle.antt =====
-- The cursor of the allocator (transport/fakeip/store.go) as arithmetic, for IPv4 ranges of 1 to 32 bits.
use sfa_provider.Prelude.{
  ℕ, suc, ◌+◌, ◌-◌, ◌*◌, ◌/◌, ◌^◌, ◌<◌, ◌≤◌, true, false, zero, ◌≡◌, inl, inr, arith, Bool-cases,
  ap, ◌∙◌,
}
use native.Mathlib.Nat.{pow-suc, mul_assoc, add-zero, add-suc, div-lt_iff_lt-mul}
use sfa_provider.FakeIp.Addr.{ipv4, next, contains, same_block, Prefix}
use sfa_provider.FakeIp.Store.{first_address, next_address}

-- A range `m/bits` with the size of its block and the block's first value.
pub record Range4 (r : Prefix) (m bits : ℕ) : Type 0 where
  pub addr_eq : r.addr ≡ ipv4 m
  pub bits_eq : r.bits_plus_one ≡ suc bits
  pub bits_le : bits ≤ 32
  pub is_u32 : m < 2 ^ 32

abbrev pub size : ℕ → ℕ
size bits = 2 ^ (32 - bits)

-- The first value past the block.
abbrev pub limit : ℕ → ℕ → ℕ
limit m bits = m / size bits * size bits + size bits

block_step : (m n b : ℕ) → 0 < b → n / b ≡ m / b → m / b * b ≤ n
block_step m n b pos h = grind arith

block_lt : (m n b : ℕ) → 0 < b → n / b ≡ m / b → n < m / b * b + b
block_lt m n b pos h = grind arith

in_block : (m n b : ℕ) → 0 < b → m / b * b ≤ n → n < m / b * b + b → n / b ≡ m / b
in_block m n b pos lo hi = grind arith

pow_pos : (k : ℕ) → 0 < 2 ^ k
pow_pos zero = omega arith
pow_pos (suc k) = rw pow-suc (omega (arith, pow_pos k))

pow_add : (j k : ℕ) → 2 ^ (j + k) ≡ 2 ^ j * 2 ^ k
pow_add j zero = rw add-zero (omega arith)
pow_add j (suc k) = simp (add-suc, pow-suc, pow_add j k, mul_assoc)

size_divides : (bits : ℕ) → bits ≤ 32 → 2 ^ 32 ≡ size bits * 2 ^ bits
size_divides bits h = ap (λ (k : ℕ). 2 ^ k) {x = 32} (omega arith) ∙ pow_add (32 - bits) bits

block_limit : (m b k : ℕ) → 0 < b → m < b * k → m / b * b + b ≤ b * k
block_limit m b k pos h = grind (arith, div-lt_iff_lt-mul)

module _ {r : Prefix} {m bits : ℕ} (range : Range4 r m bits) where
  pub limit_le : limit m bits ≤ 2 ^ 32
  limit_le = rw (size_divides bits range.bits_le) (
      block_limit m (size bits) (2 ^ bits) (pow_pos (32 - bits))
        (rw (size_divides bits range.bits_le) at range.is_u32))

  pub contains_range :
      (n : ℕ) → m / size bits * size bits ≤ n → n < limit m bits → contains r (ipv4 n) ≡ true
  unfolding contains same_block
  contains_range n lo hi =
      ground (arith, in_block m n (size bits) (pow_pos (32 - bits)), range.addr_eq)

  pub contains_bounds :
      (n : ℕ) → contains r (ipv4 n) ≡ true → (m / size bits * size bits ≤ n) × (n < limit m bits)
  unfolding contains same_block
  contains_bounds n h = ground (
    arith,
    block_step m n (size bits) (pow_pos (32 - bits)),
    block_lt m n (size bits) (pow_pos (32 - bits)),
    range.addr_eq,
  )

  -- The addresses that the cursor visits: all of the block but those up to the second one.
  abbrev pub InCycle : ℕ → Type 0
  InCycle n = (m + 2 ≤ n) × (n < limit m bits)

  in_u32 : (n : ℕ) → n < limit m bits → n < 2 ^ 32
  in_u32 n h = omega (arith, limit_le)

  pub block_le : m / size bits * size bits ≤ m
  block_le = grind arith

  pub first4 : m + 2 < limit m bits → first_address r ≡ ipv4 (m + 2)
  unfolding first_address next
  first4 room = rw range.addr_eq (ground (arith, in_u32 (m + 2) room))

  pub next4_in : (c : ℕ) → m + 2 ≤ c → c + 1 < limit m bits → next_address r (ipv4 c) ≡ ipv4 (c + 1)
  unfolding next_address next
  next4_in c lo hi = ground (arith, in_u32 (c + 1) hi, block_le, contains_range (c + 1))

  pub next4_wrap :
      (c : ℕ) → m + 2 < limit m bits → c + 1 ≡ limit m bits → next_address r (ipv4 c) ≡ ipv4 (m + 2)
  unfolding next_address next
  next4_wrap c room hi = ground (arith, limit_le, contains_bounds (c + 1), first4 room)

  pub not_contains_past : (n : ℕ) → limit m bits ≤ n → contains r (ipv4 n) ≡ false
  not_contains_past n h = elim (Bool-cases (contains r (ipv4 n))) [
    | inl e ↦ absurd (omega (arith, contains_bounds n e))
    | inr e ↦ e
  ]

  -- A range without room past its second address keeps the cursor where it is.
  pub next4_stuck :
      limit m bits ≤ m + 2 → m + 2 < 2 ^ 32 → next_address r (ipv4 (m + 2)) ≡ ipv4 (m + 2)
  unfolding next_address next first_address
  next4_stuck tiny fits = ground (arith, not_contains_past (m + 3), range.addr_eq)
