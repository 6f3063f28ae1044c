-- ===== src/Common/Word.antt =====
-- Go's fixed-width integers: a signed value is an integer, and a conversion wraps it around.
use Prim.Native.Nat.{ℕ, ◌+◌, ◌-◌, ◌*◌, ◌%◌, ◌^◌, ◌≤◌, ◌<◌}
use mathlib.Core.Path.{◌≡◌}
use native.Mathlib.Omega.{arith}
use iota_go.Common.Tests.{ltb, if◌then◌else◌}
use iota_go.Common.Int.{ℤ, pos, negsuc, pos_part, neg_part, ◌+ℤ◌, scale, +ℤ_parts, scale_parts}

-- z modulo m, from 0 to m - 1: the bit pattern of z in a word of m values.
abbrev pub mod_ℤ : ℤ → ℕ → ℕ
mod_ℤ (pos n) m = n % m
mod_ℤ (negsuc n) m = m - 1 - n % m

-- int8(z)
unfoldable pub int8 : ℤ → ℤ
int8 z = let w = mod_ℤ z 256 in if ltb w 128 then pos w else negsuc (255 - w)

-- int64(z)
unfoldable pub int64 : ℤ → ℤ
int64 z = let w = mod_ℤ z (2 ^ 64) in if ltb w (2 ^ 63) then pos w else negsuc (2 ^ 64 - 1 - w)

-- byte(z) and uint64(z)
unfoldable pub byte : ℤ → ℕ
byte z = mod_ℤ z 256

unfoldable pub uint64 : ℤ → ℕ
uint64 z = mod_ℤ z (2 ^ 64)

abbrev pub InInt8 : ℤ → Type 0
InInt8 z = (pos_part z < 128) × (neg_part z ≤ 128)

abbrev pub InInt64 : ℤ → Type 0
InInt64 z = (pos_part z < 2 ^ 63) × (neg_part z ≤ 2 ^ 63)

pub int8_id : (z : ℤ) → InInt8 z → int8 z ≡ z
unfolding int8
int8_id z h = ground arith

pub int64_id : (z : ℤ) → InInt64 z → int64 z ≡ z
unfolding int64
int64_id z h = ground arith

pub int64-InInt64 : (z : ℤ) → InInt64 (int64 z)
unfolding int64
int64-InInt64 z = ground arith

-- The bit pattern in one linear form, which reads a sum or a multiple through the parts.
mod_parts64 : (z : ℤ) → mod_ℤ z (2 ^ 64) ≡ (pos_part z + (2 ^ 64 - 1) * neg_part z) % 2 ^ 64
mod_parts64 (pos n) = omega arith
mod_parts64 (negsuc n) = omega arith

int64_cong : (a b : ℤ) → mod_ℤ a (2 ^ 64) ≡ mod_ℤ b (2 ^ 64) → int64 a ≡ int64 b
unfolding int64
int64_cong a b h = rw h

mod-int64 : (z : ℤ) → mod_ℤ (int64 z) (2 ^ 64) ≡ mod_ℤ z (2 ^ 64)
unfolding int64
mod-int64 z = ground arith

-- In a chain of sums and products by numbers it is enough to wrap once, at the end.
pub int64_add : (z t : ℤ) → int64 (int64 z +ℤ t) ≡ int64 (z +ℤ t)
int64_add z t = int64_cong _ _ (
    omega (
      arith,
      mod_parts64 (int64 z +ℤ t),
      mod_parts64 (z +ℤ t),
      mod_parts64 (int64 z),
      mod_parts64 z,
      mod-int64 z,
      +ℤ_parts (int64 z) t,
      +ℤ_parts z t,
    ))

pub int64_three : (z : ℤ) → int64 (scale 3 (int64 z)) ≡ int64 (scale 3 z)
int64_three z = int64_cong _ _ (
    omega (
      arith,
      mod_parts64 (scale 3 (int64 z)),
      mod_parts64 (scale 3 z),
      mod_parts64 (int64 z),
      mod_parts64 z,
      mod-int64 z,
      scale_parts 3 (int64 z),
      scale_parts 3 z,
    ))

pub int64_twenty_seven : (z : ℤ) → int64 (scale 27 (int64 z)) ≡ int64 (scale 27 z)
int64_twenty_seven z = int64_cong _ _ (
    omega (
      arith,
      mod_parts64 (scale 27 (int64 z)),
      mod_parts64 (scale 27 z),
      mod_parts64 (int64 z),
      mod_parts64 z,
      mod-int64 z,
      scale_parts 27 (int64 z),
      scale_parts 27 z,
    ))
