-- ===== src/Trinary/Adder.antt =====
-- trinary/trinary.go: the trit adder. Trits are int8 values, and so are their sums.
pub mod Sums
use iota_go.Common.{
  ℕ, zero, suc, Bool, ◌&&◌, List, [], ◌∷◌, leb, ltb, if◌then◌else◌, is_empty, length, ℤ, pos,
  negsuc, ◌+ℤ◌, eqb_ℤ, int8, ltb_ℤ,
}
use iota_go.Trinary.Trits.{Trits}

unfoldable pub sum : ℤ → ℤ → ℤ
unfolding int8 ◌+ℤ◌
sum a b =
    let s = int8 (a +ℤ b) in
    if eqb_ℤ s (pos 2) then negsuc 0 else if eqb_ℤ s (negsuc 1) then pos 1 else s

unfoldable pub cons : ℤ → ℤ → ℤ
cons a b = if eqb_ℤ a b then a else pos 0

unfoldable pub any : ℤ → ℤ → ℤ
unfolding int8 ◌+ℤ◌
any a b =
    let s = int8 (a +ℤ b) in
    if ltb_ℤ (pos 0) s then pos 1 else if ltb_ℤ s (pos 0) then negsuc 0 else pos 0

-- The sum and the carry.
unfoldable pub full_add : ℤ → ℤ → ℤ → ℤ × ℤ
unfolding sum cons any
full_add a b c =
    let s_a = sum a b in let c_a = cons a b in let c_b = cons s_a c in (sum s_a c, any c_a c_b)

abbrev head_or_zero : Trits → ℤ
head_or_zero [] = pos 0
head_or_zero (t ∷ ts) = t

abbrev tail : Trits → Trits
tail [] = []
tail (t ∷ ts) = ts

-- The rounds of `AddTrits` left to make, and what they have not read of `a` and `b`. The carry of
-- the last round is dropped.
unfoldable pub add_loop : ℕ → Trits → Trits → ℤ → Trits
add_loop zero a b carry = []
add_loop (suc n) a b carry =
    let f = full_add (head_or_zero a) (head_or_zero b) carry in
    f.0 ∷ add_loop n (tail a) (tail b) f.1

abbrev pub max_len : Trits → Trits → ℕ
max_len a b = if ltb (length a) (length b) then length b else length a

unfoldable pub add_trits : Trits → Trits → Trits
add_trits a b = if is_empty a && is_empty b then pos 0 ∷ [] else add_loop (max_len a b) a b (pos 0)
