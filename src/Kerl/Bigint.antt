-- ===== src/Kerl/Bigint.antt =====
-- kerl/bigint/bigint.go: unsigned integers of many words, the least significant word first. Methods that
-- write to their receiver return it.
pub mod Sums
pub mod Bytes
pub mod Examples
use iota_go.Common.{
  ℕ, zero, suc, ◌+◌, ◌-◌, ◌*◌, ◌/◌, ◌%◌, ◌^◌, Bool, not, List, [], ◌∷◌, ◌++◌, ltb, ◌==◌,
  if◌then◌else◌, length, take, drop, ℤ, pos, negsuc,
}
use iota_go.Consts.{Error, Result, ok, err, panic, ◌>>=◌}

abbrev pub Bigint : Type 0
Bigint = List ℕ

-- math/bits.Add32: the sum and the carry.
unfoldable pub add32 : ℕ → ℕ → ℕ → ℕ × ℕ
add32 x y carry = ((x + y + carry) % 2 ^ 32, (x + y + carry) / 2 ^ 32)

-- math/bits.Sub32: the difference and the borrow.
unfoldable pub sub32 : ℕ → ℕ → ℕ → ℕ × ℕ
sub32 x y borrow =
    if ltb x (y + borrow) then (x + 2 ^ 32 - (y + borrow), 1) else (x - (y + borrow), 0)

unfoldable pub add_loop : ℕ → Bigint → Bigint → Bigint × ℕ
unfolding add32
add_loop carry [] ys = ([], carry)
add_loop carry (x ∷ xs) [] = (x ∷ xs, carry)
add_loop carry (x ∷ xs) (y ∷ ys) =
    let s = add32 x y carry in let rest = add_loop s.1 xs ys in (s.0 ∷ rest.0, rest.1)

-- Operands of different lengths panic.
unfoldable pub add : Bigint → Bigint → Result (Bigint × ℕ)
unfolding add_loop
add x y = if not (length x == length y) then panic else ok (add_loop 0 x y)

unfoldable pub sub_loop : ℕ → Bigint → Bigint → Bigint × ℕ
unfolding sub32
sub_loop borrow [] ys = ([], borrow)
sub_loop borrow (x ∷ xs) [] = (x ∷ xs, borrow)
sub_loop borrow (x ∷ xs) (y ∷ ys) =
    let d = sub32 x y borrow in let rest = sub_loop d.1 xs ys in (d.0 ∷ rest.0, rest.1)

unfoldable pub sub : Bigint → Bigint → Result (Bigint × ℕ)
unfolding sub_loop
sub x y = if not (length x == length y) then panic else ok (sub_loop 0 x y)

pub data Order : Type 0 where
  less equal greater : Order

-- The loop runs from the most significant word down, and ends at the first that differs.
unfoldable pub cmp_loop : Bigint → Bigint → Order
cmp_loop [] ys = Order.equal
cmp_loop (x ∷ xs) [] = Order.equal
cmp_loop (x ∷ xs) (y ∷ ys) = elim (cmp_loop xs ys) [
  | less ↦ Order.less
  | greater ↦ Order.greater
  | equal ↦ if ltb x y then Order.less else if ltb y x then Order.greater else Order.equal
]

abbrev pub sign : Order → ℤ
sign less = negsuc 0
sign equal = pos 0
sign greater = pos 1

unfoldable pub cmp : Bigint → Bigint → Result ℤ
unfolding cmp_loop
cmp x y = if not (length x == length y) then panic else ok (sign (cmp_loop x y))

unfoldable pub msb : Bigint → Result ℕ
msb [] = panic
msb (x ∷ []) = ok (x / 2 ^ 31)
msb (x ∷ y ∷ words) = msb (y ∷ words)

-- encoding/binary.BigEndian: Uint32 of four bytes, which panics on fewer, and PutUint32.
unfoldable pub uint32_of : List ℕ → Result ℕ
uint32_of (a ∷ b ∷ c ∷ d ∷ rest) = ok (a * 2 ^ 24 + b * 2 ^ 16 + c * 2 ^ 8 + d)
uint32_of [] = panic
uint32_of (a ∷ []) = panic
uint32_of (a ∷ b ∷ []) = panic
uint32_of (a ∷ b ∷ c ∷ []) = panic

unfoldable pub bytes_of : ℕ → List ℕ
bytes_of w = w / 2 ^ 24 % 256 ∷ w / 2 ^ 16 % 256 ∷ w / 2 ^ 8 % 256 ∷ w % 256 ∷ []

-- The first word is in the last four bytes.
unfoldable pub set_loop : ℕ → List ℕ → Result Bigint
unfolding uint32_of
set_loop zero buf = ok []
set_loop (suc n) buf = do
  w ← uint32_of (drop (4 * n) buf)
  words ← set_loop n (take (4 * n) buf)
  ok (w ∷ words)

unfoldable pub set_bytes : Bigint → List ℕ → Result Bigint
unfolding set_loop
set_bytes x buf = if not (length x * 4 == length buf) then panic else set_loop (length x) buf

unfoldable pub read_loop : Bigint → List ℕ
unfolding bytes_of
read_loop [] = []
read_loop (w ∷ words) = read_loop words ++ bytes_of w

-- What `out` holds beyond the bytes stays.
unfoldable pub read : Bigint → List ℕ → Result (List ℕ × ℕ)
unfolding read_loop
read x out =
    if ltb (length out) (length x * 4)
    then err Error.invalid_buffer_size
    else ok (read_loop x ++ drop (length x * 4) out, length x * 4)
