-- ===== src/Kerl/Bigint/Sums.antt =====
-- Sums, differences and comparisons of words are those of the numbers that they stand for.
use iota_go.Common.{
  ℕ, zero, suc, ◌+◌, ◌*◌, ◌/◌, ◌^◌, ◌≤◌, ◌<◌, ◌≡◌, refl, ap, [], ◌∷◌, ltb, ltb→lt, eq→==,
  if◌then◌else◌, length, arith, pos, negsuc, Bool-cases, inl, inr, ◌⊎◌,
}
use iota_go.Consts.{ok}
use iota_go.Kerl.Bigint.{
  Bigint, add32, sub32, add_loop, add, sub_loop, sub, Order, less, equal, greater, sign, cmp_loop,
  cmp,
}

unfoldable pub value : Bigint → ℕ
value [] = 0
value (w ∷ words) = w + 2 ^ 32 * value words

abbrev pub AreWords : Bigint → Type 0
AreWords [] = Unit
AreWords (w ∷ words) = (w < 2 ^ 32) × AreWords words

-- n words up.
unfoldable pub shift : ℕ → ℕ → ℕ
shift zero k = k
shift (suc n) k = 2 ^ 32 * shift n k

-- A result of n words, with the carry above them.
pub record IsResult (n : ℕ) (r : Bigint × ℕ) : Type 0 where
  pub size : length r.0 ≡ n
  pub words : AreWords r.0
  pub carry : r.1 ≤ 1

add_loop-IsResult :
    (c : ℕ) (x y : Bigint)
    → AreWords x
    → AreWords y
    → length x ≡ length y
    → c ≤ 1
    → IsResult (length x) (add_loop c x y)
      × (value (add_loop c x y).0 + shift (length x) (add_loop c x y).1 ≡ value x + value y + c)
unfolding add_loop add32 value shift
add_loop-IsResult c [] [] hx hy l hc = (record { size = refl; words = tt; carry = hc }, omega arith)
add_loop-IsResult c [] (y ∷ ys) hx hy l hc = absurd (omega arith)
add_loop-IsResult c (x ∷ xs) [] hx hy l hc = absurd (omega arith)
add_loop-IsResult c (x ∷ xs) (y ∷ ys) (hx, hxs) (hy, hys) l hc =
    let (r, sum) =
      add_loop-IsResult ((x + y + c) / 2 ^ 32) xs ys hxs hys (omega arith) (omega arith) in
    (record { size = ap suc r.size; words = (omega arith, r.words); carry = r.carry }, omega arith)

sub32_lem :
    (x y b : ℕ)
    → x < 2 ^ 32
    → y < 2 ^ 32
    → b ≤ 1
    → ((sub32 x y b).0 < 2 ^ 32)
      × ((sub32 x y b).1 ≤ 1)
      × ((sub32 x y b).0 + y + b ≡ x + 2 ^ 32 * (sub32 x y b).1)
unfolding sub32
sub32_lem x y b hx hy hb = elim (Bool-cases (ltb x (y + b))) [
  | inl under ↦
      let lt = ltb→lt x (y + b) under in rw (sub32, under) (omega arith, omega arith, omega arith)
  | inr over ↦
      let le : y + b ≤ x = ground arith in rw (sub32, over) (omega arith, omega arith, omega arith)
]

sub_loop-IsResult :
    (b : ℕ) (x y : Bigint)
    → AreWords x
    → AreWords y
    → length x ≡ length y
    → b ≤ 1
    → IsResult (length x) (sub_loop b x y)
      × (value (sub_loop b x y).0 + value y + b ≡ value x + shift (length x) (sub_loop b x y).1)
unfolding sub_loop value shift
sub_loop-IsResult b [] [] hx hy l hb = (record { size = refl; words = tt; carry = hb }, omega arith)
sub_loop-IsResult b [] (y ∷ ys) hx hy l hb = absurd (omega arith)
sub_loop-IsResult b (x ∷ xs) [] hx hy l hb = absurd (omega arith)
sub_loop-IsResult b (x ∷ xs) (y ∷ ys) (hx, hxs) (hy, hys) l hb =
    let (small, bit, eq) = sub32_lem x y b hx hy hb in
    let (r, sum) = sub_loop-IsResult (sub32 x y b).1 xs ys hxs hys (omega arith) bit in
    (record { size = ap suc r.size; words = (small, r.words); carry = r.carry }, omega arith)

-- The sum of two numbers of as many words: it has as many words, and with the carry, 0 or 1, above
-- them it stands for the sum of the numbers.
pub value-add :
    (x y : Bigint)
    → AreWords x
    → AreWords y
    → length x ≡ length y
    → (z : Bigint) × (carry : ℕ) × (add x y ≡ ok (z, carry))
      × IsResult (length x) (z, carry)
      × (value z + shift (length x) carry ≡ value x + value y)
unfolding add
value-add x y hx hy l =
    let (r, sum) = add_loop-IsResult 0 x y hx hy l (omega arith) in
    ((add_loop 0 x y).0, (add_loop 0 x y).1, rw (eq→== _ _ l) refl, r, omega arith)

-- The difference: it has as many words, and a borrow of 1 stands for what is missing.
pub value-sub :
    (x y : Bigint)
    → AreWords x
    → AreWords y
    → length x ≡ length y
    → (z : Bigint) × (borrow : ℕ) × (sub x y ≡ ok (z, borrow))
      × IsResult (length x) (z, borrow)
      × (value z + value y ≡ value x + shift (length x) borrow)
unfolding sub
value-sub x y hx hy l =
    let (r, sum) = sub_loop-IsResult 0 x y hx hy l (omega arith) in
    ((sub_loop 0 x y).0, (sub_loop 0 x y).1, rw (eq→== _ _ l) refl, r, omega arith)

-- What a comparison says of two numbers.
abbrev pub Compares : Order → ℕ → ℕ → Type 0
Compares less a b = a < b
Compares equal a b = a ≡ b
Compares greater a b = b < a

Compares-step :
    (o : Order) (x y a b : ℕ)
    → x < 2 ^ 32
    → y < 2 ^ 32
    → Compares o a b
    → Compares
        (elim o [
          | less ↦ Order.less
          | greater ↦ Order.greater
          | equal ↦ if ltb x y then Order.less else if ltb y x then Order.greater else Order.equal
        ])
        (x + 2 ^ 32 * a)
        (y + 2 ^ 32 * b)
Compares-step less x y a b hx hy h = omega arith
Compares-step greater x y a b hx hy h = omega arith
Compares-step equal x y a b hx hy h = elim (Bool-cases (ltb x y)) [
  | inl lt ↦ let below = ltb→lt x y lt in rw lt (omega arith)
  | inr not_lt ↦ elim (Bool-cases (ltb y x)) [
    | inl gt ↦ let above = ltb→lt y x gt in rw (not_lt, gt) (omega arith)
    | inr not_gt ↦ let same : x ≡ y = ground arith in rw (not_lt, not_gt) (omega arith)
  ]
]

cmp_loop-Compares :
    (x y : Bigint)
    → AreWords x
    → AreWords y
    → length x ≡ length y
    → Compares (cmp_loop x y) (value x) (value y)
unfolding cmp_loop value
cmp_loop-Compares [] [] hx hy l = refl
cmp_loop-Compares [] (y ∷ ys) hx hy l = absurd (omega arith)
cmp_loop-Compares (x ∷ xs) [] hx hy l = absurd (omega arith)
cmp_loop-Compares (x ∷ xs) (y ∷ ys) (hx, hxs) (hy, hys) l =
    Compares-step (cmp_loop xs ys) x y (value xs) (value ys) hx hy
      (cmp_loop-Compares xs ys hxs hys (omega arith))

-- A comparison of two numbers of as many words is -1, 0 or 1, as the first number is less than the second,
-- equal to it, or greater.
pub cmp-Compares :
    (x y : Bigint)
    → AreWords x
    → AreWords y
    → length x ≡ length y
    → ((cmp x y ≡ ok (negsuc 0)) × (value x < value y))
      ⊎ (((cmp x y ≡ ok (pos 0)) × (value x ≡ value y))
          ⊎ ((cmp x y ≡ ok (pos 1)) × (value y < value x)))
unfolding cmp
cmp-Compares x y hx hy l =
    rw (eq→== _ _ l) (by_order (cmp_loop x y) (cmp_loop-Compares x y hx hy l))
  where
    by_order :
        (o : Order)
        → Compares o (value x) (value y)
        → ((ok (sign o) ≡ ok (negsuc 0)) × (value x < value y))
          ⊎ (((ok (sign o) ≡ ok (pos 0)) × (value x ≡ value y))
              ⊎ ((ok (sign o) ≡ ok (pos 1)) × (value y < value x)))
    by_order less h = inl (refl, h)
    by_order equal h = inr (inl (refl, h))
    by_order greater h = inr (inr (refl, h))
