-- ===== src/Trinary/Adder/Sums.antt =====
-- The adder adds: digit by digit, with the carry that it drops written out.
use iota_go.Common.{
  ℕ, zero, suc, ◌+◌, ◌*◌, ◌≤◌, ◌<◌, ◌≡◌, refl, Bool, true, ◌&&◌, [], ◌∷◌, arith, length, ℤ, pos,
  ◌+ℤ◌, scale, eqb_ℤ, eqb_ℤ→eq, +ℤ_parts, scale_parts, ints, ap, parts_of_eq, pos_part, neg_part,
}
use native.Mathlib.Decide.{dec_lt}
use iota_go.Trinary.Trits.{Trits, valid_trit}
use iota_go.Trinary.Tryte.Groups.{AreTrits, all_groups, all_groups_sound}
use iota_go.Trinary.Convert.RoundTrip.{AllTrits}
use iota_go.Trinary.Value.{value, max_value, Within, value-Within, shift}
use iota_go.Trinary.Adder.{full_add, add_loop, add_trits, max_len, head_or_zero, tail}

abbrev add_test : ℤ → ℤ → ℤ → Bool
add_test a b c =
    let f = full_add a b c in
    valid_trit f.0 && valid_trit f.1 && eqb_ℤ (scale 3 f.1 +ℤ f.0) (a +ℤ b +ℤ c)

add_table : all_groups add_test ≡ true
unfolding all_groups full_add scale valid_trit
add_table = refl

module _ (a b c : ℤ) (t : AreTrits a b c) where
  add_facts : add_test a b c ≡ true
  add_facts = all_groups_sound add_test add_table a b c t

  -- One position: the sum and the carry are trits, and they stand for a + b + c.
  pub full_add-AreTrits :
      (valid_trit (full_add a b c).0 ≡ true) × (valid_trit (full_add a b c).1 ≡ true)
  full_add-AreTrits = (ground (arith, add_facts), ground (arith, add_facts))

  pub full_add_sum : scale 3 (full_add a b c).1 +ℤ (full_add a b c).0 ≡ a +ℤ b +ℤ c
  full_add_sum = eqb_ℤ→eq _ _ (ground (arith, add_facts))

-- The carry that `add_loop` drops at its end.
carry_out : ℕ → Trits → Trits → ℤ → ℤ
carry_out zero a b carry = carry
carry_out (suc n) a b carry =
    carry_out n (tail a) (tail b) (full_add (head_or_zero a) (head_or_zero b) carry).1

head-IsTrit : (a : Trits) → AllTrits a → valid_trit (head_or_zero a) ≡ true
head-IsTrit [] h = unfold valid_trit in refl
head-IsTrit (t ∷ ts) (ht, hs) = ht

tail-AllTrits : (a : Trits) → AllTrits a → AllTrits (tail a)
tail-AllTrits [] h = tt
tail-AllTrits (t ∷ ts) (ht, hs) = hs

heads :
    (a b : Trits) (c : ℤ)
    → AllTrits a
    → AllTrits b
    → valid_trit c ≡ true
    → AreTrits (head_or_zero a) (head_or_zero b) c
heads a b c ha hb hc = record { first = head-IsTrit a ha; second = head-IsTrit b hb; third = hc }

value_split : (a : Trits) → value a ≡ scale 3 (value (tail a)) +ℤ head_or_zero a
unfolding value scale ◌+ℤ◌
value_split [] = refl
value_split (t ∷ ts) = refl

carry-IsTrit :
    (n : ℕ) (a b : Trits) (c : ℤ)
    → AllTrits a
    → AllTrits b
    → valid_trit c ≡ true
    → valid_trit (carry_out n a b c) ≡ true
unfolding carry_out
carry-IsTrit zero a b c ha hb hc = hc
carry-IsTrit (suc n) a b c ha hb hc =
    carry-IsTrit n (tail a) (tail b) _ (tail-AllTrits a ha) (tail-AllTrits b hb)
      (full_add-AreTrits _ _ c (heads a b c ha hb hc)).1

add_loop-AllTrits :
    (n : ℕ) (a b : Trits) (c : ℤ)
    → AllTrits a
    → AllTrits b
    → valid_trit c ≡ true
    → AllTrits (add_loop n a b c)
unfolding add_loop
add_loop-AllTrits zero a b c ha hb hc = tt
add_loop-AllTrits (suc n) a b c ha hb hc =
    let (s, k) = full_add-AreTrits (head_or_zero a) (head_or_zero b) c (heads a b c ha hb hc) in
    (s, add_loop-AllTrits n (tail a) (tail b) _ (tail-AllTrits a ha) (tail-AllTrits b hb) k)

length-add_loop : (n : ℕ) (a b : Trits) (c : ℤ) → length (add_loop n a b c) ≡ n
unfolding add_loop
length-add_loop zero a b c = refl
length-add_loop (suc n) a b c = ap suc (length-add_loop n _ _ _)

short-nil : (a : Trits) → length a ≤ 0 → a ≡ []
short-nil [] h = refl
short-nil (t ∷ ts) h = absurd (omega arith)

length-tail : (a : Trits) (n : ℕ) → length a ≤ suc n → length (tail a) ≤ n
length-tail [] n h = omega arith
length-tail (t ∷ ts) n h = omega arith

add_loop-value :
    (n : ℕ) (a b : Trits) (c : ℤ)
    → AllTrits a
    → AllTrits b
    → valid_trit c ≡ true
    → length a ≤ n
    → length b ≤ n
    → value (add_loop n a b c) +ℤ shift n (carry_out n a b c) ≡ value a +ℤ value b +ℤ c
unfolding add_loop carry_out value shift
add_loop-value zero a b c ha hb hc la lb = rw (short-nil a la, short-nil b lb) (omega ints)
add_loop-value (suc n) a b c ha hb hc la lb =
    let (s, k) = full_add-AreTrits _ _ c (heads a b c ha hb hc) in
    let rest =
      add_loop-value n (tail a) (tail b) _ (tail-AllTrits a ha) (tail-AllTrits b hb) k
        (length-tail a n la) (length-tail b n lb) in
    rw (value_split a, value_split b)
      (omega (ints, parts_of_eq rest, parts_of_eq (full_add_sum _ _ c (heads a b c ha hb hc))))

zero-IsTrit : valid_trit (pos 0) ≡ true
unfolding valid_trit
zero-IsTrit = refl

max_len_bounds : (a b : Trits) → (length a ≤ max_len a b) × (length b ≤ max_len a b)
max_len_bounds a b = ground arith

add_loop_lem :
    (a b : Trits)
    → AllTrits a
    → AllTrits b
    → (carry : ℤ) × (valid_trit carry ≡ true)
      × (value (add_loop (max_len a b) a b (pos 0)) +ℤ shift (max_len a b) carry
          ≡ value a +ℤ value b)
      × AllTrits (add_loop (max_len a b) a b (pos 0))
add_loop_lem a b ha hb =
    let n = max_len a b in
    let (la, lb) = max_len_bounds a b in
    let e = add_loop-value n a b (pos 0) ha hb zero-IsTrit la lb in
    (
      carry_out n a b (pos 0),
      carry-IsTrit n a b (pos 0) ha hb zero-IsTrit,
      omega (ints, parts_of_eq e),
      add_loop-AllTrits n a b (pos 0) ha hb zero-IsTrit,
    )

-- `add_trits` on trits: with some carry in the place above them, the trits of the result stand for
-- the sum of the two values. They are all valid.
pub value-add_trits :
    (a b : Trits)
    → AllTrits a
    → AllTrits b
    → (carry : ℤ) × (valid_trit carry ≡ true)
      × (value (add_trits a b) +ℤ shift (length (add_trits a b)) carry ≡ value a +ℤ value b)
      × AllTrits (add_trits a b)
unfolding add_trits
value-add_trits [] [] ha hb =
    unfold value shift scale ◌+ℤ◌ in (pos 0, zero-IsTrit, refl, (zero-IsTrit, tt))
value-add_trits [] (t ∷ ts) ha hb = rw length-add_loop (add_loop_lem [] (t ∷ ts) ha hb)
value-add_trits (t ∷ ts) b ha hb = rw length-add_loop (add_loop_lem (t ∷ ts) b ha hb)

-- 3^n is 2 * max_value n + 1: a carry is worth more than the width of n trits.
shift_above :
    (n : ℕ) (c : ℤ)
    → neg_part c < pos_part c
    → 2 * max_value n + 1 + neg_part (shift n c) ≤ pos_part (shift n c)
unfolding max_value shift
shift_above zero c h = omega arith
shift_above (suc n) c h = omega (arith, shift_above n c h, scale_parts 3 (shift n c))

shift_below :
    (n : ℕ) (c : ℤ)
    → pos_part c < neg_part c
    → 2 * max_value n + 1 + pos_part (shift n c) ≤ neg_part (shift n c)
unfolding max_value shift
shift_below zero c h = omega arith
shift_below (suc n) c h = omega (arith, shift_below n c h, scale_parts 3 (shift n c))

carry-nil :
    (n : ℕ) (x c : ℤ) → Within (max_value n) x → Within (max_value n) (x +ℤ shift n c) → c ≡ pos 0
carry-nil n x c hx hs = elim (dec_lt (neg_part c) (pos_part c)) [
  | yes up ↦ absurd (omega (arith, shift_above n c up, +ℤ_parts x (shift n c)))
  | no level ↦ elim (dec_lt (pos_part c) (neg_part c)) [
    | yes down ↦ absurd (omega (arith, shift_below n c down, +ℤ_parts x (shift n c)))
    | no equal ↦ omega ints
  ]
]

pub shift-zero : (n : ℕ) → shift n (pos 0) ≡ pos 0
unfolding shift
shift-zero zero = refl
shift-zero (suc n) = rw (shift-zero n) (omega ints)

-- Where the sum fits the trits of the result, no carry is lost.
pub value-add_trits_exact :
    (a b : Trits)
    → AllTrits a
    → AllTrits b
    → Within (max_value (length (add_trits a b))) (value a +ℤ value b)
    → value (add_trits a b) ≡ value a +ℤ value b
value-add_trits_exact a b ha hb fits =
    let (c, hc, sum, all) = value-add_trits a b ha hb in
    let n = length (add_trits a b) in
    let nil : c ≡ pos 0 =
      carry-nil n (value (add_trits a b)) c (value-Within _ all) (rw sum fits) in
    omega (ints, parts_of_eq (rw (nil, shift-zero) at sum))
