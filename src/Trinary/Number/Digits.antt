-- ===== src/Trinary/Number/Digits.antt =====
-- The balanced digits to the base 27 that `int_to_trytes` writes.
use iota_go.Common.{
  ℕ, zero, suc, ◌+◌, ◌*◌, ◌/◌, ◌%◌, ◌^◌, ◌≤◌, ◌≡◌, refl, Bool, true, false, arith, ◌==◌,
  if◌then◌else◌, List, [], ◌∷◌, map, length, ℤ, pos, neg, ◌+ℤ◌, ◌-ℤ◌, scale, abs, ap, ◌∙◌, ints,
  parts_of_eq, ltb_ℤ, InInt64,
}
use iota_go.Consts.{ok}
use iota_go.Trinary.Tryte.Values.{InTryte, tryte_char, value_to_tryte}
use iota_go.Trinary.Number.{tryte_digit, int_to_trytes_loop, int_to_trytes}
use iota_go.Trinary.Number.Bounds.{abs_int64-eq-abs}

-- The digits of v, lowest first, as long as n; all are negated for a negative number.
unfoldable pub digits : ℕ → ℕ → Bool → List ℤ
digits zero v negative = []
digits (suc n) v negative =
    let d = pos ((v + 13) % 27) -ℤ pos 13 in
    (if negative then neg d else d) ∷ digits n ((v + 13) / 27) negative

unfoldable pub value_27 : List ℤ → ℤ
value_27 [] = pos 0
value_27 (d ∷ ds) = scale 27 (value_27 ds) +ℤ d

abbrev pub AllInTryte : List ℤ → Type 0
AllInTryte [] = Unit
AllInTryte (d ∷ ds) = InTryte d × AllInTryte ds

digit_eq :
    (v : ℕ) (negative : Bool)
    → (tryte_digit v negative
        ≡ (if negative then neg (pos (v % 27) -ℤ pos 13) else pos (v % 27) -ℤ pos 13))
      × InTryte (tryte_digit v negative)
unfolding tryte_digit
digit_eq v true = (ground arith, (ground arith, ground arith))
digit_eq v false = (ground arith, (ground arith, ground arith))

pub digits-InTryte : (n v : ℕ) (negative : Bool) → AllInTryte (digits n v negative)
unfolding digits neg ◌-ℤ◌
digits-InTryte zero v negative = tt
digits-InTryte (suc n) v negative = (ground arith, digits-InTryte n _ negative)

pub length-digits : (n v : ℕ) (negative : Bool) → length (digits n v negative) ≡ n
unfolding digits
length-digits zero v negative = refl
length-digits (suc n) v negative = ap suc (length-digits n _ negative)

-- (27^n - 1) / 2, the largest value of n trytes.
unfoldable pub max_27 : ℕ → ℕ
max_27 zero = 0
max_27 (suc n) = 27 * max_27 n + 13

with_sign : Bool → ℕ → ℤ
with_sign negative v = if negative then neg (pos v) else pos v

-- The digits of a number in range have it as their value.
value_27-digits :
    (n v : ℕ) (negative : Bool)
    → v ≤ max_27 n
    → value_27 (digits n v negative) ≡ with_sign negative v
unfolding digits value_27 max_27 with_sign
value_27-digits zero v true h = omega ints
value_27-digits zero v false h = omega ints
value_27-digits (suc n) v true h =
    omega (ints, parts_of_eq (value_27-digits n ((v + 13) / 27) true (omega arith)))
value_27-digits (suc n) v false h =
    omega (ints, parts_of_eq (value_27-digits n ((v + 13) / 27) false (omega arith)))

nine_digit : (tryte_char (neg (pos 13 -ℤ pos 13)) ≡ b'9') × (tryte_char (pos 13 -ℤ pos 13) ≡ b'9')
unfolding tryte_char neg ◌-ℤ◌
nine_digit = (refl, refl)

suc-ne-zero : (v : ℕ) → (suc v == 0) ≡ false
suc-ne-zero v = ground arith

raised : (v : ℕ) → v ≤ 2 ^ 63 → (v + 13) % 2 ^ 64 ≡ v + 13
raised v h = omega arith

-- The loop writes the characters of these digits.
int_to_trytes_loop-digits :
    (n v : ℕ) (negative : Bool)
    → v ≤ 2 ^ 63
    → int_to_trytes_loop n v negative ≡ ok (map tryte_char (digits n v negative))
unfolding int_to_trytes_loop digits
int_to_trytes_loop-digits zero v negative h = refl
int_to_trytes_loop-digits (suc n) zero true h =
    rw (int_to_trytes_loop-digits n 0 true h, nine_digit.0)
int_to_trytes_loop-digits (suc n) zero false h =
    rw (int_to_trytes_loop-digits n 0 false h, nine_digit.1)
int_to_trytes_loop-digits (suc n) (suc v) negative h =
    let (e, i) = digit_eq (suc v + 13) negative in
    rw
      (
        suc-ne-zero v,
        raised (suc v) h,
        value_to_tryte (tryte_digit (suc v + 13) negative) i,
        int_to_trytes_loop-digits n ((suc v + 13) / 27) negative (omega arith),
      )
      (ap (λ d. ok (tryte_char d ∷ map tryte_char (digits n ((suc v + 13) / 27) negative))) e)

pub int_to_trytes-digits :
    (v : ℤ) (n : ℕ)
    → InInt64 v
    → int_to_trytes v n ≡ ok (map tryte_char (digits n (abs v) (ltb_ℤ v (pos 0))))
unfolding int_to_trytes
int_to_trytes-digits v n h =
    rw (abs_int64-eq-abs v h) (int_to_trytes_loop-digits n (abs v) _ (ground arith))

sign_back : (v : ℤ) → with_sign (ltb_ℤ v (pos 0)) (abs v) ≡ v
unfolding with_sign neg
sign_back v = ground arith

-- They stand for the value, where it fits n trytes.
pub value_27_int :
    (v : ℤ) (n : ℕ) → abs v ≤ max_27 n → value_27 (digits n (abs v) (ltb_ℤ v (pos 0))) ≡ v
value_27_int v n h = value_27-digits n (abs v) (ltb_ℤ v (pos 0)) h ∙ sign_back v
