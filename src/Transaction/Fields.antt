-- ===== src/Transaction/Fields.antt =====
-- The fields of a transaction: trytes of a fixed length, and integers in a fixed number of trits.
use iota_go.Common.{
  ℕ, zero, suc, ◌-◌, ◌≤◌, ◌<◌, ◌≡◌, refl, ap, ◌∙◌, inl, inr, true, false, [], ◌∷◌, ◌++◌, length,
  replicate, take, drop, field, arith, ℤ, pos, abs, InInt64, int64, int64_id, ◌==◌, eq→==,
  Bool-cases, leb, leb→le, scale, ◌+ℤ◌,
}
use mathlib.Core.List.{append-nil}
use iota_go.Consts.{ok, err, panic}
use iota_go.Trinary.Trits.{Trits, valid_trit}
use iota_go.Trinary.Tryte.{is_valid_tryte}
use iota_go.Trinary.Convert.{Trytes}
use iota_go.Trinary.Convert.RoundTrip.{AreTrytes, AllTrits, trits_of, must_trytes_to_trits_lem}
use iota_go.Trinary.Value.{value, max_value}
use iota_go.Trinary.Number.{int_to_trits, trits_to_int, min_trits}
use iota_go.Trinary.Number.Bounds.{min_trits-IsLeast, max_value_mono}
use iota_go.Trinary.Number.RoundTrip.{Represents, trits_to_int-int_to_trits, trits_to_int-value}
use iota_go.Guards.{all_trytes, is_trytes_of_exact_length}
use iota_go.Transaction.{field_trits}

-- n trytes, and an integer of n trits at most.
pub record IsText (n : ℕ) (s : Trytes) : Type 0 where
  pub valid : AreTrytes s
  pub size : length s ≡ n

pub record IsNumber (n : ℕ) (v : ℤ) : Type 0 where
  pub word : InInt64 v
  pub fits : abs v ≤ max_value n

AreTrytes-all_trytes : (ts : Trytes) → AreTrytes ts → all_trytes ts ≡ true
unfolding all_trytes is_valid_tryte
AreTrytes-all_trytes [] h = refl
AreTrytes-all_trytes (t ∷ ts) (ht, hs) = ground (arith, AreTrytes-all_trytes ts hs)

all_trytes-AreTrytes : (ts : Trytes) → all_trytes ts ≡ true → AreTrytes ts
unfolding all_trytes is_valid_tryte
all_trytes-AreTrytes [] h = tt
all_trytes-AreTrytes (t ∷ ts) h = (ground arith, all_trytes-AreTrytes ts (ground arith))

pub exact_length-IsText : (s : Trytes) (n : ℕ) → is_trytes_of_exact_length s n ≡ true → IsText n s
unfolding is_trytes_of_exact_length
exact_length-IsText s n h = record {
  valid = all_trytes-AreTrytes s (ground arith);
  size = ground arith;
}

pub IsText-exact_length :
    (s : Trytes) (n : ℕ) → 1 ≤ n → IsText n s → is_trytes_of_exact_length s n ≡ true
unfolding is_trytes_of_exact_length
IsText-exact_length s n some_trytes text =
    let e : (length s == n) ≡ true = eq→== _ _ (text.size) in
    let p : (length s == 0) ≡ false = ground (arith, text.size) in
    rw (e, p) (AreTrytes-all_trytes s (text.valid))

pub field_trits_lem : (s : Trytes) (n : ℕ) → 1 ≤ n → IsText n s → field_trits s n ≡ ok (trits_of s)
unfolding field_trits
field_trits_lem s n some_trytes text =
    rw (IsText-exact_length s n some_trytes text) (must_trytes_to_trits_lem s (text.valid))

-- The trits of a number: those that `int_to_trits` gives.
unfoldable pub number_trits : ℤ → Trits
number_trits v = elim (int_to_trits v) [ panic ↦ [] | err e ↦ [] | ok ts ↦ ts ]

pub int_to_trits_lem : (v : ℤ) → InInt64 v → int_to_trits v ≡ ok (number_trits v)
unfolding number_trits
int_to_trits_lem v h = let (ts, e, r) = trits_to_int-int_to_trits v h in rw (number_trits, e) refl

pub Represents-number_trits : (v : ℤ) → InInt64 v → Represents v (number_trits v)
unfolding number_trits
Represents-number_trits v h =
    let (ts, e, r) = trits_to_int-int_to_trits v h in rw (number_trits, e) r

pub length-number_trits : (n : ℕ) (v : ℤ) → 1 ≤ n → IsNumber n v → length (number_trits v) ≤ n
length-number_trits n v some_trits number =
    let size = (Represents-number_trits v (number.word)).size in
    elim ((min_trits-IsLeast v (number.word)).least) [
      | inl one ↦ omega (arith, size, one, some_trits)
      | inr least ↦ elim (Bool-cases (leb (min_trits v) n)) [
        | inl le ↦ omega (arith, size, leb→le _ _ le)
        | inr more ↦ too_many (ground (arith, more)) least
      ]
    ]
  where
    too_many : {A : Type 0} → n ≤ min_trits v - 1 → max_value (min_trits v - 1) < abs v → A
    too_many le least =
        absurd (omega (arith, max_value_mono n (min_trits v - 1) le, number.fits, least))

-- Zeros at the end count for nothing.
value-zeros : (k : ℕ) → value (replicate k (pos 0)) ≡ pos 0
unfolding value ◌+ℤ◌ scale
value-zeros zero = refl
value-zeros (suc k) = rw (value-zeros k) refl

value-pad : (ts : Trits) (k : ℕ) → value (ts ++ replicate k (pos 0)) ≡ value ts
unfolding value
value-pad [] k = value-zeros k
value-pad (t ∷ ts) k = rw (value-pad ts k) refl

pub value-field : (n : ℕ) (v : ℤ) → IsNumber n v → value (field (pos 0) n (number_trits v)) ≡ v
unfolding field
value-field n v number =
    value-pad (number_trits v) _ ∙ (Represents-number_trits v (number.word)).worth

pub trits_to_int-field :
    (n : ℕ) (v : ℤ) → IsNumber n v → trits_to_int (field (pos 0) n (number_trits v)) ≡ v
trits_to_int-field n v number =
    trits_to_int-value _ ∙ ap int64 (value-field n v number) ∙ int64_id v (number.word)

AllTrits-zeros : (k : ℕ) → AllTrits (replicate k (pos 0))
unfolding valid_trit
AllTrits-zeros zero = tt
AllTrits-zeros (suc k) = (refl, AllTrits-zeros k)

pub AllTrits-append : (xs ys : Trits) → AllTrits xs → AllTrits ys → AllTrits (xs ++ ys)
AllTrits-append [] ys h k = k
AllTrits-append (x ∷ xs) ys (hx, hs) k = (hx, AllTrits-append xs ys hs k)

pub AllTrits-field : (n : ℕ) (ts : Trits) → AllTrits ts → AllTrits (field (pos 0) n ts)
unfolding field
AllTrits-field n ts h = AllTrits-append ts _ h (AllTrits-zeros (n - length ts))

pub field_full : (n : ℕ) (ts : Trits) → length ts ≡ n → field (pos 0) n ts ≡ ts
unfolding field
field_full n ts h =
    ap (λ k. ts ++ replicate k (pos 0)) {x = n - length ts} {y = 0} (omega (arith, h))
    ∙ append-nil ts

pub AllTrits-take : (n : ℕ) (ts : Trits) → AllTrits ts → AllTrits (take n ts)
AllTrits-take zero ts h = tt
AllTrits-take (suc n) [] h = tt
AllTrits-take (suc n) (t ∷ ts) (ht, hs) = (ht, AllTrits-take n ts hs)

pub AllTrits-drop : (n : ℕ) (ts : Trits) → AllTrits ts → AllTrits (drop n ts)
AllTrits-drop zero ts h = h
AllTrits-drop (suc n) [] h = tt
AllTrits-drop (suc n) (t ∷ ts) (ht, hs) = AllTrits-drop n ts hs
