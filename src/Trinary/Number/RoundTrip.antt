-- ===== src/Trinary/Number/RoundTrip.antt =====
-- Integers as trits and as trytes, and back.
use iota_go.Common.{
  ℕ, zero, suc, ◌+◌, ◌-◌, ◌*◌, ◌/◌, ◌≤◌, ◌≡◌, refl, true, arith, ◌==◌, Bool-cases, inl, inr, List,
  [], ◌∷◌, map, length, length-map, take, length-take, ℤ, pos, ◌+ℤ◌, scale, int64, abs, ap, sym,
  ◌∙◌, ints, parts_of_eq, ltb_ℤ, InInt64, int64_id, int64_add, int64_three, int64_twenty_seven,
}
use iota_go.Consts.{ok}
use iota_go.Trinary.Value.{value, max_value, Within, value-take}
use iota_go.Trinary.Trits.{Trits}
use iota_go.Trinary.Tryte.{is_valid_tryte}
use iota_go.Trinary.Tryte.Values.{tryte_char, tryte_to_value, valid_char, char_value}
use iota_go.Trinary.Tryte.Groups.{split_value}
use iota_go.Trinary.Convert.{Trytes}
use iota_go.Trinary.Convert.RoundTrip.{
  AreTrytes, AllTrits, char_value-tryte_char, trits_of, AllTrits-trits_of, length-trits_of,
  must_trytes_to_trits_lem,
}
use iota_go.Trinary.Number.{
  int_to_trytes, int_to_trits, trits_to_int, trytes_to_int, trytes_to_int_loop, keep, trim_nines,
  min_trits,
}
use iota_go.Trinary.Number.Bounds.{min_trits-IsLeast, max_value_mono}
use iota_go.Trinary.Number.Digits.{
  length-digits, digits, digits-InTryte, AllInTryte, value_27, value_27_int, max_27,
  int_to_trytes-digits,
}

-- `trits_to_int` is the value of its trits, wrapped once.
pub trits_to_int-value : (ts : Trits) → trits_to_int ts ≡ int64 (value ts)
unfolding trits_to_int value
trits_to_int-value [] = sym (int64_id (pos 0) (omega arith))
trits_to_int-value (t ∷ ts) =
    rw (trits_to_int-value ts, int64_three) (int64_add (scale 3 (value ts)) t)

-- The value of trytes.
unfoldable pub trytes_value : Trytes → ℤ
trytes_value [] = pos 0
trytes_value (t ∷ ts) = scale 27 (trytes_value ts) +ℤ char_value t

trytes_to_int_loop-value :
    (ts : Trytes) → AreTrytes ts → trytes_to_int_loop ts ≡ ok (int64 (trytes_value ts))
unfolding trytes_to_int_loop trytes_value
trytes_to_int_loop-value [] h = ap ok (sym (int64_id (pos 0) (omega arith)))
trytes_to_int_loop-value (t ∷ ts) (ht, hs) =
    let (e, i, back) = valid_char t ht in
    rw (trytes_to_int_loop-value ts hs, e, int64_twenty_seven)
      (ap ok (int64_add (scale 27 (trytes_value ts)) (char_value t)))

-- The 9s at the end count for nothing.
nine_value : char_value b'9' ≡ pos 0
unfolding char_value
nine_value = refl

keep-AreTrytes :
    (t : ℕ) (ts : Trytes) → is_valid_tryte t ≡ true → AreTrytes ts → AreTrytes (keep t ts)
unfolding keep
keep-AreTrytes t [] ht h = elim (Bool-cases (t == b'9')) [ inl e ↦ rw e tt | inr e ↦ rw e (ht, tt) ]
keep-AreTrytes t (r ∷ rs) ht h = (ht, h)

trytes_value-keep :
    (t : ℕ) (ts : Trytes) → trytes_value (keep t ts) ≡ scale 27 (trytes_value ts) +ℤ char_value t
unfolding keep trytes_value
trytes_value-keep t [] = elim (Bool-cases (t == b'9')) [
  | inl e ↦ let nine : t ≡ b'9' = ground (arith, e) in rw (nine, nine_value) (omega ints)
  | inr e ↦ rw e
]
trytes_value-keep t (r ∷ rs) = refl

trim_nines-AreTrytes : (ts : Trytes) → AreTrytes ts → AreTrytes (trim_nines ts)
unfolding trim_nines
trim_nines-AreTrytes [] h = tt
trim_nines-AreTrytes (t ∷ ts) (ht, hs) =
    keep-AreTrytes t (trim_nines ts) ht (trim_nines-AreTrytes ts hs)

trytes_value-trim_nines : (ts : Trytes) → trytes_value (trim_nines ts) ≡ trytes_value ts
unfolding trim_nines trytes_value
trytes_value-trim_nines [] = refl
trytes_value-trim_nines (t ∷ ts) =
    trytes_value-keep t (trim_nines ts)
    ∙ ap (λ x. scale 27 x +ℤ char_value t) (trytes_value-trim_nines ts)

pub trytes_to_int-value :
    (ts : Trytes) → AreTrytes ts → trytes_to_int ts ≡ ok (int64 (trytes_value ts))
unfolding trytes_to_int
trytes_to_int-value ts h =
    rw (
      trytes_to_int_loop-value (trim_nines ts) (trim_nines-AreTrytes ts h),
      trytes_value-trim_nines,
    )

-- The trits of trytes have the value of the trytes.
pub value-trits_of : (ts : Trytes) → AreTrytes ts → value (trits_of ts) ≡ trytes_value ts
unfolding value trits_of trytes_value
value-trits_of [] h = refl
value-trits_of (t ∷ ts) (ht, hs) =
    let (e, i, back) = valid_char t ht in
    omega (ints, parts_of_eq (value-trits_of ts hs), parts_of_eq (split_value (char_value t) i))

-- Characters of digits are valid, and have the value of the digits.
chars-AreTrytes : (ds : List ℤ) → AllInTryte ds → AreTrytes (map tryte_char ds)
chars-AreTrytes [] h = tt
chars-AreTrytes (d ∷ ds) (hd, hs) = ((tryte_to_value d hd).1, chars-AreTrytes ds hs)

chars-value : (ds : List ℤ) → AllInTryte ds → trytes_value (map tryte_char ds) ≡ value_27 ds
unfolding trytes_value value_27
chars-value [] h = refl
chars-value (d ∷ ds) (hd, hs) = rw (char_value-tryte_char d hd, chars-value ds hs)

-- An int64 that fits n trytes is written in n trytes and read back.
pub trytes_to_int-int_to_trytes :
    (v : ℤ) (n : ℕ)
    → InInt64 v
    → abs v ≤ max_27 n
    → (s : Trytes) × (int_to_trytes v n ≡ ok s)
      × (length s ≡ n)
      × AreTrytes s
      × (trytes_value s ≡ v)
      × (trytes_to_int s ≡ ok v)
trytes_to_int-int_to_trytes v n h fits =
    let negative = ltb_ℤ v (pos 0) in
    let ds = digits n (abs v) negative in
    let hd : AllInTryte ds = digits-InTryte n (abs v) negative in
    let valid = chars-AreTrytes ds hd in
    let e : trytes_value (map tryte_char ds) ≡ v = chars-value ds hd ∙ value_27_int v n fits in
    (
      map tryte_char ds,
      int_to_trytes-digits v n h,
      length-map ds tryte_char ∙ length-digits n (abs v) negative,
      valid,
      e,
      trytes_to_int-value _ valid ∙ ap ok (ap int64 e ∙ int64_id v h),
    )

pub max_27-max_value : (n : ℕ) → max_27 n ≡ max_value (3 * n)
unfolding max_27 max_value
max_27-max_value zero = refl
max_27-max_value (suc n) =
    let e : 3 * suc n ≡ suc (suc (suc (3 * n))) = omega arith in
    rw e (omega (arith, max_27-max_value n))

-- The trits of `int_to_trits`: `min_trits` of them, all valid, with the value that was given.
pub record Represents (v : ℤ) (ts : Trits) : Type 0 where
  pub size : length ts ≡ min_trits v
  pub valid : AllTrits ts
  pub worth : value ts ≡ v
  pub read : trits_to_int ts ≡ v

take-AllTrits : (n : ℕ) (ts : Trits) → AllTrits ts → AllTrits (take n ts)
take-AllTrits zero ts h = tt
take-AllTrits (suc n) [] h = tt
take-AllTrits (suc n) (t ∷ ts) (ht, hs) = (ht, take-AllTrits n ts hs)

Within-least : (v : ℤ) (n : ℕ) → abs v ≤ max_value n → Within (max_value n) v
Within-least v n h = omega arith

module _ (v : ℤ) (h : InInt64 v) where
  count : ℕ
  count = (min_trits v + 3 - 1) / 3

  fits_count : abs v ≤ max_27 count
  unfolding count
  fits_count = omega (
    arith,
    max_27-max_value ((min_trits v + 3 - 1) / 3),
    (min_trits-IsLeast v h).holds,
    max_value_mono (min_trits v) (3 * ((min_trits v + 3 - 1) / 3)) (omega arith),
  )

  -- Every int64 is written in the least number of trits that hold it, and read back.
  pub trits_to_int-int_to_trits : (ts : Trits) × (int_to_trits v ≡ ok ts) × Represents v ts
  unfolding int_to_trits count
  trits_to_int-int_to_trits =
      let (s, written, len, valid, worth, back) =
        trytes_to_int-int_to_trytes v count h fits_count in
      let n = min_trits v in
      let all = AllTrits-trits_of s valid in
      let val : value (trits_of s) ≡ v = value-trits_of s valid ∙ worth in
      let bound : Within (max_value n) (value (trits_of s)) =
        rw val (Within-least v n (min_trits-IsLeast v h).holds) in
      let cut : value (take n (trits_of s)) ≡ v = value-take n (trits_of s) all bound ∙ val in
      (
        take n (trits_of s),
        rw (written, must_trytes_to_trits_lem s valid),
        record {
          size = omega (arith, length-take n (trits_of s), length-trits_of s, len);
          valid = take-AllTrits n (trits_of s) all;
          worth = cut;
          read = trits_to_int-value (take n (trits_of s)) ∙ ap int64 cut ∙ int64_id v h;
        },
      )
