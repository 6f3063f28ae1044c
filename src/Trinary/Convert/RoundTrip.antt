-- ===== src/Trinary/Convert/RoundTrip.antt =====
-- Trytes and trits in one another's place.
use iota_go.Common.{
  ℕ, ◌*◌, ◌%◌, ◌<◌, ◌≡◌, refl, true, [], ◌∷◌, ◌++◌, arith, ◌==◌, length, Bool-cases, inl, inr, ℤ,
  ap, sym, ◌∙◌,
}
use iota_go.Consts.{ok, >>=_split}
use iota_go.Trinary.Trits.{Trits, valid_trit, valid_trits, all_valid_trits}
use iota_go.Trinary.Tryte.{is_valid_tryte, tryte_value}
use iota_go.Trinary.Tryte.Values.{
  InTryte, value_to_tryte, tryte_to_value, valid_char, char_value, tryte_char,
}
use iota_go.Trinary.Tryte.Groups.{
  AreTrits, put_value, trits_of_group, group_value, tryte_value-InTryte, trit_of, split_trits,
  split_value,
}
use iota_go.Trinary.Convert.{
  Trytes, must_trits_to_trytes, trits_to_trytes, valid_trytes, all_valid_trytes,
  must_trytes_to_trits, trytes_to_trits,
}

-- Every element is a tryte; every element is a trit.
abbrev pub AreTrytes : Trytes → Type 0
AreTrytes [] = Unit
AreTrytes (t ∷ ts) = (is_valid_tryte t ≡ true) × AreTrytes ts

abbrev pub AllTrits : Trits → Type 0
AllTrits [] = Unit
AllTrits (t ∷ ts) = (valid_trit t ≡ true) × AllTrits ts

-- The trits of trytes, group by group.
unfoldable pub trits_of : Trytes → Trits
trits_of [] = []
trits_of (t ∷ ts) = let v = char_value t in trit_of 0 v ∷ trit_of 1 v ∷ trit_of 2 v ∷ trits_of ts

pub AllTrits-trits_of : (ts : Trytes) → AreTrytes ts → AllTrits (trits_of ts)
unfolding trits_of
AllTrits-trits_of [] h = tt
AllTrits-trits_of (t ∷ ts) (ht, hs) =
    let (e, i, back) = valid_char t ht in
    let s = split_trits (char_value t) i in
    (s.first, (s.second, (s.third, AllTrits-trits_of ts hs)))

pub length-trits_of : (ts : Trytes) → length (trits_of ts) ≡ 3 * length ts
unfolding trits_of
length-trits_of [] = refl
length-trits_of (t ∷ ts) = omega (arith, length-trits_of ts)

pub must_trytes_to_trits_lem :
    (ts : Trytes) → AreTrytes ts → must_trytes_to_trits ts ≡ ok (trits_of ts)
unfolding must_trytes_to_trits trits_of
must_trytes_to_trits_lem [] h = refl
must_trytes_to_trits_lem (t ∷ ts) (ht, hs) =
    let (e, i, back) = valid_char t ht in
    rw (
      e,
      put_value (char_value t) i (ℤ.pos 0) (ℤ.pos 0) (ℤ.pos 0) [],
      must_trytes_to_trits_lem ts hs,
    )

-- `must_trits_to_trytes` reads the trytes back from their trits, and leaves out what is no group.
pub must_trits_to_trytes-trits_of :
    (ts : Trytes) → AreTrytes ts → must_trits_to_trytes (trits_of ts) ≡ ok ts
unfolding must_trits_to_trytes trits_of
must_trits_to_trytes-trits_of [] h = refl
must_trits_to_trytes-trits_of (t ∷ ts) (ht, hs) =
    let (e, i, back) = valid_char t ht in
    let v = char_value t in
    rw (
      group_value _ _ _ (split_trits v i) (trits_of ts),
      split_value v i,
      value_to_tryte v i,
      back,
      must_trits_to_trytes-trits_of ts hs,
    )

all_valid_trytes_lem : (ts : Trytes) → AreTrytes ts → all_valid_trytes ts ≡ ok tt
unfolding all_valid_trytes
all_valid_trytes_lem [] h = refl
all_valid_trytes_lem (t ∷ ts) (ht, hs) = rw ht (all_valid_trytes_lem ts hs)

all_valid_trytes-ok : (ts : Trytes) → all_valid_trytes ts ≡ ok tt → AreTrytes ts
unfolding all_valid_trytes
all_valid_trytes-ok [] h = tt
all_valid_trytes-ok (t ∷ ts) h = elim (Bool-cases (is_valid_tryte t)) [
  | inl e ↦ (e, all_valid_trytes-ok ts (rw e at h))
  | inr e ↦ absurd (cc (rw e at h))
]

pub valid_trytes-ok : (ts : Trytes) → valid_trytes ts ≡ ok tt → AreTrytes ts
unfolding valid_trytes
valid_trytes-ok [] h = tt
valid_trytes-ok (t ∷ ts) h = all_valid_trytes-ok (t ∷ ts) h

pub valid_trytes_lem : (t : ℕ) (ts : Trytes) → AreTrytes (t ∷ ts) → valid_trytes (t ∷ ts) ≡ ok tt
unfolding valid_trytes
valid_trytes_lem t ts h = all_valid_trytes_lem (t ∷ ts) h

all_valid_trits_lem : (ts : Trits) → AllTrits ts → all_valid_trits ts ≡ ok tt
unfolding all_valid_trits
all_valid_trits_lem [] h = refl
all_valid_trits_lem (t ∷ ts) (ht, hs) = rw ht (all_valid_trits_lem ts hs)

all_valid_trits-ok : (ts : Trits) → all_valid_trits ts ≡ ok tt → AllTrits ts
unfolding all_valid_trits
all_valid_trits-ok [] h = tt
all_valid_trits-ok (t ∷ ts) h = elim (Bool-cases (valid_trit t)) [
  | inl e ↦ (e, all_valid_trits-ok ts (rw e at h))
  | inr e ↦ absurd (cc (rw e at h))
]

pub valid_trits-ok : (ts : Trits) → valid_trits ts ≡ ok tt → AllTrits ts
unfolding valid_trits
valid_trits-ok [] h = tt
valid_trits-ok (t ∷ ts) h = all_valid_trits-ok (t ∷ ts) h

pub valid_trits_lem : (t : ℤ) (ts : Trits) → AllTrits (t ∷ ts) → valid_trits (t ∷ ts) ≡ ok tt
unfolding valid_trits
valid_trits_lem t ts h = all_valid_trits_lem (t ∷ ts) h

length_groups : (ts : Trytes) → (length (trits_of ts) % 3 == 0) ≡ true
length_groups ts = ground (arith, length-trits_of ts)

pub trits_to_trytes-trits_of :
    (t : ℕ) (ts : Trytes) → AreTrytes (t ∷ ts) → trits_to_trytes (trits_of (t ∷ ts)) ≡ ok (t ∷ ts)
unfolding trits_to_trytes trits_of
trits_to_trytes-trits_of t ts h =
    rw (checked, length_groups (t ∷ ts), must_trits_to_trytes-trits_of (t ∷ ts) h)
  where
    checked : valid_trits (trits_of (t ∷ ts)) ≡ ok tt
    checked = valid_trits_lem _ _ (AllTrits-trits_of (t ∷ ts) h)

-- A checked conversion of trytes gives trits that convert back to the same trytes.
pub trits_to_trytes-trytes_to_trits :
    (s : Trytes) (trits : Trits)
    → trytes_to_trits s ≡ ok trits
    → (trits_to_trytes trits ≡ ok s) × (length trits ≡ 3 * length s)
unfolding trytes_to_trits
trits_to_trytes-trytes_to_trits [] trits h = unfold valid_trytes in cc
trits_to_trytes-trytes_to_trits (t ∷ ts) trits h =
    let (u, checked, rest) = >>=_split (valid_trytes (t ∷ ts)) _ h in
    let a = valid_trytes-ok (t ∷ ts) checked in
    let e : trits_of (t ∷ ts) ≡ trits = cc (must_trytes_to_trits_lem (t ∷ ts) a) in
    rw (← e) (trits_to_trytes-trits_of t ts a, length-trits_of (t ∷ ts))

-- The trytes of trits, group by group.
unfoldable pub trytes_of : Trits → Trytes
trytes_of (a ∷ b ∷ c ∷ rest) = tryte_char (tryte_value a b c) ∷ trytes_of rest
trytes_of _ = []

pub char_value-tryte_char : (v : ℤ) → InTryte v → char_value (tryte_char v) ≡ v
char_value-tryte_char v i =
    let (back, valid) = tryte_to_value v i in let (e, j, f) = valid_char (tryte_char v) valid in cc

pub must_trits_to_trytes_lem :
    (ts : Trits) → AllTrits ts → must_trits_to_trytes ts ≡ ok (trytes_of ts)
unfolding must_trits_to_trytes trytes_of
must_trits_to_trytes_lem (a ∷ b ∷ c ∷ rest) (ha, (hb, (hc, hs))) =
    let t : AreTrits a b c = record { first = ha; second = hb; third = hc } in
    rw (
      group_value a b c t rest,
      value_to_tryte _ (tryte_value-InTryte a b c t),
      must_trits_to_trytes_lem rest hs,
    )
must_trits_to_trytes_lem [] h = refl
must_trits_to_trytes_lem (a ∷ []) h = refl
must_trits_to_trytes_lem (a ∷ b ∷ []) h = refl

pub AreTrytes-trytes_of : (ts : Trits) → AllTrits ts → AreTrytes (trytes_of ts)
unfolding trytes_of
AreTrytes-trytes_of (a ∷ b ∷ c ∷ rest) (ha, (hb, (hc, hs))) =
    let t : AreTrits a b c = record { first = ha; second = hb; third = hc } in
    ((tryte_to_value _ (tryte_value-InTryte a b c t)).1, AreTrytes-trytes_of rest hs)
AreTrytes-trytes_of [] h = tt
AreTrytes-trytes_of (a ∷ []) h = tt
AreTrytes-trytes_of (a ∷ b ∷ []) h = tt

pub trits_of-trytes_of :
    (ts : Trits) → AllTrits ts → length ts % 3 ≡ 0 → trits_of (trytes_of ts) ≡ ts
unfolding trytes_of trits_of
trits_of-trytes_of (a ∷ b ∷ c ∷ rest) (ha, (hb, (hc, hs))) m =
    let t : AreTrits a b c = record { first = ha; second = hb; third = hc } in
    rw
      (
        char_value-tryte_char _ (tryte_value-InTryte a b c t),
        trits_of-trytes_of rest hs (omega arith),
      )
      (ap (λ g. g ++ rest) (trits_of_group a b c t))
trits_of-trytes_of [] h m = refl
trits_of-trytes_of (a ∷ []) h m = absurd (omega arith)
trits_of-trytes_of (a ∷ b ∷ []) h m = absurd (omega arith)

pub trytes_to_trits_lem :
    (s : Trytes) → AreTrytes s → 0 < length s → trytes_to_trits s ≡ ok (trits_of s)
unfolding trytes_to_trits
trytes_to_trits_lem [] h h0 = absurd (omega arith)
trytes_to_trits_lem (t ∷ ts) h pos =
    rw (valid_trytes_lem t ts h, must_trytes_to_trits_lem (t ∷ ts) h)

pub converts_back :
    (trits : Trits)
    → AllTrits trits
    → length trits % 3 ≡ 0
    → 0 < length trits
    → (trytes_to_trits (trytes_of trits) ≡ ok trits) × (length trits ≡ 3 * length (trytes_of trits))
converts_back trits a m h0 =
    let back = trits_of-trytes_of trits a m in
    let len : length trits ≡ 3 * length (trytes_of trits) =
      ap length (sym back) ∙ length-trits_of (trytes_of trits) in
    (
      trytes_to_trits_lem (trytes_of trits) (AreTrytes-trytes_of trits a) (omega arith)
          ∙ ap ok back,
      len,
    )

-- A checked conversion of trits gives trytes that convert back to the same trits.
pub trytes_to_trits-trits_to_trytes :
    (trits : Trits) (s : Trytes)
    → trits_to_trytes trits ≡ ok s
    → (trytes_to_trits s ≡ ok trits) × (length trits ≡ 3 * length s)
unfolding trits_to_trytes
trytes_to_trits-trits_to_trytes [] s h = unfold valid_trits in cc
trytes_to_trits-trits_to_trytes (t ∷ ts) s h =
    let (u, checked, rest) = >>=_split (valid_trits (t ∷ ts)) _ h in
    let a = valid_trits-ok (t ∷ ts) checked in
    elim (Bool-cases (length (t ∷ ts) % 3 == 0)) [
      | inl m ↦
          let e : trytes_of (t ∷ ts) ≡ s = cc (must_trits_to_trytes_lem (t ∷ ts) a, rw m at rest) in
          rw (← e) (converts_back (t ∷ ts) a (ground arith) (omega arith))
      | inr m ↦ absurd (cc (rw m at rest))
    ]
