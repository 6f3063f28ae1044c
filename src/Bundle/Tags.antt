-- ===== src/Bundle/Tags.antt =====
-- Obsolete tags as numbers: the next tag of the search is the one of a number that is greater by one.
pub mod Prepared
use iota_go.Common.{
  ℕ, zero, suc, ◌-◌, ◌<◌, ◌≤◌, ◌≡◌, refl, ap, sym, ◌∙◌, inl, inr, Bool, true, false, ◌&&◌, List, [],
  ◌∷◌, length, length-append, length-replicate, replicate, leb, ltb, arith, ints, ℤ, pos, negsuc,
  ◌+ℤ◌, eqb_ℤ, if◌then◌else◌, parts_of_eq, int64, Bool-cases,
}
use mathlib.Core.Path.{subst}
use iota_go.Consts.{ok, >>=_split, ok_inj}
use iota_go.Trinary.Trits.{Trits, valid_trit, must_pad_trits}
use iota_go.Trinary.Tryte.{
  at_ℤ, tryte_index, tryte_value_to_trits_lut, must_put_tryte_trits, must_tryte_to_tryte_value,
}
use iota_go.Trinary.Tryte.Values.{every_trit}
use iota_go.Trinary.Convert.{Trytes, must_trytes_to_trits}
use iota_go.Trinary.Convert.RoundTrip.{AllTrits}
use iota_go.Trinary.Adder.{add_trits, add_loop, full_add}
use iota_go.Trinary.Adder.Sums.{shift-zero}
use iota_go.Trinary.Value.{value, shift}
use iota_go.Transaction.Fields.{AllTrits-append}
use iota_go.Trinary.Number.{int_to_trytes}
use iota_go.Transaction.{Transaction}
use iota_go.Bundle.{Bundle}
use iota_go.Bundle.Finalize.{Essence, next_tag, prepare, prepare_all, zero_last_trit}

-- Plus one, by counting: 1 becomes -1 and carries, and another trit is raised. A carry out of the last
-- trit is dropped.
unfoldable pub successor : Trits → Trits
successor [] = []
successor (t ∷ ts) =
    let rest = successor ts in
    if eqb_ℤ t (pos 1) then negsuc 0 ∷ rest else if eqb_ℤ t (pos 0) then pos 1 ∷ ts else pos 0 ∷ ts

-- The tag of the first of the transactions is counted up, and nothing else changes.
unfoldable pub counted : List Essence → List Essence
unfolding successor
counted [] = []
counted (e ∷ es) = record e { tag_trits = successor (e.tag_trits) } ∷ es

-- There is a transaction, and its tag is trits.
abbrev pub HasTag : List Essence → Type 0
HasTag [] = ⊥
HasTag (e ∷ es) = AllTrits (e.tag_trits) × (0 < length (e.tag_trits))

add_loop-nil : (ts : Trits) → AllTrits ts → add_loop (length ts) ts [] (pos 0) ≡ ts
unfolding add_loop full_add
add_loop-nil [] h = refl
add_loop-nil (t ∷ ts) (ht, hs) =
    every_trit (λ t. add_loop (suc (length ts)) (t ∷ ts) [] (pos 0) ≡ t ∷ ts)
      (
        ap (λ r. negsuc 0 ∷ r) (add_loop-nil ts hs),
        ap (λ r. pos 0 ∷ r) (add_loop-nil ts hs),
        ap (λ r. pos 1 ∷ r) (add_loop-nil ts hs),
      )
      t ht

add_loop-carry : (ts : Trits) → AllTrits ts → add_loop (length ts) ts [] (pos 1) ≡ successor ts
unfolding add_loop full_add successor
add_loop-carry [] h = refl
add_loop-carry (t ∷ ts) (ht, hs) =
    every_trit (λ t. add_loop (suc (length ts)) (t ∷ ts) [] (pos 1) ≡ successor (t ∷ ts))
      (
        ap (λ r. pos 0 ∷ r) (add_loop-nil ts hs),
        ap (λ r. pos 1 ∷ r) (add_loop-nil ts hs),
        ap (λ r. negsuc 0 ∷ r) (add_loop-carry ts hs),
      )
      t ht

add_trits-successor :
    (ts : Trits) → AllTrits ts → 0 < length ts → add_trits ts (pos 1 ∷ []) ≡ successor ts
unfolding add_trits add_loop full_add successor
add_trits-successor [] h long = absurd (omega (arith, long))
add_trits-successor (t ∷ ts) (ht, hs) long =
    let one : ltb (suc (length ts)) 1 ≡ false = ground arith in
    rw (add_trits, one)
      (every_trit
        (λ t. add_loop (suc (length ts)) (t ∷ ts) (pos 1 ∷ []) (pos 0) ≡ successor (t ∷ ts))
        (
          ap (λ r. pos 0 ∷ r) (add_loop-nil ts hs),
          ap (λ r. pos 1 ∷ r) (add_loop-nil ts hs),
          ap (λ r. negsuc 0 ∷ r) (add_loop-carry ts hs),
        )
        t ht)

AllTrits-successor : (ts : Trits) → AllTrits ts → AllTrits (successor ts)
unfolding successor valid_trit
AllTrits-successor [] h = tt
AllTrits-successor (t ∷ ts) (ht, hs) =
    every_trit (λ t. AllTrits (successor (t ∷ ts)))
      ((refl, hs), (refl, hs), (refl, AllTrits-successor ts hs)) t ht

length-successor : (ts : Trits) → AllTrits ts → length (successor ts) ≡ length ts
unfolding successor
length-successor [] h = refl
length-successor (t ∷ ts) (ht, hs) =
    every_trit (λ t. length (successor (t ∷ ts)) ≡ suc (length ts))
      (refl, refl, ap suc (length-successor ts hs)) t ht

-- The number that trits stand for grows by one, but for what is dropped above the last trit.
value-successor :
    (ts : Trits)
    → AllTrits ts
    → (dropped : ℤ) × (value (successor ts) +ℤ shift (length ts) dropped ≡ value ts +ℤ pos 1)
unfolding successor value shift
value-successor [] h = (pos 1, omega ints)
value-successor (t ∷ ts) (ht, hs) =
    let (d, e) = value-successor ts hs in
    every_trit
      (λ t.
        (dropped : ℤ) × (value (successor (t ∷ ts)) +ℤ shift (suc (length ts)) dropped
          ≡ value (t ∷ ts) +ℤ pos 1))
      (
        (pos 0, rw (shift-zero (length ts)) (omega ints)),
        (pos 0, rw (shift-zero (length ts)) (omega ints)),
        (d, omega (ints, parts_of_eq e)),
      )
      t ht

pub next_tag-counted : (es : List Essence) → HasTag es → next_tag es ≡ counted es
unfolding next_tag counted
next_tag-counted [] h = absurd h
next_tag-counted (e ∷ es) (valid, long) =
    ap (λ ts. record e { tag_trits = ts } ∷ es) (add_trits-successor (e.tag_trits) valid long)

pub counted-HasTag : (es : List Essence) → HasTag es → HasTag (counted es)
unfolding counted
counted-HasTag [] h = h
counted-HasTag (e ∷ es) (valid, long) = (
  AllTrits-successor (e.tag_trits) valid,
  omega (arith, long, length-successor (e.tag_trits) valid),
)

abbrev pub tag_of : List Essence → Trits
tag_of [] = []
tag_of (e ∷ es) = e.tag_trits

-- The second tag is k more than the first: as numbers, but for what is dropped above the last trit.
abbrev pub IsMore : ℕ → Trits → Trits → Type 0
IsMore k before after =
    (length after ≡ length before)
    × ((dropped : ℤ) × (value after +ℤ shift (length before) dropped ≡ value before +ℤ pos k))

shift-add : (n : ℕ) (a b : ℤ) → shift n (a +ℤ b) ≡ shift n a +ℤ shift n b
unfolding shift
shift-add zero a b = refl
shift-add (suc n) a b = omega (ints, parts_of_eq (shift-add n a b))

pub IsMore-zero : (ts : Trits) → IsMore 0 ts ts
IsMore-zero ts = (refl, (pos 0, rw (shift-zero (length ts)) (omega ints)))

pub IsMore-suc :
    (k : ℕ) (ts us : Trits) → AllTrits ts → IsMore k (successor ts) us → IsMore (suc k) ts us
IsMore-suc k ts us valid (size, (b, more)) =
    let (a, one) = value-successor ts valid in
    let same = length-successor ts valid in
    let wide : value us +ℤ shift (length ts) b ≡ value (successor ts) +ℤ pos k =
      ap (λ n. value us +ℤ shift n b) (sym same) ∙ more in
    (
      size ∙ same,
      (a +ℤ b, rw (shift-add (length ts) a b) (omega (ints, parts_of_eq wide, parts_of_eq one))),
    )
