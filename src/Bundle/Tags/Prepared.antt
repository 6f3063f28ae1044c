-- ===== src/Bundle/Tags/Prepared.antt =====
-- The obsolete tag that finalize prepares for its search is a row of valid trits.
use iota_go.Common.{
  ℕ, zero, suc, ◌-◌, ◌<◌, ◌≤◌, ◌≡◌, refl, inl, inr, Bool, true, ◌&&◌, List, [], ◌∷◌, length,
  length-append, length-replicate, replicate, leb, arith, ℤ, pos, negsuc, int64, Bool-cases,
}
use mathlib.Core.Path.{subst}
use iota_go.Consts.{ok, >>=_split, ok_inj}
use iota_go.Trinary.Trits.{Trits, valid_trit, must_pad_trits}
use iota_go.Trinary.Tryte.{
  at_ℤ, tryte_index, tryte_value_to_trits_lut, must_put_tryte_trits, must_tryte_to_tryte_value,
}
use iota_go.Trinary.Convert.{Trytes, must_trytes_to_trits}
use iota_go.Trinary.Convert.RoundTrip.{AllTrits}
use iota_go.Transaction.Fields.{AllTrits-append}
use iota_go.Trinary.Number.{int_to_trytes}
use iota_go.Transaction.{Transaction}
use iota_go.Bundle.{Bundle}
use iota_go.Bundle.Finalize.{Essence, prepare, prepare_all, zero_last_trit}
use iota_go.Bundle.Tags.{HasTag}

-- The trits that are made of an obsolete tag.
are_trits : Trits → Bool
are_trits [] = true
are_trits (t ∷ ts) = valid_trit t && are_trits ts

are_trits-AllTrits : (ts : Trits) → are_trits ts ≡ true → AllTrits ts
unfolding are_trits
are_trits-AllTrits [] h = tt
are_trits-AllTrits (t ∷ ts) h = (ground (arith, h), are_trits-AllTrits ts (ground (arith, h)))

rows_are_trits : List Trits → Bool
rows_are_trits [] = true
rows_are_trits (r ∷ rows) = are_trits r && rows_are_trits rows

at-AllTrits :
    (rows : List Trits) (i : ℤ) (ts : Trits)
    → rows_are_trits rows ≡ true
    → at_ℤ rows i ≡ ok ts
    → AllTrits ts
unfolding rows_are_trits
at-AllTrits rows (negsuc i) ts all found = absurd (cc)
at-AllTrits [] (pos i) ts all found = absurd (cc)
at-AllTrits (r ∷ rows) (pos zero) ts all found =
    subst AllTrits (ok_inj found) (are_trits-AllTrits r (ground (arith, all)))
at-AllTrits (r ∷ rows) (pos (suc i)) ts all found =
    at-AllTrits rows (pos i) ts (ground (arith, all)) found

must_trytes_to_trits-AllTrits :
    (s : Trytes) (ts : Trits) → must_trytes_to_trits s ≡ ok ts → AllTrits ts
unfolding must_trytes_to_trits must_put_tryte_trits rows_are_trits are_trits valid_trit
must_trytes_to_trits-AllTrits [] ts done = subst AllTrits (ok_inj done) tt
must_trytes_to_trits-AllTrits (c ∷ s) ts done =
    let (v, h0, h1) = >>=_split (must_tryte_to_tryte_value c) _ done in
    let (group, h2, h3) = >>=_split (must_put_tryte_trits (replicate 3 (pos 0)) v) _ h1 in
    let (row, found, joined) = >>=_split (at_ℤ tryte_value_to_trits_lut (tryte_index v)) _ h2 in
    let (rest, more, same) = >>=_split (must_trytes_to_trits s) _ h3 in
    let front = at-AllTrits tryte_value_to_trits_lut (tryte_index v) row refl found in
    subst AllTrits (ok_inj same) (
      AllTrits-append group rest (subst AllTrits (ok_inj joined) (AllTrits-append row [] front tt))
        (must_trytes_to_trits-AllTrits s rest more))

replicate-AllTrits : (n : ℕ) → AllTrits (replicate n (pos 0))
unfolding valid_trit
replicate-AllTrits zero = tt
replicate-AllTrits (suc n) = (refl, replicate-AllTrits n)

must_pad_trits-AllTrits : (ts : Trits) (n : ℕ) → AllTrits ts → AllTrits (must_pad_trits ts n)
unfolding must_pad_trits
must_pad_trits-AllTrits ts n h = elim (Bool-cases (leb n (length ts))) [
  | inl full ↦ rw (must_pad_trits, full) h
  | inr short ↦
      rw (must_pad_trits, short)
        (AllTrits-append ts (replicate (n - length ts) (pos 0)) h
          (replicate-AllTrits (n - length ts)))
]

length-must_pad_trits : (ts : Trits) (n : ℕ) → n ≤ length (must_pad_trits ts n)
unfolding must_pad_trits
length-must_pad_trits ts n = elim (Bool-cases (leb n (length ts))) [
  | inl full ↦ rw (must_pad_trits, full) (ground (arith, full))
  | inr short ↦
      rw (must_pad_trits, short)
        (omega (
          arith,
          length-append ts (replicate (n - length ts) (pos 0)),
          length-replicate (n - length ts) (pos 0),
        ))
]

-- What is prepared of transactions has a tag for the first.
pub prepare_all-HasTag :
    (t : Transaction) (txs : Bundle) (es : List Essence) → prepare_all (t ∷ txs) ≡ ok es → HasTag es
unfolding prepare_all prepare
prepare_all-HasTag t txs es done =
    let (e, one, h1) = >>=_split (prepare t) _ done in
    let (rest, more, h2) = >>=_split (prepare_all txs) _ h1 in
    subst HasTag (ok_inj h2) (tagged e one)
  where
    tagged : (e : Essence) → prepare t ≡ ok e → AllTrits (e.tag_trits) × (0 < length (e.tag_trits))
    tagged e one =
        let (unused, e0, h0) = >>=_split (zero_last_trit (t.address)) _ one in
        let (worth, e1, h1) = >>=_split (int_to_trytes (t.value) 27) _ h0 in
        let (trits, e2, h2) = >>=_split (must_trytes_to_trits (t.obsolete_tag)) _ h1 in
        let (time, e3, h3) = >>=_split (int_to_trytes (int64 (pos (t.timestamp))) 9) _ h2 in
        let (current, e4, h4) = >>=_split (int_to_trytes (int64 (pos (t.current_index))) 9) _ h3 in
        let (last, e5, h5) = >>=_split (int_to_trytes (int64 (pos (t.last_index))) 9) _ h4 in
        subst (λ (e : Essence). AllTrits (e.tag_trits) × (0 < length (e.tag_trits))) (ok_inj h5)
          (
            must_pad_trits-AllTrits trits 81
                (must_trytes_to_trits-AllTrits (t.obsolete_tag) trits e2),
            omega (arith, length-must_pad_trits trits 81),
          )
