-- ===== src/Bundle/Examples.antt =====
-- The theorems on bundles at concrete inputs, over a sponge that keeps the first trits it absorbs and
-- hashes them to those behind the address.
use iota_go.Common.{
  ℕ, ◌<◌, ◌≡◌, refl, ap, sym, ◌∙◌, inl, inr, Bool, true, false, not, List, [], ◌∷◌, ◌++◌, none,
  some, length, length-replicate, replicate, take, drop, get_elem?, get_or, ◌==◌, if◌then◌else◌,
  is_empty, pos, eqb_ℤ, int64, int64_id, ◌≤◌, arith, Option-cases,
}
use iota_go.Consts.{Result, ok, err, ok_inj, guard_split, ◌>>=◌, invalid_trit}
use iota_go.Trinary.Trits.{Trits, must_pad_trits}
use iota_go.Trinary.Convert.{Trytes, must_trits_to_trytes, must_trytes_to_trits}
use iota_go.Trinary.Convert.RoundTrip.{trits_of, must_trytes_to_trits_lem}
use iota_go.Sponge.{Sponge, must}
use iota_go.Bundle.{Bundle, null_hash, null_tag}
use iota_go.Transaction.Examples.{zero_transaction}
use iota_go.Trinary.Tryte.{
  must_tryte_to_tryte_value, must_put_tryte_trits, must_tryte_value_to_tryte,
  must_trits_to_tryte_value,
}
use iota_go.Trinary.Number.{int_to_trytes, int_to_trytes_loop, abs_int64, tryte_digit}
use iota_go.Bundle.Tags.{counted, successor, tag_of, IsMore}
use iota_go.Bundle.Search.{
  IsFinal, Finds, accepted, refused, finalize_rounds-Finds, Finds-finalize_rounds,
}
use iota_go.Bundle.Finalize.{
  Essence, prepare, prepare_all, essence_trytes, bundle_hash, first_tag, set_hash, finalize_rounds,
}
use iota_go.Guards.{is_trytes_of_exact_length, all_trytes}
use iota_go.Trinary.Value.{max_value}
use iota_go.Transaction.Fields.{IsText, IsNumber, exact_length-IsText}
use iota_go.Transaction.Layout.{IsCount, Ready}
use iota_go.Bundle.Validity.{absorb_bundle}
use iota_go.Bundle.Agreement.{AbsorbsTrytes, AllNamed, absorb_bundle-finalize_rounds}

abbrev keep_first : Trits → Trits → Trits
keep_first s ts = if is_empty s then ts else s

abbrev zero_at_end : Trits → Bool
zero_at_end ts = elim (get_elem? ts 242) [ none ↦ false | some z ↦ eqb_ℤ z (pos 0) ]

abbrev pub first_essence : Sponge
first_essence = record {
  State = Trits;
  fresh = [];
  absorb = λ s ts. ok (keep_first s ts);
  squeeze = λ s n. ok (replicate n (pos 0), s);
  absorb_trytes = λ s ts.
      (must_trytes_to_trits ts >>= λ trits.
      if not (zero_at_end trits) then err invalid_trit else ok (keep_first s trits));
  squeeze_trytes = λ s n. (must_trits_to_trytes (take n (drop 243 s)) >>= λ ts. ok (ts, s));
  length-squeeze =
      λ s n out s' e. ap (λ p. length p.0) (sym (ok_inj e)) ∙ length-replicate n (pos 0);
}

absorbed_lem :
    (s s' ts : Trits)
    → (if not (zero_at_end ts) then err invalid_trit else ok (keep_first s ts)) ≡ ok s'
    → (zero_at_end ts ≡ true) × (ok (keep_first s ts) ≡ ok s')
absorbed_lem s s' ts e =
    let (passed, done) = guard_split (not (zero_at_end ts)) _ e in (not-false passed, done)
  where
    not-false : {b : Bool} → not b ≡ false → b ≡ true
    not-false {b = true} h = refl
    not-false {b = false} h = sym h

zero_at_end-some : (ts : Trits) → zero_at_end ts ≡ true → get_elem? ts 242 ≡ some (pos 0)
zero_at_end-some ts h = elim (Option-cases (get_elem? ts 242)) [
  | inl e ↦ absurd (cc (rw (zero_at_end, e) at h))
  | inr (z, e) ↦ let zero : z ≡ pos 0 = ground (arith, rw (zero_at_end, e) at h) in e ∙ ap some zero
]

first_essence-AbsorbsTrytes : AbsorbsTrytes first_essence
first_essence-AbsorbsTrytes = record {
  same_trits = λ s s' ts valid e.
      (absorbed_lem s s' (trits_of ts) (rw (must_trytes_to_trits_lem ts valid) at e)).1;
  zero_trit = λ s s' ts valid long e.
      zero_at_end-some (trits_of ts)
        ((absorbed_lem s s' (trits_of ts) (rw (must_trytes_to_trits_lem ts valid) at e)).0);
}

-- Two transactions of no value.
abbrev pub two : Bundle
two =
    record zero_transaction { last_index = 1 }
    ∷ record zero_transaction { current_index = 1; last_index = 1 }
    ∷ []

-- A tag that begins with a 9 is refused.
abbrev tagged : Trytes → Result Bool
tagged h = ok (not (get_or h 27 0 == b'9'))

abbrev first : Essence
first = record {
  essence_address = null_hash;
  worth = null_tag;
  tag_trits = replicate 81 (pos 0);
  time = replicate 9 b'9';
  current = replicate 9 b'9';
  last = b'A' ∷ replicate 8 b'9';
}

abbrev second : Essence
second = record first { current = b'A' ∷ replicate 8 b'9' }

abbrev one_tag : Trytes
one_tag = b'A' ∷ replicate 26 b'9'

abbrev one_trits : Trits
one_trits = pos 1 ∷ replicate 80 (pos 0)

abbrev two_hash : Trytes
two_hash = null_tag ++ one_tag ++ replicate 18 b'9' ++ (b'A' ∷ replicate 8 b'9')

prepare_run : prepare_all two ≡ ok (first ∷ second ∷ [])
unfolding prepare_all prepare must_trytes_to_trits must_tryte_to_tryte_value must_put_tryte_trits
    int_to_trytes int_to_trytes_loop abs_int64 must_tryte_value_to_tryte tryte_digit must_pad_trits
prepare_run = refl

second_accepted :
    Finds first_essence tagged 1
      (first ∷ second ∷ [])
      two_hash
      (record first { tag_trits = one_trits } ∷ second ∷ [])
unfolding bundle_hash counted successor essence_trytes must_trits_to_trytes
    must_trits_to_tryte_value must_tryte_value_to_tryte must_trytes_to_trits
    must_tryte_to_tryte_value must_put_tryte_trits must
second_accepted =
    refused 0 (first ∷ second ∷ [])
      (null_tag ++ null_tag ++ replicate 18 b'9' ++ (b'A' ∷ replicate 8 b'9')) two_hash _ refl refl
      (accepted (record first { tag_trits = one_trits } ∷ second ∷ []) two_hash refl refl)

finalize_rounds-Finds_example :
    finalize_rounds first_essence 2 tagged two ≡ some (ok (set_hash one_tag two_hash two))
unfolding first_tag must_trits_to_trytes must_trits_to_tryte_value must_tryte_value_to_tryte
finalize_rounds-Finds_example =
    finalize_rounds-Finds first_essence tagged 2 1 _ _ (first ∷ second ∷ [])
      (record first { tag_trits = one_trits } ∷ second ∷ []) two_hash one_tag prepare_run
      second_accepted refl (omega arith)

Finds-finalize_rounds_example :
    (es : List Essence) × (prepare_all two ≡ ok es)
    × ((k : ℕ) × (h : Trytes) × (fs : List Essence) × (tag : Trytes) × (k < 2)
        × Finds first_essence tagged k es h fs
        × IsMore k (tag_of es) (tag_of fs)
        × (first_tag fs ≡ ok tag)
        × IsFinal tag h two (set_hash one_tag two_hash two))
Finds-finalize_rounds_example =
    Finds-finalize_rounds first_essence tagged 2 _ _ (set_hash one_tag two_hash two)
      finalize_rounds-Finds_example

nines_text :
    (n : ℕ) → is_trytes_of_exact_length (replicate n b'9') n ≡ true → IsText n (replicate n b'9')
nines_text n checked = exact_length-IsText _ n checked

IsNumber-small : (n k : ℕ) → k ≤ 1 → 1 ≤ max_value n → IsNumber n (pos k)
IsNumber-small n k small room = record {
  word = (omega (arith, small), omega arith);
  fits = omega (arith, small, room);
}

IsCount-small : (k : ℕ) → k ≤ 1 → IsCount k
unfolding max_value
IsCount-small k small =
    let word : int64 (pos k) ≡ pos k = int64_id (pos k) (omega (arith, small), omega arith) in
    record {
      word = omega (arith, small);
      number = rw word (IsNumber-small 27 k small (omega arith));
    }

nines-Ready :
    (tag hash : Trytes) (i : ℕ)
    → i ≤ 1
    → is_trytes_of_exact_length tag 27 ≡ true
    → is_trytes_of_exact_length hash 81 ≡ true
    → Ready (record zero_transaction {
      current_index = i;
      last_index = 1;
      obsolete_tag = tag;
      bundle = hash;
    })
unfolding max_value is_trytes_of_exact_length all_trytes
nines-Ready tag hash i small tag_ok hash_ok = record {
  fragment = nines_text 2187 refl;
  addr = nines_text 81 refl;
  worth = IsNumber-small 33 0 (omega arith) (omega arith);
  obsolete = exact_length-IsText tag 27 tag_ok;
  time = IsCount-small 0 (omega arith);
  current = IsCount-small i small;
  last = IsCount-small 1 (omega arith);
  order = small;
  bndl = exact_length-IsText hash 81 hash_ok;
  trunk = nines_text 81 refl;
  branch = nines_text 81 refl;
  tg = nines_text 27 refl;
  attached = IsNumber-small 27 0 (omega arith) (omega arith);
  lower = IsNumber-small 27 0 (omega arith) (omega arith);
  upper = IsNumber-small 27 0 (omega arith) (omega arith);
  nnc = nines_text 27 refl;
}

absorb_bundle-finalize_rounds_example :
    (s : Trits) × (absorb_bundle first_essence [] (set_hash one_tag two_hash two) ≡ ok s)
    × ((found : Trytes × Trits) × (first_essence.squeeze_trytes s 243 ≡ ok found)
        × AllNamed (found.0) (set_hash one_tag two_hash two)
        × (length (set_hash one_tag two_hash two) ≡ 2))
unfolding set_hash is_trytes_of_exact_length all_trytes
absorb_bundle-finalize_rounds_example =
    absorb_bundle-finalize_rounds first_essence first_essence-AbsorbsTrytes 2 tagged _ _
      (set_hash one_tag two_hash two) (nines_text 27 refl, tt)
      (
        nines-Ready one_tag two_hash 0 (omega arith) refl refl,
        (nines-Ready null_tag two_hash 1 (omega arith) refl refl, tt),
      )
      finalize_rounds-Finds_example
