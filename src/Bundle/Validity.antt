-- ===== src/Bundle/Validity.antt =====
-- What a valid bundle is.
use mathlib.Core.Path.{subst}
use iota_go.Common.{
  ℕ, ◌+◌, ◌-◌, ◌^◌, ◌≤◌, ◌<◌, ◌≡◌, refl, ap, sym, ◌∙◌, Bool, true, false, not, List, [], ◌∷◌,
  length, ◌==◌, arith, ints, parts_of_eq, ℤ, pos, ◌+ℤ◌, ◌-ℤ◌, abs, eqb_ℤ, neg, int64, int64_id,
  InInt64, uint64, put,
}
use iota_go.Consts.{Result, ok, panic, ◌>>=◌, >>=_split, guard_split, ok_inj, total_supply}
use iota_go.Trinary.Convert.{Trytes, trytes_eq, trytes_eq→eq}
use iota_go.Trinary.Number.Bounds.{abs_int64-eq-abs}
use iota_go.Sponge.{Sponge}
use iota_go.Transaction.{transaction_to_trits}
use iota_go.Bundle.{Bundle}
use iota_go.Bundle.Entries.{Numbered, IsNumbered, sum_values}
use iota_go.Bundle.Valid.{
  change_of, essence_trits, over_supply, check_loop, check_hash, valid_bundle,
  validate_bundle_signatures,
}

-- Values are int64; values that the supply bounds.
abbrev pub AllInt64 : Bundle → Type 0
AllInt64 [] = Unit
AllInt64 (t ∷ txs) = InInt64 (t.value) × AllInt64 txs

abbrev pub AllWithinSupply : Bundle → Type 0
AllWithinSupply [] = Unit
AllWithinSupply (t ∷ txs) = (abs (t.value) ≤ total_supply) × AllWithinSupply txs

within_supply : (v : ℤ) → InInt64 v → over_supply v ≡ false → abs v ≤ total_supply
within_supply v h passed = ground (arith, abs_int64-eq-abs v h, passed)

sum_fits : (a b : ℤ) → abs a ≤ total_supply → abs b ≤ total_supply → InInt64 (a +ℤ b)
unfolding ◌+ℤ◌
sum_fits a b ha hb = (ground (arith, ha, hb), ground (arith, ha, hb))

-- The first transaction names the hash.
abbrev pub HasHash : Trytes → Bundle → Type 0
HasHash h [] = ⊥
HasHash h (t ∷ txs) = h ≡ t.bundle

not-false : {b : Bool} → not b ≡ false → b ≡ true
not-false {b = true} h = refl
not-false {b = false} h = sym h

panic_not_ok : {A : Type 0} {a : A} → panic ≡ ok a → ⊥
panic_not_ok e = absurd (cc)

module _ (sponge : Sponge) where
  open sponge use {State, fresh, absorb, squeeze_trytes}

  -- The sponge after the essences of all transactions.
  unfoldable pub absorb_bundle : State → Bundle → Result State
  absorb_bundle s [] = ok s
  absorb_bundle s (t ∷ txs) = do
    trits ← transaction_to_trits t
    s' ← absorb s (essence_trits trits)
    absorb_bundle s' txs

  record Checked (last i : ℕ) (total : ℤ) (s : State) (txs : Bundle) (end : ℤ × State)
      : Type 0 where
    numbered : Numbered i last txs
    within : AllWithinSupply txs
    sum : end.0 ≡ total +ℤ sum_values txs
    absorbed : absorb_bundle s txs ≡ ok (end.1)

  check_loop-Checked :
      (last i : ℕ) (total : ℤ) (changes : List (Trytes × ℤ)) (s : State) (txs : Bundle)
      (end : ℤ × State)
      → AllInt64 txs
      → abs total ≤ total_supply
      → check_loop sponge last i total changes s txs ≡ ok end
      → Checked last i total s txs end
  unfolding check_loop sum_values absorb_bundle
  check_loop-Checked last i total changes s [] end words small e =
      let same : (total, s) ≡ end = ok_inj e in
      subst (λ (p : ℤ × State). Checked last i total s [] p) same
        (record { numbered = tt; within = tt; sum = omega ints; absorbed = refl })
  check_loop-Checked last i total changes s (t ∷ txs) end (word, words) small e0 =
      let sum = int64 (total +ℤ t.value) in
      let change = int64 (change_of (t.address) changes +ℤ t.value) in
      let (value_passed, e1) = guard_split (over_supply (t.value)) _ e0 in
      let (sum_passed, e2) = guard_split (over_supply sum) _ e1 in
      let (change_passed, e3) = guard_split (over_supply change) _ e2 in
      let (index_passed, e4) = guard_split (not (t.current_index == i)) _ e3 in
      let (last_passed, e5) = guard_split (not (t.last_index == last)) _ e4 in
      let (trits, written, e6) = >>=_split (transaction_to_trits t) _ e5 in
      let (s', absorbed, e7) = >>=_split (absorb s (essence_trits trits)) _ e6 in
      let value_small = within_supply (t.value) word value_passed in
      let exact : sum ≡ total +ℤ t.value =
        int64_id _ (sum_fits total (t.value) small value_small) in
      let sum_small : abs sum ≤ total_supply =
        within_supply sum (subst InInt64 (sym exact) (sum_fits total (t.value) small value_small))
          sum_passed in
      let rest =
        check_loop-Checked last (i + 1) sum (put trytes_eq (t.address) change changes) s' txs end
          words sum_small e7 in
      record {
        numbered = (ground (arith, index_passed), ground (arith, last_passed), rest.numbered);
        within = (value_small, rest.within);
        sum = rest.sum ∙ ap (λ z. z +ℤ sum_values txs) exact ∙ omega ints;
        absorbed = rw (written, absorbed) (rest.absorbed);
      }

  -- What validity promises of a bundle.
  pub record IsValid (txs : Bundle) : Type 0 where
    pub numbered : IsNumbered txs
    pub within : AllWithinSupply txs
    pub balanced : sum_values txs ≡ pos 0
    pub hashed :
        (s : State) × (absorb_bundle fresh txs ≡ ok s)
        × ((out : Trytes × State) × (squeeze_trytes s 243 ≡ ok out) × HasHash (out.0) txs)
    pub signed : validate_bundle_signatures sponge txs ≡ ok true

  last_of :
      (txs : Bundle)
      → 1 ≤ length txs
      → length txs < 2 ^ 63
      → uint64 (pos (length txs) -ℤ pos 1) ≡ length txs - 1
  unfolding uint64 ◌-ℤ◌ ◌+ℤ◌ neg
  last_of txs some_txs room = ground arith

  empty-valid_bundle : valid_bundle sponge [] ≡ ok tt → ⊥
  unfolding valid_bundle check_hash check_loop eqb_ℤ
  empty-valid_bundle e0 =
      let (out, squeezed, e1) = >>=_split (squeeze_trytes fresh 243) _ e0 in panic_not_ok e1

  -- A bundle that ValidBundle accepts, of less than 2^63 transactions whose values are int64, has at
  -- least one, and the indices of all are those of their places. No value is beyond the total supply,
  -- and the values sum up to zero, as integers and not only as words. The first transaction names the
  -- hash of the essences of all, and the signatures are valid.
  pub valid_bundle-IsValid :
      (txs : Bundle)
      → AllInt64 txs
      → length txs < 2 ^ 63
      → valid_bundle sponge txs ≡ ok tt
      → (1 ≤ length txs) × IsValid txs
  unfolding valid_bundle check_hash IsNumbered
  valid_bundle-IsValid [] words room e0 = absurd (empty-valid_bundle e0)
  valid_bundle-IsValid (t ∷ txs) words room e0 =
      let last = uint64 (pos (length (t ∷ txs)) -ℤ pos 1) in
      let (end, looped, e1) =
        >>=_split (check_loop sponge last 0 (pos 0) [] fresh (t ∷ txs)) _ e0 in
      let (sum_passed, e2) = guard_split (not (eqb_ℤ (end.0) (pos 0))) _ e1 in
      let (out, squeezed, e3) = >>=_split (squeeze_trytes (end.1) 243) _ e2 in
      let (hash_passed, e4) = guard_split (not (trytes_eq (out.0) (t.bundle))) _ e3 in
      let (valid, signatures, e5) = >>=_split (validate_bundle_signatures sponge (t ∷ txs)) _ e4 in
      let (valid_passed, e6) = guard_split (not valid) _ e5 in
      let c = check_loop-Checked last 0 (pos 0) [] fresh (t ∷ txs) end words (omega arith) looped in
      let zero_sum : end.0 ≡ pos 0 = ground (arith, sum_passed) in
      (
        omega arith,
        record {
          numbered =
              subst (λ l. Numbered 0 l (t ∷ txs)) (last_of (t ∷ txs) (omega arith) room)
                (c.numbered);
          within = c.within;
          balanced = omega (ints, parts_of_eq (c.sum), parts_of_eq zero_sum);
          hashed = (
            end.1,
            c.absorbed,
            (out, squeezed, trytes_eq→eq (out.0) (t.bundle) (not-false hash_passed)),
          );
          signed = signatures ∙ ap ok (not-false valid_passed);
        },
      )
