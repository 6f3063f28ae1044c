-- ===== src/Bundle/Valid.antt =====
-- bundle/bundle.go: the signatures of a bundle, and its validity.
use iota_go.Common.{
  ℕ, ◌+◌, ◌-◌, Bool, true, false, ◌||◌, not, List, [], ◌∷◌, ltb, ◌==◌, if◌then◌else◌, length, set,
  slice, none, some, ℤ, pos, ◌+ℤ◌, ◌-ℤ◌, eqb_ℤ, ltb_ℤ, int64, uint64, find, put,
}
use iota_go.Consts.{
  Result, ok, err, panic, ◌>>=◌, total_supply, hash_trinary_size, address_trinary_offset,
  bundle_trinary_offset, invalid_value, invalid_bundle_total_value, invalid_bundle_address_value,
  invalid_bundle, invalid_bundle_hash, invalid_signature,
}
use iota_go.Trinary.Trits.{Trits}
use iota_go.Trinary.Convert.{Trytes, trytes_eq}
use iota_go.Trinary.Number.{abs_int64}
use iota_go.Signing.{validate_signatures}
use iota_go.Sponge.{Sponge}
use iota_go.Transaction.{transaction_to_trits}
use iota_go.Bundle.{Bundle}

-- The fragments of the later transactions of no value with the same address.
unfoldable pub later_fragments : Trytes → Bundle → List Trytes
later_fragments addr [] = []
later_fragments addr (t ∷ txs) =
    let rest = later_fragments addr txs in
    if not (eqb_ℤ (t.value) (pos 0)) || not (trytes_eq (t.address) addr)
    then rest
    else t.signature_message_fragment ∷ rest

-- changes[address], zero where there is none.
unfoldable pub change_of : Trytes → List (Trytes × ℤ) → ℤ
change_of addr changes = elim (find trytes_eq addr changes) [ none ↦ pos 0 | some v ↦ v ]

-- The essence, with the last trit of the address set to zero.
unfoldable pub essence_trits : Trits → Trits
essence_trits trits =
    set (slice address_trinary_offset (bundle_trinary_offset - address_trinary_offset) trits)
      (hash_trinary_size - 1) (pos 0)

abbrev pub over_supply : ℤ → Bool
over_supply v = ltb total_supply (abs_int64 v)

module _ (sponge : Sponge) where
  open sponge use {State, fresh, absorb, squeeze_trytes}

  unfoldable pub validate_bundle_signatures : Bundle → Result Bool
  unfolding later_fragments
  validate_bundle_signatures [] = ok true
  validate_bundle_signatures (t ∷ txs) =
      let rest = validate_bundle_signatures txs in
      let checked = (do
        valid ←
            validate_signatures sponge (t.address)
              (t.signature_message_fragment ∷ later_fragments (t.address) txs) (t.bundle)
        if not valid then ok false else rest) in
      if not (ltb_ℤ (t.value) (pos 0)) then rest else checked

  -- The loop over the transactions: the sum of all values, and the state of the sponge.
  unfoldable pub check_loop : ℕ → ℕ → ℤ → List (Trytes × ℤ) → State → Bundle → Result (ℤ × State)
  unfolding change_of essence_trits
  check_loop last i total changes s [] = ok (total, s)
  check_loop last i total changes s (t ∷ txs) =
      let sum = int64 (total +ℤ t.value) in
      let change = int64 (change_of (t.address) changes +ℤ t.value) in
      let next = λ (s : State).
        check_loop last (i + 1) sum (put trytes_eq (t.address) change changes) s txs in
      if over_supply (t.value)
      then err invalid_value
      else if over_supply sum
      then err invalid_bundle_total_value
      else if over_supply change
      then err invalid_bundle_address_value
      else if not (t.current_index == i)
      then err invalid_bundle
      else if not (t.last_index == last)
      then err invalid_bundle
      else do trits ← transaction_to_trits t; s' ← absorb s (essence_trits trits); next s'

  -- What is done after the loop; the first transaction of an empty bundle panics.
  unfoldable pub check_hash : Bundle → Trytes → Result (Unit {0})
  unfolding validate_bundle_signatures
  check_hash [] hash = panic
  check_hash (t ∷ txs) hash =
      if not (trytes_eq hash (t.bundle)) then err invalid_bundle_hash else do
        valid ← validate_bundle_signatures (t ∷ txs)
        if not valid then err invalid_signature else ok tt

  unfoldable pub valid_bundle : Bundle → Result (Unit {0})
  unfolding check_loop check_hash
  valid_bundle txs = do
    let last = uint64 (pos (length txs) -ℤ pos 1)
    end ← check_loop last 0 (pos 0) [] fresh txs
    if not (eqb_ℤ (end.0) (pos 0))
        then err invalid_bundle
        else do out ← squeeze_trytes (end.1) hash_trinary_size; check_hash txs (out.0)
