-- ===== src/Bundle/Tests.antt =====
-- The theorems on entries, groups and validity at concrete inputs.
use iota_go.Common.{
  ◌+◌, ◌≤◌, ◌≡◌, refl, inl, [], ◌∷◌, List, length, replicate, negsuc, ◌+ℤ◌, ◌-ℤ◌, neg, scale, find,
  put, erase, copy, copy_at, slice, int64, int8, uint64, arith,
}
use iota_go.Consts.{ok}
use iota_go.Transaction.{Transaction, blank, transaction_to_trits, field_trits}
use iota_go.Transaction.Examples.{zero_transaction}
use iota_go.Bundle.{Bundle, BundleEntry, add_entry, null_hash}
use iota_go.Bundle.Entries.{IsNumbered, sum_values, count_of, add_entry-IsNumbered}
use iota_go.Bundle.Groups.{group_transactions_into_bundles}
use iota_go.Bundle.Chains.{AreChains, tails, group_transactions_into_bundles-AreChains}
use iota_go.Trinary.Tryte.{
  must_tryte_to_tryte_value, must_put_tryte_trits, must_tryte_value_to_tryte,
  must_trits_to_tryte_value,
}
use iota_go.Trinary.Convert.{must_trytes_to_trits, must_trits_to_trytes, trytes_eq}
use iota_go.Trinary.Number.{
  abs_int64, int_to_trits, int_to_trytes, int_to_trytes_loop, min_trits, min_trits_loop,
  tryte_digit,
}
use iota_go.Guards.{is_trytes_of_exact_length, all_trytes}
use iota_go.Bundle.Valid.{
  valid_bundle, check_loop, check_hash, change_of, essence_trits, validate_bundle_signatures,
}
use iota_go.Bundle.Validity.{IsValid, valid_bundle-IsValid}
use iota_go.Bundle.Examples.{first_essence, two}

abbrev spending : BundleEntry
spending = record {
  entry_length = 2;
  entry_address = replicate 81 b'A';
  entry_value = negsuc 99;
  entry_tag = [];
  entry_timestamp = 7;
  fragments = [];
}

add_entry-IsNumbered_example :
    (out : Bundle) × (add_entry 0 two spending ≡ ok out)
    × (length out ≡ length two + count_of spending)
    × IsNumbered out
    × (sum_values out ≡ sum_values two +ℤ negsuc 99)
unfolding IsNumbered count_of
add_entry-IsNumbered_example =
    add_entry-IsNumbered 0 two spending (refl, refl, (refl, refl, tt)) (inl refl) (omega arith)

-- A tail, the transaction behind it, and one of another bundle.
abbrev three : List Transaction
three =
    record zero_transaction { current_index = 1; last_index = 1; hash = replicate 81 b'B' }
    ∷ record zero_transaction { last_index = 1; trunk_transaction = replicate 81 b'B' }
    ∷ record zero_transaction { current_index = 1; bundle = replicate 81 b'C' }
    ∷ []

group_transactions_into_bundles-AreChains_example :
    AreChains three (tails three) (group_transactions_into_bundles three)
group_transactions_into_bundles-AreChains_example = group_transactions_into_bundles-AreChains three

abbrev alone : Bundle
alone = record zero_transaction { bundle = null_hash } ∷ []

valid_run : valid_bundle first_essence alone ≡ ok tt
unfolding valid_bundle check_loop check_hash change_of essence_trits validate_bundle_signatures find
    put erase abs_int64 ◌+ℤ◌ ◌-ℤ◌ neg scale copy copy_at slice int64 int8 uint64 blank
    transaction_to_trits field_trits is_trytes_of_exact_length all_trytes must_trytes_to_trits
    must_tryte_to_tryte_value must_put_tryte_trits int_to_trits int_to_trytes int_to_trytes_loop
    min_trits min_trits_loop tryte_digit must_tryte_value_to_tryte must_trits_to_trytes
    must_trits_to_tryte_value trytes_eq
valid_run = refl

valid_bundle-IsValid_example : (1 ≤ length alone) × IsValid first_essence alone
valid_bundle-IsValid_example =
    valid_bundle-IsValid first_essence alone ((omega arith, omega arith), tt) (omega arith)
      valid_run
