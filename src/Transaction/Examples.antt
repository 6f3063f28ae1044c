-- ===== src/Transaction/Examples.antt =====
-- The theorems on transactions at concrete inputs.
use iota_go.Common.{
  ℕ, ℤ, slice, int64, ◌≡◌, refl, true, List, [], ◌∷◌, ◌++◌, none, some, length, replicate, pos,
  negsuc, arith,
}
use iota_go.Consts.{ok}
use iota_go.Trinary.Convert.{Trytes, must_trits_to_trytes, trits_to_trytes}
use iota_go.Guards.{is_trytes_of_exact_length, all_trytes}
use iota_go.Checksum.Examples.{mirror}
use iota_go.Curl.{curl_p81}
use iota_go.Curl.Streams.{curl}
use iota_go.Trinary.Value.{max_value}
use iota_go.Trinary.Trits.{valid_trits, all_valid_trits, valid_trit, trailing_zeros}
use iota_go.Trinary.Tryte.{must_trits_to_tryte_value, must_tryte_value_to_tryte}
use iota_go.Trinary.Number.{trits_to_int}
use iota_go.Transaction.{
  Transaction, parse_transaction, parse_fields, transaction_to_trits, transaction_to_trytes,
}
use iota_go.Transaction.Fields.{IsText, exact_length-IsText}
use iota_go.Transaction.Layout.{Ready}
use iota_go.Transaction.RoundTrip.{parsed}
use iota_go.Transaction.Objects.{supplied, with_hash, as_transaction_object}
use iota_go.Transaction.Sent.{as_transaction_object-transaction_to_trytes}
use iota_go.Transaction.Written.{transaction_to_trits-parse_transaction}

-- The second of three transactions, which spends 5 of an address.
abbrev spending : Transaction
spending = record {
  hash = [];
  signature_message_fragment = b'S' ∷ replicate 2186 b'9';
  address = b'A' ∷ replicate 79 b'B' ++ b'9' ∷ [];
  value = negsuc 4;
  obsolete_tag = b'T' ∷ replicate 26 b'9';
  timestamp = 1545412345;
  current_index = 1;
  last_index = 2;
  bundle = replicate 81 b'C';
  trunk_transaction = replicate 81 b'D';
  branch_transaction = replicate 81 b'E';
  tag = b'T' ∷ replicate 26 b'9';
  attachment_timestamp = pos 1545412345678;
  attachment_timestamp_lower_bound = pos 0;
  attachment_timestamp_upper_bound = pos 3812798742493;
  nonce = replicate 27 b'N';
  confirmed = some true;
  persistence = none;
}

abbrev zeros : List ℤ
zeros = replicate 8019 (pos 0)

abbrev pub zero_transaction : Transaction
zero_transaction = record {
  hash = [];
  signature_message_fragment = replicate 2187 b'9';
  address = replicate 81 b'9';
  value = pos 0;
  obsolete_tag = replicate 27 b'9';
  timestamp = 0;
  current_index = 0;
  last_index = 0;
  bundle = replicate 81 b'9';
  trunk_transaction = replicate 81 b'9';
  branch_transaction = replicate 81 b'9';
  tag = replicate 27 b'9';
  attachment_timestamp = pos 0;
  attachment_timestamp_lower_bound = pos 0;
  attachment_timestamp_upper_bound = pos 0;
  nonce = replicate 27 b'9';
  confirmed = none;
  persistence = none;
}

parse_run : parse_transaction mirror zeros true ≡ ok (zero_transaction)
unfolding parse_transaction parse_fields valid_trits all_valid_trits valid_trit must_trits_to_trytes
    slice must_trits_to_tryte_value must_tryte_value_to_tryte trits_to_trytes trailing_zeros
    trits_to_int int64
parse_run = refl

pub text : (n : ℕ) (s : Trytes) → is_trytes_of_exact_length s n ≡ true → IsText n s
text n s checked = exact_length-IsText s n checked

spending-Ready : Ready spending
unfolding is_trytes_of_exact_length all_trytes int64 max_value
spending-Ready = record {
  fragment = text 2187 _ refl;
  addr = text 81 _ refl;
  worth = record { word = (omega arith, omega arith); fits = omega arith };
  obsolete = text 27 _ refl;
  time = record {
    word = omega arith;
    number = record { word = (omega arith, omega arith); fits = omega arith };
  };
  current = record {
    word = omega arith;
    number = record { word = (omega arith, omega arith); fits = omega arith };
  };
  last = record {
    word = omega arith;
    number = record { word = (omega arith, omega arith); fits = omega arith };
  };
  order = omega arith;
  bndl = text 81 _ refl;
  trunk = text 81 _ refl;
  branch = text 81 _ refl;
  tg = text 27 _ refl;
  attached = record { word = (omega arith, omega arith); fits = omega arith };
  lower = record { word = (omega arith, omega arith); fits = omega arith };
  upper = record { word = (omega arith, omega arith); fits = omega arith };
  nnc = text 27 _ refl;
}

as_transaction_object-transaction_to_trytes_example :
    (trytes : Trytes) × (transaction_to_trytes spending ≡ ok trytes)
    × (length trytes ≡ 2673)
    × (as_transaction_object (curl curl_p81) trytes (some (replicate 81 b'H'))
        ≡ ok (with_hash (some (replicate 81 b'H')) (parsed spending)))
unfolding supplied
as_transaction_object-transaction_to_trytes_example =
    as_transaction_object-transaction_to_trytes (curl curl_p81) (some (replicate 81 b'H')) spending
      spending-Ready

transaction_to_trits-parse_transaction_example :
    Ready zero_transaction × (transaction_to_trits zero_transaction ≡ ok zeros)
transaction_to_trits-parse_transaction_example =
    transaction_to_trits-parse_transaction mirror true zeros zero_transaction parse_run
