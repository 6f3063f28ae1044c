-- ===== src/Transaction.antt =====
-- transaction/transaction.go: transactions as objects, as trits and as trytes. `TransactionHash` hashes
-- with Curl: here it is the sponge of the section.
pub mod Fields
pub mod Layout
pub mod RoundTrip
pub mod Parsed
pub mod Reading
pub mod Parts
pub mod Written
pub mod Objects
pub mod Sent
pub mod Examples
use iota_go.Common.{
  ℕ, zero, suc, ◌+◌, ◌-◌, ◌*◌, ◌/◌, Bool, true, false, ◌&&◌, not, List, [], ◌∷◌, Option, none, some,
  ltb, leb, ◌==◌, if◌then◌else◌, length, is_empty, take, drop, replicate, slice, copy_at, ℤ, pos,
  int64, uint64,
}
use iota_go.Consts.{
  Result, ok, err, panic, ◌>>=◌, ◌>>◌, invalid_transaction, invalid_value, invalid_index,
  invalid_trytes, hash_trinary_size, tag_trinary_size, transaction_trinary_size,
  transaction_trytes_size, signature_message_fragment_trinary_size, address_trinary_offset,
  value_offset_trinary, value_used_size_trinary, value_size_trinary, obsolete_tag_trinary_offset,
  timestamp_trinary_offset, timestamp_trinary_size, current_index_trinary_offset,
  last_index_trinary_offset, bundle_trinary_offset, trunk_transaction_trinary_offset,
  branch_transaction_trinary_offset, tag_trinary_offset, attachment_timestamp_trinary_offset,
  attachment_timestamp_lower_bound_trinary_offset, attachment_timestamp_upper_bound_trinary_offset,
  nonce_trinary_offset,
}
use iota_go.Trinary.Trits.{Trits, valid_trits, trailing_zeros}
use iota_go.Trinary.Convert.{
  Trytes, trytes_eq, trits_to_trytes, must_trits_to_trytes, must_trytes_to_trits,
}
use iota_go.Trinary.Number.{int_to_trits, trits_to_int}
use iota_go.Guards.{is_trytes_of_exact_length}
use iota_go.Sponge.{Sponge, must}

-- The fields of a uint64 are numbers below 2^64, those of an int64 are integers; nil is none.
pub record Transaction : Type 0 where
  pub hash : Trytes
  pub signature_message_fragment : Trytes
  pub address : Trytes
  pub value : ℤ
  pub obsolete_tag : Trytes
  pub timestamp : ℕ
  pub current_index : ℕ
  pub last_index : ℕ
  pub bundle : Trytes
  pub trunk_transaction : Trytes
  pub branch_transaction : Trytes
  pub tag : Trytes
  pub attachment_timestamp : ℤ
  pub attachment_timestamp_lower_bound : ℤ
  pub attachment_timestamp_upper_bound : ℤ
  pub nonce : Trytes
  pub confirmed : Option Bool
  pub persistence : Option Bool

-- `ParseTransaction` as far as the hash, which is left empty.
unfoldable pub parse_fields : Trits → Result Transaction
parse_fields trits =
    if not (length trits == transaction_trinary_size) then err invalid_transaction else do
      valid_trits trits
      fragment ← must_trits_to_trytes (slice 0 signature_message_fragment_trinary_size trits)
      addr ← trits_to_trytes (slice address_trinary_offset hash_trinary_size trits)
      let worth = trits_to_int (slice value_offset_trinary value_used_size_trinary trits)
      let unused =
          slice (value_offset_trinary + value_used_size_trinary)
            (value_size_trinary - value_used_size_trinary) trits
      if not (trailing_zeros unused == 48) then err invalid_value else do
        obsolete ← must_trits_to_trytes (slice obsolete_tag_trinary_offset tag_trinary_size trits)
        let time =
            uint64 (trits_to_int (slice timestamp_trinary_offset timestamp_trinary_size trits))
        let current =
            uint64 (trits_to_int (slice current_index_trinary_offset timestamp_trinary_size trits))
        let last =
            uint64 (trits_to_int (slice last_index_trinary_offset timestamp_trinary_size trits))
        if ltb last current then err invalid_index else do
          bndl ← must_trits_to_trytes (slice bundle_trinary_offset hash_trinary_size trits)
          trunk ←
              must_trits_to_trytes (slice trunk_transaction_trinary_offset hash_trinary_size trits)
          branch ←
              must_trits_to_trytes (slice branch_transaction_trinary_offset hash_trinary_size trits)
          tg ← must_trits_to_trytes (slice tag_trinary_offset tag_trinary_size trits)
          nnc ← must_trits_to_trytes (slice nonce_trinary_offset tag_trinary_size trits)
          ok (record {
            hash = [];
            signature_message_fragment = fragment;
            address = addr;
            value = worth;
            obsolete_tag = obsolete;
            timestamp = time;
            current_index = current;
            last_index = last;
            bundle = bndl;
            trunk_transaction = trunk;
            branch_transaction = branch;
            tag = tg;
            attachment_timestamp =
                trits_to_int
                  (slice attachment_timestamp_trinary_offset timestamp_trinary_size trits);
            attachment_timestamp_lower_bound = trits_to_int (
                slice attachment_timestamp_lower_bound_trinary_offset timestamp_trinary_size trits);
            attachment_timestamp_upper_bound = trits_to_int (
                slice attachment_timestamp_upper_bound_trinary_offset timestamp_trinary_size trits);
            nonce = nnc;
            confirmed = none;
            persistence = none;
          })

-- The trytes of a field, checked before they are converted.
unfoldable pub field_trits : Trytes → ℕ → Result Trits
field_trits trytes n =
    if not (is_trytes_of_exact_length trytes n)
    then err invalid_trytes
    else must_trytes_to_trits trytes

-- make(Trits, TransactionTrinarySize)
unfoldable pub blank : Trits
blank = replicate transaction_trinary_size (pos 0)

unfoldable pub transaction_to_trits : Transaction → Result Trits
transaction_to_trits t = do
  fragment ←
      field_trits (t.signature_message_fragment) (signature_message_fragment_trinary_size / 3)
  let tr = copy_at 0 blank fragment
  addr ← field_trits (t.address) (hash_trinary_size / 3)
  let tr = copy_at address_trinary_offset tr addr
  worth ← int_to_trits (t.value)
  let tr = copy_at value_offset_trinary tr worth
  obsolete ← field_trits (t.obsolete_tag) (tag_trinary_size / 3)
  let tr = copy_at obsolete_tag_trinary_offset tr obsolete
  time ← int_to_trits (int64 (pos (t.timestamp)))
  let tr = copy_at timestamp_trinary_offset tr time
  if ltb (t.last_index) (t.current_index) then err invalid_index else do
    current ← int_to_trits (int64 (pos (t.current_index)))
    let tr = copy_at current_index_trinary_offset tr current
    last ← int_to_trits (int64 (pos (t.last_index)))
    let tr = copy_at last_index_trinary_offset tr last
    bndl ← field_trits (t.bundle) (hash_trinary_size / 3)
    let tr = copy_at bundle_trinary_offset tr bndl
    trunk ← field_trits (t.trunk_transaction) (hash_trinary_size / 3)
    let tr = copy_at trunk_transaction_trinary_offset tr trunk
    branch ← field_trits (t.branch_transaction) (hash_trinary_size / 3)
    let tr = copy_at branch_transaction_trinary_offset tr branch
    tg ← field_trits (t.tag) (tag_trinary_size / 3)
    let tr = copy_at tag_trinary_offset tr tg
    attached ← int_to_trits (t.attachment_timestamp)
    let tr = copy_at attachment_timestamp_trinary_offset tr attached
    lower ← int_to_trits (t.attachment_timestamp_lower_bound)
    let tr = copy_at attachment_timestamp_lower_bound_trinary_offset tr lower
    upper ← int_to_trits (t.attachment_timestamp_upper_bound)
    let tr = copy_at attachment_timestamp_upper_bound_trinary_offset tr upper
    nnc ← field_trits (t.nonce) (tag_trinary_size / 3)
    ok (copy_at nonce_trinary_offset tr nnc)

unfoldable pub transaction_to_trytes : Transaction → Result Trytes
transaction_to_trytes t = do tr ← transaction_to_trits t; must_trits_to_trytes tr

unfoldable pub must_transaction_to_trytes : Transaction → Result Trytes
must_transaction_to_trytes t = must (transaction_to_trytes t)

unfoldable pub transactions_to_trytes : List Transaction → Result (List Trytes)
transactions_to_trytes [] = ok []
transactions_to_trytes (t ∷ txs) = do
  trytes ← transaction_to_trytes t
  rest ← transactions_to_trytes txs
  ok (trytes ∷ rest)

unfoldable pub must_transactions_to_trytes : List Transaction → Result (List Trytes)
must_transactions_to_trytes [] = ok []
must_transactions_to_trytes (t ∷ txs) = do
  trytes ← must_transaction_to_trytes t
  rest ← must_transactions_to_trytes txs
  ok (trytes ∷ rest)

-- trytes[2279:2295], sixteen 9s
unfoldable pub valid_transaction_trytes : Trytes → Result (Unit {0})
valid_transaction_trytes trytes =
    if not (is_trytes_of_exact_length trytes transaction_trytes_size)
    then err invalid_trytes
    else if not (trytes_eq (slice 2279 16 trytes) (replicate 16 b'9'))
    then err invalid_trytes
    else ok tt

-- A tail transaction is the one with index 0.
unfoldable pub is_tail_transaction : Transaction → Bool
is_tail_transaction t = t.current_index == 0

module _ (sponge : Sponge) where
  open sponge use {State, fresh, absorb_trytes, squeeze_trytes}

  -- curl.HashTrytes
  unfoldable pub hash_trytes : Trytes → Result Trytes
  hash_trytes trytes = do
    s ← absorb_trytes fresh trytes
    out ← squeeze_trytes s hash_trinary_size
    ok (out.0)

  unfoldable pub transaction_hash : Transaction → Result Trytes
  unfolding hash_trytes
  transaction_hash t = do trytes ← must_transaction_to_trytes t; must (hash_trytes trytes)

  unfoldable pub parse_transaction : Trits → Bool → Result Transaction
  unfolding transaction_hash
  parse_transaction trits no_hash = do
    t ← parse_fields trits
    if no_hash then ok t else do h ← transaction_hash t; ok (record t { hash = h })
