-- ===== src/Bundle.antt =====
-- bundle/bundle.go: bundle entries, transfers, and the transactions that are made of them. A bundle is the
-- list of its transactions.
pub mod Finalize
pub mod Valid
pub mod Groups
pub mod Entries
pub mod Chains
pub mod Tags
pub mod Search
pub mod Validity
pub mod Essences
pub mod Prepared
pub mod Agreement
pub mod Hashing
pub mod Examples
pub mod Tests
use iota_go.Common.{
  ℕ, zero, suc, ◌+◌, ◌-◌, ◌*◌, ◌/◌, ◌%◌, ◌^◌, Bool, true, false, ◌&&◌, not, List, [], ◌∷◌, ◌++◌,
  map, ltb, leb, ◌==◌, if◌then◌else◌, length, is_empty, replicate, slice, ℤ, pos, int64, uint64,
  ◌-ℤ◌, ltb_ℤ, pos_part, get_elem?, Option, none, some,
}
use iota_go.Consts.{
  Result, ok, err, panic, ◌>>=◌, signature_message_fragment_size_in_trytes, hash_trytes_size,
}
use iota_go.Trinary.Convert.{Trytes, must_pad}
use iota_go.Checksum.{remove_checksum}
use iota_go.Transaction.{Transaction}

abbrev pub Bundle : Type 0
Bundle = List Transaction

abbrev pub null_hash : Trytes
null_hash = replicate hash_trytes_size b'9'

abbrev pub null_tag : Trytes
null_tag = replicate 27 b'9'

abbrev pub null_fragment : Trytes
null_fragment = replicate signature_message_fragment_size_in_trytes b'9'

unfoldable pub pad_tag : Trytes → Trytes
pad_tag tag = must_pad tag 27

-- A nil slice of fragments is the empty one: the code tests for either.
pub record BundleEntry : Type 0 where
  pub entry_length : ℕ
  pub entry_address : Trytes
  pub entry_value : ℤ
  pub entry_tag : Trytes
  pub entry_timestamp : ℕ
  pub fragments : List Trytes

pub record Transfer : Type 0 where
  pub transfer_address : Trytes
  pub transfer_value : ℕ
  pub message : Trytes
  pub transfer_tag : Trytes

-- message[i*2187:(i+1)*2187], for as many i as are left.
unfoldable pub split_fragments : ℕ → ℕ → Trytes → List Trytes
split_fragments zero i msg = []
split_fragments (suc n) i msg =
    slice (i * signature_message_fragment_size_in_trytes) signature_message_fragment_size_in_trytes
      msg
    ∷ split_fragments n (i + 1) msg

-- The quotient of the length is rounded up; a float64 is exact below 2^53.
unfoldable pub message_fragments : ℕ → ℕ
message_fragments n =
    let count =
      (n + signature_message_fragment_size_in_trytes - 1)
      / signature_message_fragment_size_in_trytes in
    if count == 0 then 1 else count

unfoldable pub with_message : Trytes → Transfer → Transfer
with_message msg t = record t { message = msg }

-- The message of a transfer is padded in place: the transfers are given back as they are left.
unfoldable pub transfers_to_bundle_entries :
    ℕ → List Transfer → Result (List BundleEntry × List Transfer)
unfolding split_fragments message_fragments with_message
transfers_to_bundle_entries now [] = ok ([], [])
transfers_to_bundle_entries now (t ∷ ts) = do
  let count = message_fragments (length (t.message))
  addr ← remove_checksum (t.transfer_address)
  let padded = must_pad (t.message) (count * signature_message_fragment_size_in_trytes)
  let entry : BundleEntry = record {
    entry_length = count;
    entry_address = addr;
    entry_value = int64 (pos (t.transfer_value));
    entry_tag = t.transfer_tag;
    entry_timestamp = now;
    fragments = split_fragments count 0 padded;
  }
  rest ← transfers_to_bundle_entries now ts
  ok (entry ∷ rest.0, with_message padded t ∷ rest.1)

-- `now` is the time in seconds that time.Now gives.
unfoldable pub get_bundle_entry_with_defaults : ℕ → BundleEntry → BundleEntry
get_bundle_entry_with_defaults now e =
    let count = if e.entry_length == 0 then 1 else e.entry_length in
    record {
      entry_length = count;
      entry_address = if is_empty (e.entry_address) then null_hash else e.entry_address;
      entry_value = e.entry_value;
      entry_tag = if is_empty (e.entry_tag) then null_tag else e.entry_tag;
      entry_timestamp = if e.entry_timestamp == 0 then now else e.entry_timestamp;
      fragments =
          if is_empty (e.fragments)
          then replicate count null_fragment
          else map (λ f. must_pad f 2187) (e.fragments);
    }

-- A transaction of an entry: the first one has the value.
unfoldable pub entry_transaction : BundleEntry → ℕ → ℕ → ℕ → Trytes → Transaction
unfolding pad_tag
entry_transaction e prev last i fragment = record {
  hash = null_hash;
  signature_message_fragment = fragment;
  address = e.entry_address;
  value = if i == 0 then e.entry_value else pos 0;
  obsolete_tag = pad_tag (e.entry_tag);
  timestamp = e.entry_timestamp;
  current_index = (prev + i) % 2 ^ 64;
  last_index = last;
  bundle = null_hash;
  trunk_transaction = null_hash;
  branch_transaction = null_hash;
  tag = pad_tag (e.entry_tag);
  attachment_timestamp = pos 0;
  attachment_timestamp_lower_bound = pos 0;
  attachment_timestamp_upper_bound = pos 0;
  nonce = null_tag;
  confirmed = none;
  persistence = none;
}

-- The loop over i below the length of the entry: too few fragments panic.
unfoldable pub entry_loop : BundleEntry → ℕ → ℕ → ℕ → ℕ → List Trytes → Result Bundle
unfolding entry_transaction
entry_loop e prev last zero i frags = ok []
entry_loop e prev last (suc n) i [] = panic
entry_loop e prev last (suc n) i (f ∷ frags) = do
  rest ← entry_loop e prev last n (i + 1) frags
  ok (entry_transaction e prev last i f ∷ rest)

unfoldable pub with_last_index : ℕ → Transaction → Transaction
with_last_index last t = record t { last_index = last }

unfoldable pub add_entry : ℕ → Bundle → BundleEntry → Result Bundle
unfolding entry_loop with_last_index
add_entry now txs entry = do
  let e = get_bundle_entry_with_defaults now entry
  let last = (uint64 (pos (length txs) -ℤ pos 1) + e.entry_length) % 2 ^ 64
  added ← entry_loop e (length txs) last (e.entry_length) 0 (e.fragments)
  ok (map (with_last_index last) txs ++ added)

-- fragments[i-offset], where i is from offset to offset+len(fragments); an offset may be negative.
unfoldable pub fragment_at : List Trytes → ℤ → ℕ → Option Trytes
fragment_at frags offset i =
    let found = get_elem? frags (pos_part (pos i -ℤ offset)) in
    if ltb_ℤ (pos i) offset then none else found

unfoldable pub with_fragment : Option Trytes → Transaction → Transaction
with_fragment none t = t
with_fragment (some f) t = record t { signature_message_fragment = must_pad f (27 * 81) }

unfoldable pub add_trytes_loop : ℕ → Bundle → List Trytes → ℤ → Bundle
unfolding fragment_at with_fragment
add_trytes_loop i [] frags offset = []
add_trytes_loop i (t ∷ txs) frags offset =
    with_fragment (fragment_at frags offset i) t ∷ add_trytes_loop (i + 1) txs frags offset

unfoldable pub add_trytes : Bundle → List Trytes → ℤ → Bundle
unfolding add_trytes_loop
add_trytes bndl frags offset = add_trytes_loop 0 bndl frags offset
