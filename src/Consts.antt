-- ===== src/Consts.antt =====
-- consts/consts.go: the constants that the modelled parts use.
mod Errors
pub use Errors.*
use iota_go.Common.{ℕ, ◌+◌, ◌*◌, ◌/◌}

abbrev pub trinary_radix : ℕ
trinary_radix = 3

abbrev pub tryte_radix : ℕ
tryte_radix = 27

abbrev pub trits_per_tryte : ℕ
trits_per_tryte = 3

abbrev pub hash_trinary_size : ℕ
hash_trinary_size = 243

abbrev pub hash_trytes_size : ℕ
hash_trytes_size = hash_trinary_size / 3

abbrev pub hash_bytes_size : ℕ
hash_bytes_size = 48

abbrev pub key_segments_per_fragment : ℕ
key_segments_per_fragment = 27

abbrev pub key_fragment_length : ℕ
key_fragment_length = hash_trinary_size * key_segments_per_fragment

abbrev pub key_segment_hash_rounds : ℕ
key_segment_hash_rounds = 26

abbrev pub address_checksum_trytes_size : ℕ
address_checksum_trytes_size = 9

abbrev pub address_with_checksum_trytes_size : ℕ
address_with_checksum_trytes_size = hash_trytes_size + address_checksum_trytes_size

abbrev pub min_checksum_trytes_size : ℕ
min_checksum_trytes_size = 3

abbrev pub total_supply : ℕ
total_supply = 2779530283277761

abbrev pub tag_trinary_size : ℕ
tag_trinary_size = 81

abbrev pub transaction_trytes_size : ℕ
transaction_trytes_size = 2673

abbrev pub signature_message_fragment_trinary_size : ℕ
signature_message_fragment_trinary_size = 6561

abbrev pub signature_message_fragment_size_in_trytes : ℕ
signature_message_fragment_size_in_trytes = signature_message_fragment_trinary_size / 3

abbrev pub address_trinary_offset : ℕ
address_trinary_offset = 6561

abbrev pub value_offset_trinary : ℕ
value_offset_trinary = address_trinary_offset + hash_trinary_size

abbrev pub value_used_size_trinary : ℕ
value_used_size_trinary = 33

abbrev pub value_size_trinary : ℕ
value_size_trinary = 81

abbrev pub obsolete_tag_trinary_offset : ℕ
obsolete_tag_trinary_offset = value_offset_trinary + value_size_trinary

abbrev pub timestamp_trinary_offset : ℕ
timestamp_trinary_offset = obsolete_tag_trinary_offset + tag_trinary_size

-- the size of a timestamp, and of an index
abbrev pub timestamp_trinary_size : ℕ
timestamp_trinary_size = 27

abbrev pub current_index_trinary_offset : ℕ
current_index_trinary_offset = timestamp_trinary_offset + timestamp_trinary_size

abbrev pub last_index_trinary_offset : ℕ
last_index_trinary_offset = current_index_trinary_offset + timestamp_trinary_size

abbrev pub bundle_trinary_offset : ℕ
bundle_trinary_offset = last_index_trinary_offset + timestamp_trinary_size

abbrev pub trunk_transaction_trinary_offset : ℕ
trunk_transaction_trinary_offset = bundle_trinary_offset + hash_trinary_size

abbrev pub branch_transaction_trinary_offset : ℕ
branch_transaction_trinary_offset = trunk_transaction_trinary_offset + hash_trinary_size

abbrev pub tag_trinary_offset : ℕ
tag_trinary_offset = branch_transaction_trinary_offset + hash_trinary_size

abbrev pub attachment_timestamp_trinary_offset : ℕ
attachment_timestamp_trinary_offset = tag_trinary_offset + tag_trinary_size

abbrev pub attachment_timestamp_lower_bound_trinary_offset : ℕ
attachment_timestamp_lower_bound_trinary_offset =
    attachment_timestamp_trinary_offset + timestamp_trinary_size

abbrev pub attachment_timestamp_upper_bound_trinary_offset : ℕ
attachment_timestamp_upper_bound_trinary_offset =
    attachment_timestamp_lower_bound_trinary_offset + timestamp_trinary_size

abbrev pub nonce_trinary_offset : ℕ
nonce_trinary_offset = attachment_timestamp_upper_bound_trinary_offset + timestamp_trinary_size

abbrev pub transaction_trinary_size : ℕ
transaction_trinary_size = nonce_trinary_offset + tag_trinary_size
