-- ===== src/Lib.antt =====
-- iota.go: the client library of IOTA, in Go. This library models its core: the ternary numbers that
-- all else is written in, the encodings between bytes and trits, one-time signatures, Merkle trees of
-- signing keys, transactions and bundles of them, and the store that keeps the state of accounts.
--
-- How the parts interact: trits (balanced ternary digits, int8 in Go) and trytes (characters that
-- stand for three trits) are the data of every part. The encodings turn bytes into them. A sponge
-- function (Kerl or Curl) hashes trits; signing makes keys, digests, addresses and signatures with it,
-- and merkle makes trees over addresses and proves membership with audit paths. Transactions are laid
-- out in trits, bundles are lists of them that name the hash of all, and signatures sign that hash.
-- The account store keeps key indices, deposit addresses and the essences of pending transfers.
--
-- The files, and the code that they model (paths from the root of the repository):
-- - Common: shared names. Common/Int and Common/Word are integers over native numbers, and the
--   wrap-around of int8, int64, uint64 and byte, written out where the code can overflow; Common/Dict
--   is Go's maps as lists of entries.
-- - Consts, Consts/Errors: consts/consts.go, consts/errors.go. A Go function that returns an error has
--   a result `ok` or `err`; `panic` is a call that does not return, as of an index out of range.
-- - Trinary: trinary/trinary.go and math/math.go. Trinary/Trits has the slices of trits, Trinary/Tryte
--   the tables and single trytes, Trinary/Convert TritsToTrytes and TrytesToTrits, Trinary/Number
--   MinTrits, IntToTrits, IntToTrytes and their inverses, Trinary/Reverse ReverseTrits, Trinary/Adder
--   AddTrits. Trinary/Value says what trits stand for; Trinary/Tryte/Values and /Groups check facts
--   about single trytes on all of their values.
-- - Encoding/B1t6, Encoding/T5b1, Encoding/Ascii: encoding/b1t6, encoding/t5b1, encoding/ascii.
-- - Guards: guards/guards.go.
-- - Sponge: the interface SpongeFunction of signing/utils/sponge.go, as a record: a state, Absorb,
--   Squeeze and their forms on trytes, and the law that Squeeze gives as many trits as it is asked
--   for. Curl and Kerl are instances; what is proved of signing and merkle holds over every sponge.
-- - Signing: signing/signing.go. Signing/Normalize is about normalised hashes, Signing/Chain about
--   hash chains, Signing/Verify about one fragment, Signing/Segments and Signing/Fragments about whole
--   keys.
-- - Merkle, Merkle/Sign: merkle/merkle_tree.go and merkle/signing.go. Merkle/Words, /Layers, /Audit
--   and /Proof are about trees and audit paths, Merkle/Validate and Merkle/Signed about signatures of
--   leaves. key.Shake stands on SHAKE256, a copy of a third-party package: it is the parameter
--   `shake`, a function from an entropy and a security level to a key.
-- - Checksum: checksum/checksum.go, and Checksum, ValidChecksum and ValidAddress of
--   address/address.go.
-- - Kerl/Bigint: kerl/bigint/bigint.go. Kerl/Bigint/Sums says what words stand for, Kerl/Bigint/Bytes
--   is about their bytes.
-- - Kerl/Convert: kerl/converter.go and kerl/bytes_to_trytes_64bit.go. Kerl/Hash: kerl/kerl.go, over a
--   record `Keccak`, which stands for the copy of a third-party package in kerl/sha3: a state, what it
--   writes, and a sum of 48 bytes. Kerl/Absorbs compares the two forms of absorbing; Kerl/Lengths,
--   /Errors and /Squeezes are about what is squeezed, and make Kerl an instance of Sponge.
-- - Account/Store: account/store/store.go, account/store/inmemory/inmemory.go, and the conditions of
--   account/deposit/deposit.go. Account/Store/Steps is about runs of its methods, /Transfers about
--   each method, /Essence about what is kept of a transaction.
-- - Transaction, Transaction/Objects: transaction/transaction.go, over a sponge, as Curl is. /Fields
--   is about a field of fixed size, /Layout about the fields in a row, /RoundTrip and /Sent about what
--   is written and read, /Reading, /Parts, /Parsed and /Written about what is read and written.
--   Common/Slices is Go's slices and copy.
-- - Bundle: bundle/bundle.go. Bundle itself has entries and transfers, Bundle/Finalize the search for
--   the bundle hash, Bundle/Valid ValidBundle and the signatures, Bundle/Groups
--   GroupTransactionsIntoBundles. /Entries is about AddEntry, /Tags about obsolete tags as numbers,
--   /Search about the search, /Validity about valid bundles, /Chains about groups, /Essences,
--   /Prepared and /Agreement about what is hashed when a bundle is finalised and when it is checked,
--   /Hashing about the sponge that it is hashed with.
-- - Curl: curl/curl.go, curl/common.go and curl/transform.go. /Rounds is about the unrolled transform,
--   /Streams about what is absorbed in pieces, /Returns and /Squeezes about the blocks that are
--   squeezed; the sponge `curl` is an instance of the record Sponge.
-- - The files Examples and Tests apply the theorems to concrete inputs.
--
-- Loops are structural recursion. The search of finalize, which the code bounds by nothing, has
-- rounds, and its result is none when they end first; a theorem says which rounds are enough. Four
-- more have rounds: MinTrits, whose 40 rounds are proved enough for every int64; ReverseTrits, with a
-- round for each trit; the digits that bits.Len counts, with a round for each bit; and the padding
-- before a checksum, which appends 80 characters at most.
--
-- Shared state: the methods of the store hold its lock, so that each is one step, over accounts that
-- have no map in common: ImportAccount keeps the maps of its argument by reference, and the model is
-- of a state whose maps nobody else holds, as ExportAccount makes it, and the goroutines of merkle
-- write to indices of their own, so that they run one by one. A sponge that a call is given is reset
-- when it returns, as the deferred Reset does: the functions take the state to begin with.
--
-- Hypotheses on code that is not modelled: that a sponge gives hashes as Kerl does (243 valid trits,
-- the last of which is 0), and that `shake` gives a key of such hashes, each where a theorem says so;
-- and, of the sponge that hashes bundles, that it absorbs trytes as their trits and refuses a last
-- trit that is not zero, which Bundle/Hashing says of Kerl.
--
-- Not modelled: SHA-3, the conversion of Kerl for machines without a 64-bit division, the assembly
-- variants of Curl and its bit-sliced form, proof of work, the client of a node over HTTP, the
-- persistent stores, floating-point units, the JSON that transactions carry, and, so far,
-- multisignatures.
pub mod Common
pub mod Consts
pub mod Trinary
pub mod Encoding
pub mod Guards
pub mod Sponge
pub mod Signing
pub mod Merkle
pub mod Checksum
pub mod Kerl
pub mod Account
pub mod Transaction
pub mod Bundle
pub mod Curl
