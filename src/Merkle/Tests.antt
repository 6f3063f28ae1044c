-- ===== src/Merkle/Tests.antt =====
-- A tree of two leaves that signs: over a sponge that gives back, as hashes, the trits it absorbed last.
use iota_go.Common.{
  ℕ, zero, suc, ◌*◌, ◌≡◌, refl, ap, sym, ◌∙◌, true, List, [], ◌∷◌, ◌++◌, length, replicate, arith,
  ℤ, pos, if◌then◌else◌, int8, int64, uint64, neg, ◌+ℤ◌, ◌-ℤ◌, scale, Bool-cases, inl, inr,
}
use iota_go.Consts.{Result, ok, ◌>>=◌, ok_inj}
use iota_go.Trinary.Trits.{Trits, valid_trit, valid_trits, all_valid_trits}
use iota_go.Trinary.Tryte.{
  is_valid_tryte, must_tryte_to_tryte_value, must_tryte_value_to_tryte, must_trits_to_tryte_value,
  must_put_tryte_trits,
}
use iota_go.Trinary.Convert.{
  Trytes, must_trits_to_trytes, must_trytes_to_trits, trytes_to_trits, trits_to_trytes,
  valid_trytes, all_valid_trytes,
}
use iota_go.Trinary.Convert.RoundTrip.{AllTrits}
use iota_go.Trinary.Number.{
  int_to_trits, int_to_trytes, int_to_trytes_loop, tryte_digit, min_trits, min_trits_loop,
  abs_int64,
}
use iota_go.Trinary.Adder.{add_trits, add_loop, full_add, sum, cons, any}
use iota_go.Guards.{all_trytes, is_trytes_of_exact_length, is_transaction_hash}
use iota_go.Sponge.{Sponge, must}
use iota_go.Signing
use iota_go.Signing.Segments.{IsHash, AreSegments, AreSegments-append}
use iota_go.Signing.Fragments.{SqueezesHashes}
use iota_go.Merkle.{
  index, audit_path, bits_len, parent, calculate_next_layer, layers_loop, calculate_all_layers,
}
use iota_go.Merkle.Sign.{
  MerkleTree, compute_key, compute_address, addresses_loop, calculate_all_addresses,
  create_merkle_tree, sign_loop, signature_fragments, validate_signature_fragments,
}
use iota_go.Merkle.Signed.{
  signature_address-signature_fragments, validate_signature_fragments-signature_fragments,
}

as_trit : ℤ → ℤ
as_trit t = if valid_trit t then t else pos 0

-- n trits, valid and with every 243rd one 0; `k` precede the next one that is 0.
unfoldable as_hash : ℕ → ℕ → Trits → Trits
as_hash zero k ts = []
as_hash (suc n) zero [] = pos 0 ∷ as_hash n 242 []
as_hash (suc n) zero (t ∷ ts) = pos 0 ∷ as_hash n 242 ts
as_hash (suc n) (suc k) [] = pos 0 ∷ as_hash n k []
as_hash (suc n) (suc k) (t ∷ ts) = as_trit t ∷ as_hash n k ts

length-as_hash : (n k : ℕ) (ts : Trits) → length (as_hash n k ts) ≡ n
unfolding as_hash
length-as_hash zero k ts = refl
length-as_hash (suc n) zero [] = ap suc (length-as_hash n 242 [])
length-as_hash (suc n) zero (t ∷ ts) = ap suc (length-as_hash n 242 ts)
length-as_hash (suc n) (suc k) [] = ap suc (length-as_hash n k [])
length-as_hash (suc n) (suc k) (t ∷ ts) = ap suc (length-as_hash n k ts)

as_trit-valid : (t : ℤ) → valid_trit (as_trit t) ≡ true
unfolding as_trit
as_trit-valid t = elim (Bool-cases (valid_trit t)) [
  | inl good ↦ rw (good) good
  | inr bad ↦ rw bad (unfold valid_trit in refl)
]

as_hash-AllTrits : (n k : ℕ) (ts : Trits) → AllTrits (as_hash n k ts)
unfolding as_hash
as_hash-AllTrits zero k ts = tt
as_hash-AllTrits (suc n) zero [] = (unfold valid_trit in refl, as_hash-AllTrits n 242 [])
as_hash-AllTrits (suc n) zero (t ∷ ts) = (unfold valid_trit in refl, as_hash-AllTrits n 242 ts)
as_hash-AllTrits (suc n) (suc k) [] = (unfold valid_trit in refl, as_hash-AllTrits n k [])
as_hash-AllTrits (suc n) (suc k) (t ∷ ts) = (as_trit-valid t, as_hash-AllTrits n k ts)

clear_trits-as_hash :
    (n k : ℕ) (ts : Trits) → Signing.clear_trits k (as_hash n k ts) ≡ as_hash n k ts
unfolding as_hash Signing.clear_trits
clear_trits-as_hash zero k ts = refl
clear_trits-as_hash (suc n) zero [] = ap (λ r. pos 0 ∷ r) (clear_trits-as_hash n 242 [])
clear_trits-as_hash (suc n) zero (t ∷ ts) = ap (λ r. pos 0 ∷ r) (clear_trits-as_hash n 242 ts)
clear_trits-as_hash (suc n) (suc k) [] = ap (λ r. pos 0 ∷ r) (clear_trits-as_hash n k [])
clear_trits-as_hash (suc n) (suc k) (t ∷ ts) = ap (λ r. as_trit t ∷ r) (clear_trits-as_hash n k ts)

abbrev last_hash : Sponge
last_hash = record {
  State = Trits;
  fresh = [];
  absorb = λ s ts. ok ts;
  squeeze = λ s n. ok (as_hash n 242 s, s);
  absorb_trytes = λ s ts. must_trytes_to_trits ts;
  squeeze_trytes = λ s n. must_trits_to_trytes (as_hash n 242 s) >>= λ ts. ok (ts, s);
  length-squeeze = λ s n out s' e. ap (λ p. length p.0) (sym (ok_inj e)) ∙ length-as_hash n 242 s;
}

last_hash-SqueezesHashes : SqueezesHashes last_hash
last_hash-SqueezesHashes s out s' e =
    let same = ap (λ p. p.0) (ok_inj e) in
    rw (← same) (record {
      size = length-as_hash 243 242 s;
      valid = as_hash-AllTrits 243 242 s;
      cleared = clear_trits-as_hash 243 242 s;
    })

abbrev copies : ℕ → Trits → Trits
copies zero ts = []
copies (suc n) ts = ts ++ copies n ts

-- The subseed, for each segment.
abbrev shake : Trits → ℕ → Result Trits
shake entropy level = ok (copies (27 * level) entropy)

abbrev seed : Trytes
seed = replicate 81 b'9'

abbrev second_leaf : Trytes
second_leaf = b'A' ∷ replicate 80 b'9'

abbrev tree : MerkleTree
tree = record {
  depth = 1;
  root = second_leaf;
  layers = (second_leaf ∷ []) ∷ (seed ∷ second_leaf ∷ []) ∷ [];
}

abbrev second_key : Trits
second_key = copies 27 (pos 1 ∷ replicate 242 (pos 0))

key_run : compute_key last_hash shake seed 1 1 ≡ ok second_key
unfolding compute_key Signing.subseed trytes_to_trits must_trytes_to_trits valid_trytes
    all_valid_trytes is_valid_tryte must_tryte_to_tryte_value must_put_tryte_trits int_to_trits
    int_to_trytes int_to_trytes_loop min_trits abs_int64 min_trits_loop must_tryte_value_to_tryte
    tryte_digit add_trits add_loop full_add sum cons any neg ◌+ℤ◌ ◌-ℤ◌ int64 int8 uint64 as_hash
    as_trit valid_trit scale
key_run = refl

abbrev fragment : Trytes
fragment = chars 27
  where
    chars : ℕ → Trytes
    chars zero = []
    chars (suc n) = second_leaf ++ chars n

-- Each segment is hashed 13 times.
sign_run : signature_fragments last_hash shake seed 1 1 seed ≡ ok (fragment ∷ [])
unfolding compute_key Signing.subseed trytes_to_trits must_trytes_to_trits valid_trytes
    all_valid_trytes is_valid_tryte must_tryte_to_tryte_value must_put_tryte_trits int_to_trits
    int_to_trytes int_to_trytes_loop min_trits abs_int64 min_trits_loop must_tryte_value_to_tryte
    tryte_digit add_trits add_loop full_add sum cons any neg ◌+ℤ◌ ◌-ℤ◌ int64 int8 uint64 as_hash
    as_trit valid_trit scale signature_fragments sign_loop Signing.normalized_bundle_hash
    Signing.trytes_to_tryte_values Signing.normalize_fragments Signing.normalize_hash_fragment
    Signing.normalize_loop Signing.sum Signing.signature_fragment Signing.signature_loop
    Signing.hash_chain must_trits_to_trytes must_trits_to_tryte_value is_transaction_hash
    is_trytes_of_exact_length all_trytes
sign_run = refl

tree_run : create_merkle_tree last_hash shake seed 1 (pos 1) ≡ ok tree
unfolding compute_key Signing.subseed trytes_to_trits must_trytes_to_trits valid_trytes
    all_valid_trytes is_valid_tryte must_tryte_to_tryte_value must_put_tryte_trits int_to_trits
    int_to_trytes int_to_trytes_loop min_trits abs_int64 min_trits_loop must_tryte_value_to_tryte
    tryte_digit add_trits add_loop full_add sum cons any neg ◌+ℤ◌ ◌-ℤ◌ int64 int8 uint64 as_hash
    as_trit valid_trit scale create_merkle_tree calculate_all_addresses addresses_loop
    compute_address Signing.digests Signing.digests_loop Signing.digest_segments Signing.address
    Signing.hash_chain trits_to_trytes valid_trits all_valid_trits must must_trits_to_trytes
    must_trits_to_tryte_value is_transaction_hash is_trytes_of_exact_length all_trytes index
    calculate_all_layers bits_len layers_loop calculate_next_layer parent
tree_run = refl

second_hash : as_hash 243 242 (pos 1 ∷ []) ≡ pos 1 ∷ replicate 242 (pos 0)
unfolding as_hash as_trit valid_trit
second_hash = refl

copies-AreSegments : (n : ℕ) (ts : Trits) → IsHash ts → AreSegments n (copies n ts)
copies-AreSegments zero ts h = refl
copies-AreSegments (suc n) ts h =
    AreSegments-append n ts (copies n ts) h (copies-AreSegments n ts h)

second_key-AreSegments : AreSegments 27 second_key
second_key-AreSegments =
    copies-AreSegments 27 (pos 1 ∷ replicate 242 (pos 0))
      (rw (← second_hash) (last_hash-SqueezesHashes (pos 1 ∷ []) _ (pos 1 ∷ []) refl))

hash_run : is_trytes_of_exact_length seed 81 ≡ true
unfolding is_trytes_of_exact_length all_trytes
hash_run = refl

signature_address-signature_fragments_example :
    (Signing.signature_address last_hash (fragment ∷ []) seed
      ≡ compute_address last_hash shake seed 1 1)
    × (length (fragment ∷ []) ≡ 1)
signature_address-signature_fragments_example =
    signature_address-signature_fragments last_hash shake last_hash-SqueezesHashes seed 1 1 seed
      second_key (fragment ∷ []) (omega arith) (omega arith) hash_run key_run second_key-AreSegments
      sign_run

validate_signature_fragments-signature_fragments_example :
    (path : List Trytes) × (audit_path 1 tree.layers 1 ≡ ok path)
    × (validate_signature_fragments last_hash shake tree.root 1 path (fragment ∷ []) seed ≡ ok true)
validate_signature_fragments-signature_fragments_example =
    validate_signature_fragments-signature_fragments last_hash shake last_hash-SqueezesHashes seed 1
      1 1 seed second_key tree (fragment ∷ []) (omega arith) (omega arith) (omega arith)
      (omega arith) (omega arith) hash_run key_run second_key-AreSegments tree_run sign_run
