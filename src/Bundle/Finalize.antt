-- ===== src/Bundle/Finalize.antt =====
-- bundle/bundle.go: the bundle hash, and the search for an obsolete tag whose hash is accepted.
use iota_go.Common.{
  ℕ, zero, suc, ◌-◌, ◌/◌, Bool, true, false, not, List, [], ◌∷◌, ◌++◌, map, if◌then◌else◌, is_empty,
  get_elem?, set, take, Option, none, some, ℤ, pos, eqb_ℤ, int64,
}
use iota_go.Consts.{
  Result, ok, err, panic, ◌>>=◌, hash_trinary_size, hash_trytes_size, trits_per_tryte,
  value_size_trinary, tag_trinary_size, timestamp_trinary_size,
}
use iota_go.Trinary.Trits.{Trits, must_pad_trits}
use iota_go.Trinary.Convert.{Trytes, must_trytes_to_trits, must_trits_to_trytes}
use iota_go.Trinary.Number.{int_to_trytes}
use iota_go.Trinary.Adder.{add_trits}
use iota_go.Signing.{normalized_bundle_hash}
use iota_go.Sponge.{Sponge, must}
use iota_go.Transaction.{Transaction}
use iota_go.Bundle.{Bundle}

-- A hash that is shorter than 81 trytes panics; what is behind its 81st is cut off when it is changed.
unfoldable pub zero_last_trit : Trytes → Result Trytes
zero_last_trit hash = elim (get_elem? hash (hash_trytes_size - 1)) [
  | none ↦ panic
  | some last ↦ do
    trits ← must_trytes_to_trits (last ∷ [])
    elim (get_elem? trits (trits_per_tryte - 1)) [
      | none ↦ panic
      | some t ↦
          let changed = (do
            tryte ← must_trits_to_trytes (set trits (trits_per_tryte - 1) (pos 0))
            ok (take (hash_trytes_size - 1) hash ++ tryte)) in
          if eqb_ℤ t (pos 0) then ok hash else changed
    ]
]

unfoldable pub has_thirteen : List ℤ → Bool
has_thirteen [] = false
has_thirteen (v ∷ vs) = let rest = has_thirteen vs in if eqb_ℤ v (pos 13) then true else rest

unfoldable pub normalized_hash_has_no_m : Trytes → Result Bool
unfolding has_thirteen
normalized_hash_has_no_m hash = do
  values ← normalized_bundle_hash hash
  ok (not (has_thirteen values))

-- What is prepared of a transaction before the search.
pub record Essence : Type 0 where
  pub essence_address : Trytes
  pub worth : Trytes
  pub tag_trits : Trits
  pub time : Trytes
  pub current : Trytes
  pub last : Trytes

-- The address with a zero trit is computed, and not used.
unfoldable pub prepare : Transaction → Result Essence
unfolding zero_last_trit
prepare t = do
  unused ← zero_last_trit (t.address)
  worth ← int_to_trytes (t.value) (value_size_trinary / trits_per_tryte)
  trits ← must_trytes_to_trits (t.obsolete_tag)
  time ← int_to_trytes (int64 (pos (t.timestamp))) (timestamp_trinary_size / trits_per_tryte)
  current ← int_to_trytes (int64 (pos (t.current_index))) (timestamp_trinary_size / trits_per_tryte)
  last ← int_to_trytes (int64 (pos (t.last_index))) (timestamp_trinary_size / trits_per_tryte)
  ok (record {
    essence_address = t.address;
    worth = worth;
    tag_trits = must_pad_trits trits tag_trinary_size;
    time = time;
    current = current;
    last = last;
  })

unfoldable pub prepare_all : Bundle → Result (List Essence)
unfolding prepare
prepare_all [] = ok []
prepare_all (t ∷ txs) = do e ← prepare t; rest ← prepare_all txs; ok (e ∷ rest)

unfoldable pub essence_trytes : Essence → Result Trytes
essence_trytes e = do
  tag ← must_trits_to_trytes (e.tag_trits)
  ok (e.essence_address ++ (e.worth ++ (tag ++ (e.time ++ (e.current ++ e.last)))))

-- The obsolete tag of the first transaction, plus one.
unfoldable pub next_tag : List Essence → List Essence
next_tag [] = []
next_tag (e ∷ es) = record e { tag_trits = add_trits (e.tag_trits) (pos 1 ∷ []) } ∷ es

unfoldable pub first_tag : List Essence → Result Trytes
first_tag [] = panic
first_tag (e ∷ es) = must_trits_to_trytes (e.tag_trits)

unfoldable pub with_bundle : Trytes → Transaction → Transaction
with_bundle hash t = record t { bundle = hash }

-- The tag of the first transaction, and the hash of all.
unfoldable pub set_hash : Trytes → Trytes → Bundle → Bundle
unfolding with_bundle
set_hash tag hash [] = []
set_hash tag hash (t ∷ txs) =
    record t { obsolete_tag = tag; bundle = hash } ∷ map (with_bundle hash) txs

module _ (sponge : Sponge) where
  open sponge use {State, fresh, absorb_trytes, squeeze_trytes}

  unfoldable pub absorb_essences : State → List Essence → Result State
  absorb_essences s [] = ok s
  absorb_essences s (e ∷ es) = do
    trytes ← essence_trytes e
    s' ← absorb_trytes s trytes
    absorb_essences s' es

  unfoldable pub bundle_hash : List Essence → Result Trytes
  unfolding absorb_essences
  bundle_hash es = do
    s ← absorb_essences fresh es
    out ← must (squeeze_trytes s hash_trinary_size)
    ok (out.0)

  -- The search, which the code bounds by nothing: it is none when the rounds end before it does.
  unfoldable pub search :
      ℕ → (Trytes → Result Bool) → List Essence → Option (Result (Trytes × List Essence))
  search zero validator es = none
  search (suc rounds) validator es =
      let more = search rounds validator (next_tag es) in
      elim (bundle_hash es) [
        | panic ↦ some panic
        | err e ↦ some (err e)
        | ok h ↦ elim (validator h) [
          | panic ↦ some panic
          | err e ↦ some (err e)
          | ok valid ↦ if valid then some (ok (h, es)) else more
        ]
      ]

  unfoldable pub finalize_with :
      ℕ → (Trytes → Result Bool) → Bundle → List Essence → Option (Result Bundle)
  unfolding search set_hash first_tag
  finalize_with rounds validator txs es = elim (search rounds validator es) [
    | none ↦ none
    | some r ↦ some (do found ← r; tag ← first_tag (found.1); ok (set_hash tag (found.0) txs))
  ]

  unfoldable pub finalize_rounds : ℕ → (Trytes → Result Bool) → Bundle → Option (Result Bundle)
  unfolding finalize_with
  finalize_rounds rounds validator txs =
      if is_empty txs then some (ok txs) else elim (prepare_all txs) [
        | panic ↦ some panic
        | err e ↦ some (err e)
        | ok es ↦ finalize_with rounds validator txs es
      ]

  unfoldable pub finalize : ℕ → Bundle → Option (Result Bundle)
  unfolding finalize_rounds
  finalize rounds txs = finalize_rounds rounds normalized_hash_has_no_m txs

  unfoldable pub finalize_insecure : ℕ → Bundle → Option (Result Bundle)
  unfolding finalize_rounds
  finalize_insecure rounds txs = finalize_rounds rounds (λ h. ok true) txs
