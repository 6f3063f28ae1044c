-- ===== src/Bundle/Search.antt =====
-- The search for an obsolete tag whose hash is accepted: what it finds, and that it ends.
use iota_go.Common.{
  ℕ, zero, suc, ◌<◌, ◌≡◌, refl, ap, sym, ◌∙◌, inl, inr, Bool, true, false, List, [], ◌∷◌, some, map,
  arith, Option-cases,
}
use mathlib.Core.Path.{subst}
use iota_go.Consts.{Result, ok, ◌>>=◌, Result-cases, ok_inj, >>=_split}
use iota_go.Trinary.Convert.{Trytes}
use iota_go.Sponge.{Sponge}
use iota_go.Transaction.{Transaction}
use iota_go.Bundle.{Bundle}
use iota_go.Bundle.Tags.Prepared.{prepare_all-HasTag}
use iota_go.Bundle.Tags.{
  HasTag, counted, next_tag-counted, counted-HasTag, tag_of, IsMore, IsMore-zero, IsMore-suc,
}
use iota_go.Bundle.Finalize.{
  Essence, prepare_all, first_tag, set_hash, with_bundle, bundle_hash, search, finalize_with,
  finalize_rounds,
}

some_inj : {A : Type 0} {x y : A} → some x ≡ some y → x ≡ y
some_inj same = cc

-- The second list has the transactions of the first, each with the hash and else as it was.
abbrev pub AllHashed : Trytes → Bundle → Bundle → Type 0
AllHashed h [] [] = Unit
AllHashed h [] (u ∷ us) = ⊥
AllHashed h (t ∷ txs) [] = ⊥
AllHashed h (t ∷ txs) (u ∷ us) = (u ≡ record t { bundle = h }) × AllHashed h txs us

-- The same, but that the first transaction has the tag as its obsolete tag too.
abbrev pub IsFinal : Trytes → Trytes → Bundle → Bundle → Type 0
IsFinal tag h [] us = ⊥
IsFinal tag h (t ∷ txs) [] = ⊥
IsFinal tag h (t ∷ txs) (u ∷ us) =
    (u ≡ record t { obsolete_tag = tag; bundle = h }) × AllHashed h txs us

pub set_hash-IsFinal :
    (tag h : Trytes) (t : Transaction) (txs : Bundle)
    → IsFinal tag h (t ∷ txs) (set_hash tag h (t ∷ txs))
unfolding set_hash with_bundle
set_hash-IsFinal tag h t txs = (refl, all_hashed txs)
  where
    all_hashed : (txs : Bundle) → AllHashed h txs (map (with_bundle h) txs)
    all_hashed [] = tt
    all_hashed (t ∷ txs) = (refl, all_hashed txs)

module _ (sponge : Sponge) (validator : Trytes → Result Bool) where
  -- After k tags whose hashes are refused, counted up one by one, one is accepted.
  pub data Finds : ℕ → List Essence → Trytes → List Essence → Type 0 where
    accepted :
        (es : List Essence) (h : Trytes)
        → bundle_hash sponge es ≡ ok h
        → validator h ≡ ok true
        → Finds 0 es h es
    refused :
        (k : ℕ) (es : List Essence) (h : Trytes) (found : Trytes) (fs : List Essence)
        → bundle_hash sponge es ≡ ok h
        → validator h ≡ ok false
        → Finds k (counted es) found fs
        → Finds (suc k) es found fs

  pub search-Finds :
      (k rounds : ℕ) (es : List Essence) (h : Trytes) (fs : List Essence)
      → HasTag es
      → k < rounds
      → Finds k es h fs
      → search sponge rounds validator es ≡ some (ok (h, fs))
  unfolding search
  search-Finds k zero es h fs tag more f = absurd (omega (arith, more))
  search-Finds k (suc rounds) es h fs tag more (accepted es2 h2 e valid) =
      rw (search, e, valid) refl
  search-Finds k (suc rounds) es h fs tag more (refused j es2 h0 h2 fs2 e refusal later) =
      rw (search, e, refusal, next_tag-counted es2 tag)
        (search-Finds j rounds (counted es2) h2 fs2 (counted-HasTag es2 tag) (omega (arith, more))
          later)

  pub Finds-search :
      (rounds : ℕ) (es : List Essence) (h : Trytes) (fs : List Essence)
      → HasTag es
      → search sponge rounds validator es ≡ some (ok (h, fs))
      → (k : ℕ) × (k < rounds) × Finds k es h fs
  unfolding search
  Finds-search zero es h fs tag e = absurd (cc)
  Finds-search (suc rounds) es h fs tag e = elim (Result-cases (bundle_hash sponge es)) [
    | inr (inr r) ↦ absurd (cc (rw (search, r) at e))
    | inr (inl (x, r)) ↦ absurd (cc (rw (search, r) at e))
    | inl (g, r) ↦ elim (Result-cases (validator g)) [
      | inr (inr v) ↦ absurd (cc (rw (search, r, v) at e))
      | inr (inl (x, v)) ↦ absurd (cc (rw (search, r, v) at e))
      | inl (true, v) ↦
          let same : (g, es) ≡ (h, fs) = cc (rw (search, r, v) at e) in
          subst (λ (p : Trytes × List Essence). (k : ℕ) × (k < suc rounds) × Finds k es p.0 p.1)
            same (0, omega arith, accepted es g r v)
      | inl (false, v) ↦
          let (k, more, f) =
            Finds-search rounds (counted es) h fs (counted-HasTag es tag)
              (rw (search, r, v, next_tag-counted es tag) at e) in
          (suc k, omega (arith, more), refused k es g h fs r v f)
    ]
  ]

  -- The search ends: where the tags before the k-th are refused and the k-th is accepted, k + 1
  -- rounds and any more of them finalise the bundle, with the hash and the tag of the k-th.
  pub finalize_rounds-Finds :
      (rounds k : ℕ) (t : Transaction) (txs : Bundle) (es fs : List Essence) (h tag : Trytes)
      → prepare_all (t ∷ txs) ≡ ok es
      → Finds k es h fs
      → first_tag fs ≡ ok tag
      → k < rounds
      → finalize_rounds sponge rounds validator (t ∷ txs) ≡ some (ok (set_hash tag h (t ∷ txs)))
  unfolding finalize_rounds finalize_with
  finalize_rounds-Finds rounds k t txs es fs h tag prepared f tagged more =
      rw
        (
          prepared,
          finalize_with,
          search-Finds k rounds es h fs (prepare_all-HasTag t txs es prepared) more f,
          tagged,
        )
        refl

  -- The tag that is found is greater by the number of those that are refused.
  Finds-IsMore :
      (k : ℕ) (es : List Essence) (h : Trytes) (fs : List Essence)
      → HasTag es
      → Finds k es h fs
      → IsMore k (tag_of es) (tag_of fs)
  unfolding counted
  Finds-IsMore k es h fs tag (accepted es2 h2 hashed valid) = IsMore-zero (tag_of es2)
  Finds-IsMore k [] h fs tag (refused j es2 h0 h2 fs2 hashed refusal later) = absurd tag
  Finds-IsMore k (e ∷ es) h fs tag (refused j es2 h0 h2 fs2 hashed refusal later) =
      IsMore-suc j (e.tag_trits) (tag_of fs2) (tag.0)
        (Finds-IsMore j (counted (e ∷ es)) h2 fs2 (counted-HasTag (e ∷ es) tag) later)

  pub finalize_rounds-set_hash :
      (rounds : ℕ) (t : Transaction) (txs out : Bundle)
      → finalize_rounds sponge rounds validator (t ∷ txs) ≡ some (ok out)
      → (es : List Essence) × (prepare_all (t ∷ txs) ≡ ok es)
        × ((k : ℕ) × (h : Trytes) × (fs : List Essence) × (tag : Trytes) × (k < rounds)
            × Finds k es h fs
            × (first_tag fs ≡ ok tag)
            × (out ≡ set_hash tag h (t ∷ txs)))
  unfolding finalize_rounds finalize_with
  finalize_rounds-set_hash rounds t txs out e = elim (Result-cases (prepare_all (t ∷ txs))) [
    | inr (inr r) ↦ absurd (cc (rw (finalize_rounds, r) at e))
    | inr (inl (x, r)) ↦ absurd (cc (rw (finalize_rounds, r) at e))
    | inl (es, r) ↦
        (es, r, searched es (prepare_all-HasTag t txs es r) (rw (finalize_rounds, r) at e))
  ]
    where
      searched :
          (es : List Essence)
          → HasTag es
          → finalize_with sponge rounds validator (t ∷ txs) es ≡ some (ok out)
          → (k : ℕ) × (h : Trytes) × (fs : List Essence) × (tag : Trytes) × (k < rounds)
            × Finds k es h fs
            × (first_tag fs ≡ ok tag)
            × (out ≡ set_hash tag h (t ∷ txs))
      searched es has e = elim (Option-cases (search sponge rounds validator es)) [
        | inl r ↦ absurd (cc (rw (finalize_with, r) at e))
        | inr (res, r) ↦
            let inner : (res >>= λ found.
            first_tag (found.1) >>= λ tag. ok (set_hash tag (found.0) (t ∷ txs)))
                ≡ ok out =
              some_inj (rw (finalize_with, r) at e) in
            let (found, is_found, rest) = >>=_split res _ inner in
            let (tag, tagged, same) = >>=_split (first_tag (found.1)) _ rest in
            let (k, more, f) =
              Finds-search rounds es (found.0) (found.1) has (r ∙ ap some is_found) in
            (k, found.0, found.1, tag, more, f, tagged, sym (ok_inj same))
      ]

  -- A bundle that is finalised is the one it was but for its bundle hash, which is the same in every
  -- transaction, and for the obsolete tag of the first. The hash is accepted, it is that of the
  -- transactions with the tag, and those of the tags before it, counted up one by one from the tag that
  -- was given, are all refused. As a number, but for carries out of its trits, the tag has grown by how
  -- many are refused.
  pub Finds-finalize_rounds :
      (rounds : ℕ) (t : Transaction) (txs out : Bundle)
      → finalize_rounds sponge rounds validator (t ∷ txs) ≡ some (ok out)
      → (es : List Essence) × (prepare_all (t ∷ txs) ≡ ok es)
        × ((k : ℕ) × (h : Trytes) × (fs : List Essence) × (tag : Trytes) × (k < rounds)
            × Finds k es h fs
            × IsMore k (tag_of es) (tag_of fs)
            × (first_tag fs ≡ ok tag)
            × IsFinal tag h (t ∷ txs) out)
  Finds-finalize_rounds rounds t txs out e =
      let (es, prepared, (k, h, fs, tag, more, finds, tagged, is)) =
        finalize_rounds-set_hash rounds t txs out e in
      let counts = Finds-IsMore k es h fs (prepare_all-HasTag t txs es prepared) finds in
      (
        es,
        prepared,
        (
          k,
          h,
          fs,
          tag,
          more,
          finds,
          counts,
          tagged,
          subst (IsFinal tag h (t ∷ txs)) (sym is) (set_hash-IsFinal tag h t txs),
        ),
      )
