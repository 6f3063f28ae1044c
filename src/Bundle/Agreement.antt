-- ===== src/Bundle/Agreement.antt =====
-- A bundle that is finalised has the hash that is computed when it is checked.
use mathlib.Core.Path.{subst}
use iota_go.Common.{
  ◌≤◌, ℕ, zero, suc, ◌≡◌, refl, ap, sym, ◌∙◌, List, [], ◌∷◌, Bool, some, length, set, get_elem?, ℤ,
  pos, row, slice,
}
use iota_go.Consts.{Result, ok, err, panic, >>=_split, ok_inj}
use iota_go.Trinary.Trits.{Trits}
use iota_go.Trinary.Convert.{Trytes, must_trits_to_trytes}
use iota_go.Trinary.Convert.RoundTrip.{AreTrytes, trits_of}
use iota_go.Sponge.{Sponge, must}
use iota_go.Transaction.{Transaction, transaction_to_trits}
use iota_go.Transaction.Layout.{Ready, fields, transaction_to_trits-row}
use iota_go.Bundle.{Bundle}
use iota_go.Bundle.Finalize.{
  Essence, prepare, prepare_all, essence_trytes, first_tag, set_hash, absorb_essences, bundle_hash,
  finalize_rounds,
}
use iota_go.Bundle.Valid.{essence_trits}
use iota_go.Bundle.Validity.{absorb_bundle}
use iota_go.Bundle.Prepared.{AllTagged, AllMatch, Matches-retagged, prepare_rest}
use iota_go.Bundle.Tags.{counted}
use iota_go.Bundle.Search.{
  Finds, accepted, refused, finalize_rounds-set_hash, AllHashed, IsFinal, set_hash-IsFinal,
}
use iota_go.Bundle.Essences.{
  Matches, essence_of, essence_of_long, essence_trytes_lem, AreTrytes-essence_of,
  trits_of-essence_of,
}

abbrev pub AllReady : Bundle → Type 0
AllReady [] = Unit
AllReady (t ∷ txs) = Ready t × AllReady txs

-- Every transaction names the hash.
abbrev pub AllNamed : Trytes → Bundle → Type 0
AllNamed h [] = Unit
AllNamed h (t ∷ txs) = (h ≡ t.bundle) × AllNamed h txs

-- Trytes are absorbed as their trits, and only where the last trit of their first hash is zero.
pub record AbsorbsTrytes (sponge : Sponge) : Type 0 where
  pub same_trits :
      (s s' : sponge.State) (ts : Trytes)
      → AreTrytes ts
      → sponge.absorb_trytes s ts ≡ ok s'
      → sponge.absorb s (trits_of ts) ≡ ok s'
  pub zero_trit :
      (s s' : sponge.State) (ts : Trytes)
      → AreTrytes ts
      → 81 ≤ length ts
      → sponge.absorb_trytes s ts ≡ ok s'
      → get_elem? (trits_of ts) 242 ≡ some (pos 0)

set_same : (xs : Trits) (i : ℕ) (v : ℤ) → get_elem? xs i ≡ some v → set xs i v ≡ xs
set_same [] i v h = refl
set_same (x ∷ xs) zero v h = cc
set_same (x ∷ xs) (suc i) v h = ap (λ t. x ∷ t) (set_same xs i v h)

AllHashed-AllNamed :
    (h : Trytes) (txs us : Bundle) → AllHashed h txs us → AllNamed h us × (length us ≡ length txs)
AllHashed-AllNamed h [] [] all = (tt, refl)
AllHashed-AllNamed h [] (u ∷ us) all = absurd all
AllHashed-AllNamed h (t ∷ txs) [] all = absurd all
AllHashed-AllNamed h (t ∷ txs) (u ∷ us) (same, all) =
    let (named, size) = AllHashed-AllNamed h txs us all in
    ((ap (λ (x : Transaction). x.bundle) (sym same), named), ap suc size)

IsFinal-AllNamed :
    (tag h : Trytes) (t : Transaction) (txs us : Bundle)
    → IsFinal tag h (t ∷ txs) us
    → AllNamed h us × (length us ≡ suc (length txs))
IsFinal-AllNamed tag h t txs [] final = absurd final
IsFinal-AllNamed tag h t txs (u ∷ us) (same, all) =
    let (named, size) = AllHashed-AllNamed h txs us all in
    ((ap (λ (x : Transaction). x.bundle) (sym same), named), ap suc size)

must_ok : {A : Type 0} (r : Result A) (a : A) → must r ≡ ok a → r ≡ ok a
unfolding must
must_ok panic a h = h
must_ok (err e) a h = absurd (cc)
must_ok (ok b) a h = h

module _ (sponge : Sponge) (law : AbsorbsTrytes sponge) where
  open sponge use {State, fresh, absorb, absorb_trytes, squeeze_trytes}

  absorb-essence :
      (s s' : State) (e : Essence) (t : Transaction) (trytes : Trytes)
      → Matches e t
      → Ready t
      → essence_trytes e ≡ ok trytes
      → absorb_trytes s trytes ≡ ok s'
      → (trits : Trits) × (transaction_to_trits t ≡ ok trits)
        × (absorb s (essence_trits trits) ≡ ok s')
  unfolding essence_trits
  absorb-essence s s' e t trytes m ready hashed absorbed =
      let text = essence_of e t m ready in
      let is : text ≡ trytes = ok_inj (sym (essence_trytes_lem e t m ready) ∙ hashed) in
      let taken : absorb_trytes s text ≡ ok s' = ap (absorb_trytes s) is ∙ absorbed in
      let valid = AreTrytes-essence_of e t m ready in
      let trits = trits_of-essence_of e t m ready in
      let long = essence_of_long e t m ready in
      let zeroed : set (slice 6561 486 (row (pos 0) (fields t))) 242 (pos 0) ≡ trits_of text =
        ap (λ ts. set ts 242 (pos 0)) (sym trits)
        ∙ set_same (trits_of text) 242 (pos 0) (law.zero_trit s s' text valid long taken) in
      (
        row (pos 0) (fields t),
        transaction_to_trits-row t ready,
        ap (absorb s) zeroed ∙ law.same_trits s s' text valid taken,
      )

  absorb_essences-bundle :
      (s s' : State) (es : List Essence) (txs : Bundle)
      → AllMatch es txs
      → AllReady txs
      → absorb_essences sponge s es ≡ ok s'
      → absorb_bundle sponge s txs ≡ ok s'
  unfolding absorb_essences absorb_bundle
  absorb_essences-bundle s s' [] [] m ready done = done
  absorb_essences-bundle s s' [] (t ∷ txs) m ready done = absurd m
  absorb_essences-bundle s s' (e ∷ es) [] m ready done = absurd m
  absorb_essences-bundle s s' (e ∷ es) (t ∷ txs) (m, ms) (r, rs) done =
      let (trytes, hashed, h1) = >>=_split (essence_trytes e) _ done in
      let (s1, absorbed, h2) = >>=_split (absorb_trytes s trytes) _ h1 in
      let (trits, written, taken) = absorb-essence s s1 e t trytes m r hashed absorbed in
      rw (written, taken) (absorb_essences-bundle s1 s' es txs ms rs h2)

  -- The search changes the first tag only.
  Finds-tag :
      (validator : Trytes → Result Bool) (k : ℕ) (es fs : List Essence) (h : Trytes)
      → Finds sponge validator k es h fs
      → (e : Essence) (rest : List Essence) → es ≡ e ∷ rest
      → (bundle_hash sponge fs ≡ ok h)
        × ((trits : Trits) × (fs ≡ record e { tag_trits = trits } ∷ rest))
  unfolding counted
  Finds-tag validator k es fs h (accepted es2 h2 hashed valid) e rest is =
      (hashed, (e.tag_trits, is))
  Finds-tag validator k es fs h (refused j es2 h0 h2 fs2 hashed refusal later) e rest is =
      Finds-tag validator j (counted es2) fs2 h2 later _ rest (ap counted is)

  -- A bundle that is finalised, by any test of the hash, whose transactions have every field of its
  -- size as they come out and whose obsolete tags have 27 trytes as they go in: the hash that is
  -- computed when the bundle is checked is squeezed without an error, and is the one that every
  -- transaction names, and there are as many transactions as before. The sponge absorbs trytes as their trits, and refuses a last trit of the first
  -- hash that is not zero, as Kerl does.
  pub absorb_bundle-finalize_rounds :
      (rounds : ℕ) (validator : Trytes → Result Bool) (t : Transaction) (txs out : Bundle)
      → AllTagged txs
      → AllReady out
      → finalize_rounds sponge rounds validator (t ∷ txs) ≡ some (ok out)
      → (s : State) × (absorb_bundle sponge fresh out ≡ ok s)
        × ((found : Trytes × State) × (squeeze_trytes s 243 ≡ ok found)
            × AllNamed (found.0) out
            × (length out ≡ suc (length txs)))
  unfolding prepare_all first_tag set_hash bundle_hash
  absorb_bundle-finalize_rounds rounds validator t txs out texts ready done =
      let (es, prepared, (k, h, fs, tag, more, finds, tagged, is)) =
        finalize_rounds-set_hash sponge validator rounds t txs out done in
      let (e, one, h1) = >>=_split (prepare t) _ prepared in
      let (rest, rests, h2) = >>=_split (prepare_all txs) _ h1 in
      let (hashed, (trits, fs_is)) = Finds-tag validator k es fs h finds e rest (sym (ok_inj h2)) in
      let tag_is : must_trits_to_trytes trits ≡ ok tag = ap first_tag (sym fs_is) ∙ tagged in
      let m : AllMatch fs out =
        subst (λ fs. AllMatch fs out) (sym fs_is)
          (subst (AllMatch (record e { tag_trits = trits } ∷ rest)) (sym is)
            (Matches-retagged t e one trits tag h tag_is, prepare_rest h txs rest rests texts)) in
      let (s, absorbed, h3) = >>=_split (absorb_essences sponge fresh fs) _ hashed in
      let final = subst (IsFinal tag h (t ∷ txs)) (sym is) (set_hash-IsFinal tag h t txs) in
      let named = IsFinal-AllNamed tag h t txs out final in
      let (found, squeezed, h4) = >>=_split (must (squeeze_trytes s 243)) _ h3 in
      (
        s,
        absorb_essences-bundle fresh s fs out m ready absorbed,
        (
          found,
          must_ok _ found squeezed,
          subst (λ g. AllNamed g out) (sym (ok_inj h4)) (named.0),
          named.1,
        ),
      )
