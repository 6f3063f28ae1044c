-- ===== src/Common/Dict.antt =====
-- Go's maps as lists of entries, over a Boolean equality of keys.
use mathlib.Core.Path.{◌≡◌, refl, sym, ◌∙◌}
use mathlib.Core.Bool.{Bool, true, false}
use mathlib.Core.Option.{Option, none, some}
use mathlib.Core.List.{List, [], ◌∷◌}
use iota_go.Common.Tests.{if◌then◌else◌, Bool-cases}
use mathlib.Core.Logic.{inl, inr}

-- The laws of an equality test.
pub record IsEquality {ℓ} (K : Type ℓ) (same : K → K → Bool) : Type ℓ where
  pub reflexive : (k : K) → same k k ≡ true
  pub symmetric : (j k : K) → same j k ≡ same k j
  pub transitive : (i j k : K) → same i j ≡ true → same i k ≡ same j k

module _ {ℓ κ} {K : Type ℓ} {V : Type κ} (same : K → K → Bool) where
  unfoldable pub find : K → List (K × V) → Option V
  find key [] = none
  find key (entry ∷ entries) =
      let later = find key entries in if same key entry.0 then some entry.1 else later

  -- Go's `delete`, of a key that may be absent.
  unfoldable pub erase : K → List (K × V) → List (K × V)
  erase key [] = []
  erase key (entry ∷ entries) =
      let later = erase key entries in if same key entry.0 then later else (entry ∷ later)

  unfoldable pub put : K → V → List (K × V) → List (K × V)
  put key v entries = (key, v) ∷ erase key entries

  pub find-erase_self :
      IsEquality K same → (key : K) (m : List (K × V)) → find key (erase key m) ≡ none
  unfolding find erase
  find-erase_self laws key [] = refl
  find-erase_self laws key (entry ∷ m) = elim (Bool-cases (same key entry.0)) [
    | inl hit ↦ rw hit (find-erase_self laws key m)
    | inr miss ↦ rw (miss, miss) (find-erase_self laws key m)
  ]

  pub find-erase_ne :
      IsEquality K same
      → (key other : K) (m : List (K × V)) → same other key ≡ false
      → find other (erase key m) ≡ find other m
  unfolding find erase
  find-erase_ne laws key other [] h = refl
  find-erase_ne laws key other (entry ∷ m) h = elim (Bool-cases (same key entry.0)) [
    | inl hit ↦
        let apart : same other entry.0 ≡ false =
          laws.symmetric other entry.0
          ∙ sym (laws.transitive key entry.0 other hit)
          ∙ laws.symmetric key other
          ∙ h in
        rw (hit, apart) (find-erase_ne laws key other m h)
    | inr miss ↦ rw (miss, find-erase_ne laws key other m h) refl
  ]

  pub find-put_self :
      IsEquality K same → (key : K) (v : V) (m : List (K × V)) → find key (put key v m) ≡ some v
  unfolding find put
  find-put_self laws key v m = rw (laws.reflexive key) refl

  pub find-put_ne :
      IsEquality K same
      → (key other : K) (v : V) (m : List (K × V)) → same other key ≡ false
      → find other (put key v m) ≡ find other m
  unfolding find put
  find-put_ne laws key other v m h = rw h (find-erase_ne laws key other m h)
