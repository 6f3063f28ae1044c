-- ===== src/Bundle/Chains.antt =====
-- The bundles that transactions are grouped into.
use iota_go.Common.{
  ℕ, zero, suc, ◌+◌, ◌%◌, ◌<◌, arith, ◌≡◌, refl, ap, sym, ◌∙◌, inl, inr, true, false, not, List, [],
  ◌∷◌, none, some, ◌==◌, get_elem?, pos, pos_part, int64, Bool-cases, Option-cases, if◌then◌else◌,
}
use mathlib.Core.Path.{subst}
use iota_go.Trinary.Convert.{trytes_eq, trytes_eq_refl, trytes_eq→eq}
use iota_go.Transaction.{Transaction}
use iota_go.Bundle.{Bundle}
use iota_go.Bundle.Groups.{
  follows, first_follower, chain_from, bundle_of, group_loop, group_transactions_into_bundles,
}

-- A transaction of the list.
abbrev pub IsIn : Transaction → List Transaction → Type 0
IsIn t txs = (i : ℕ) × (get_elem? txs i ≡ some t)

-- What it is that u comes after t in its bundle. The index is a uint64.
pub record Follows (t u : Transaction) : Type 0 where
  pub same_bundle : t.bundle ≡ u.bundle
  pub next_index : u.current_index ≡ (t.current_index + 1) % 18446744073709551616
  pub trunk : t.trunk_transaction ≡ u.hash

-- The first of the list that comes after t: none of those before it does.
pub record FirstAfter (t u : Transaction) (txs : List Transaction) : Type 0 where
  pub place : ℕ
  pub found : get_elem? txs place ≡ some u
  pub follow : Follows t u
  pub none_before : (i : ℕ) (v : Transaction) → i < place → get_elem? txs i ≡ some v → ¬ Follows t v

-- The transactions after t, n at most: each is the first of txs that comes after the one before it,
-- and the chain ends early only where none of txs does.
pub data Chain (txs : List Transaction) : ℕ → Transaction → List Transaction → Type 0 where
  full : (t : Transaction) → Chain txs 0 t []
  ended :
      (n : ℕ) (t : Transaction)
      → ((u : Transaction) → IsIn u txs → ¬ Follows t u)
      → Chain txs (suc n) t []
  linked :
      (n : ℕ) (t u : Transaction) (rest : List Transaction)
      → FirstAfter t u txs
      → Chain txs n u rest
      → Chain txs (suc n) t (u ∷ rest)

follows-Follows : (t u : Transaction) → follows t u ≡ true → Follows t u
unfolding follows
follows-Follows t u h = record {
  same_bundle = trytes_eq→eq (t.bundle) (u.bundle) (ground arith);
  next_index = ground arith;
  trunk = trytes_eq→eq (t.trunk_transaction) (u.hash) (ground arith);
}

Follows-follows : (t u : Transaction) → Follows t u → follows t u ≡ true
unfolding follows
Follows-follows t u h =
    let b = ap (λ ts. trytes_eq (t.bundle) ts) (sym (h.same_bundle)) ∙ trytes_eq_refl (t.bundle) in
    let k =
      ap (λ ts. trytes_eq (t.trunk_transaction) ts) (sym (h.trunk))
      ∙ trytes_eq_refl (t.trunk_transaction) in
    rw (b, k) (ground (arith, h.next_index))

not_follows : (t u : Transaction) → follows t u ≡ false → ¬ Follows t u
not_follows t u h f = let yes_it = Follows-follows t u f in absurd (cc)

later-FirstAfter :
    (t x u : Transaction) (txs : List Transaction)
    → ¬ Follows t x
    → FirstAfter t u txs
    → FirstAfter t u (x ∷ txs)
later-FirstAfter t x u txs other later = record {
  place = suc (later.place);
  found = later.found;
  follow = later.follow;
  none_before = before;
}
  where
    before :
        (i : ℕ) (v : Transaction)
        → i < suc (later.place)
        → get_elem? (x ∷ txs) i ≡ some v
        → ¬ Follows t v
    before zero v h at f = let same : x ≡ v = cc in other (subst (Follows t) (sym same) f)
    before (suc i) v h at f = later.none_before i v (omega (arith, h)) at f

first_follower-some :
    (t : Transaction) (txs : List Transaction) (u : Transaction)
    → first_follower t txs ≡ some u
    → FirstAfter t u txs
unfolding first_follower
first_follower-some t [] u h = absurd (cc)
first_follower-some t (x ∷ txs) u h = elim (Bool-cases (follows t x)) [
  | inl yes_it ↦
      let same : x ≡ u = cc (rw yes_it at h) in
      record {
        place = 0;
        found = ap some same;
        follow = subst (Follows t) same (follows-Follows t x yes_it);
        none_before = λ i v before at. absurd (omega (arith, before));
      }
  | inr other ↦
      later-FirstAfter t x u txs (not_follows t x other)
        (first_follower-some t txs u (rw other at h))
]

first_follower-none :
    (t : Transaction) (txs : List Transaction)
    → first_follower t txs ≡ none
    → (u : Transaction) → IsIn u txs
    → ¬ Follows t u
unfolding first_follower
first_follower-none t [] h u (i, at) = absurd (cc)
first_follower-none t (x ∷ txs) h u (zero, at) = elim (Bool-cases (follows t x)) [
  | inl yes_it ↦ absurd (cc (rw yes_it at h))
  | inr other ↦ let same : x ≡ u = cc in subst (λ v. ¬ Follows t v) same (not_follows t x other)
]
first_follower-none t (x ∷ txs) h u (suc i, at) = elim (Bool-cases (follows t x)) [
  | inl yes_it ↦ absurd (cc (rw yes_it at h))
  | inr other ↦ first_follower-none t txs (rw other at h) u (i, at)
]

chain_from-Chain :
    (txs : List Transaction) (n : ℕ) (t : Transaction) → Chain txs n t (chain_from n t txs)
unfolding chain_from
chain_from-Chain txs zero t = full t
chain_from-Chain txs (suc n) t = elim (Option-cases (first_follower t txs)) [
  | inl e ↦ rw (chain_from, e) (ended n t (first_follower-none t txs e))
  | inr (u, e) ↦
      rw (chain_from, e) (linked n t u _ (first_follower-some t txs u e) (chain_from-Chain txs n u))
]

-- The tails, in their order.
unfoldable pub tails : List Transaction → List Transaction
tails [] = []
tails (t ∷ txs) = let rest = tails txs in if not (t.current_index == 0) then rest else t ∷ rest

-- Bundles one by one: each has its tail first, and behind it the chain of as many transactions as
-- its last index says, or of all that follow.
abbrev pub AreChains : List Transaction → List Transaction → List Bundle → Type 0
AreChains txs [] [] = Unit
AreChains txs [] (b ∷ bs) = ⊥
AreChains txs (t ∷ ts) [] = ⊥
AreChains txs (t ∷ ts) (b ∷ bs) =
    ((rest : List Transaction) × (b ≡ t ∷ rest)
      × Chain txs (pos_part (int64 (pos (t.last_index)))) t rest)
    × AreChains txs ts bs

group_loop-AreChains : (ts txs : List Transaction) → AreChains txs (tails ts) (group_loop ts txs)
unfolding group_loop tails bundle_of
group_loop-AreChains [] txs = tt
group_loop-AreChains (t ∷ ts) txs = elim (Bool-cases (t.current_index == 0)) [
  | inl tail ↦ rw tail (
    (_, refl, chain_from-Chain txs (pos_part (int64 (pos (t.last_index)))) t),
    group_loop-AreChains ts txs,
  )
  | inr other ↦ rw other (group_loop-AreChains ts txs)
]

-- There is one bundle for each tail, in their order. It begins with the tail, and every transaction
-- after it is the first of the given ones that comes after the one before it: that has the same bundle
-- hash, the next index as a uint64, and the hash that the other names as its trunk. The bundle ends
-- after as many transactions as the last index of the tail says, as an int, or where none of the given
-- ones comes next.
pub group_transactions_into_bundles-AreChains :
    (txs : List Transaction) → AreChains txs (tails txs) (group_transactions_into_bundles txs)
unfolding group_transactions_into_bundles
group_transactions_into_bundles-AreChains txs = group_loop-AreChains txs txs
