-- ===== src/Bundle/Groups.antt =====
-- bundle/bundle.go: transactions grouped into bundles, and the hash of a bundle's tail.
use iota_go.Common.{
  ℕ, zero, suc, ◌+◌, ◌^◌, ◌%◌, Bool, ◌&&◌, not, List, [], ◌∷◌, ◌==◌, if◌then◌else◌, is_empty,
  Option, none, some, pos, int64, pos_part,
}
use iota_go.Consts.{Result, ok}
use iota_go.Trinary.Convert.{Trytes, trytes_eq}
use iota_go.Sponge.{Sponge}
use iota_go.Transaction.{Transaction, transaction_hash}
use iota_go.Bundle.{Bundle}

-- The transaction that comes after another one in its bundle.
unfoldable pub follows : Transaction → Transaction → Bool
follows current t =
    trytes_eq (current.bundle) (t.bundle)
    && (t.current_index == (current.current_index + 1) % 2 ^ 64)
    && trytes_eq (current.trunk_transaction) (t.hash)

unfoldable pub first_follower : Transaction → List Transaction → Option Transaction
unfolding follows
first_follower current [] = none
first_follower current (t ∷ txs) =
    let later = first_follower current txs in if not (follows current t) then later else some t

-- As many rounds as the last index, or until no transaction follows.
unfoldable pub chain_from : ℕ → Transaction → List Transaction → List Transaction
unfolding first_follower
chain_from zero current txs = []
chain_from (suc n) current txs = elim (first_follower current txs) [
  | none ↦ []
  | some t ↦ t ∷ chain_from n t txs
]

-- int(tx.LastIndex): a uint64 from 2^63 on is negative, and makes no round.
unfoldable pub bundle_of : Transaction → List Transaction → Bundle
unfolding chain_from
bundle_of tail txs = tail ∷ chain_from (pos_part (int64 (pos (tail.last_index)))) tail txs

unfoldable pub group_loop : List Transaction → List Transaction → List Bundle
unfolding bundle_of
group_loop [] txs = []
group_loop (t ∷ rest) txs =
    let later = group_loop rest txs in
    if not (t.current_index == 0) then later else bundle_of t txs ∷ later

unfoldable pub group_transactions_into_bundles : List Transaction → List Bundle
unfolding group_loop
group_transactions_into_bundles txs = group_loop txs txs

unfoldable pub tail_transaction_hash : Sponge → Bundle → Result Trytes
tail_transaction_hash sponge [] = ok []
tail_transaction_hash sponge (t ∷ txs) =
    let later = tail_transaction_hash sponge txs in
    if not (t.current_index == 0)
    then later
    else if not (is_empty (t.hash))
    then ok (t.hash)
    else transaction_hash sponge t
