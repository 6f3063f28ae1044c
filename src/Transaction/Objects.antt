-- ===== src/Transaction/Objects.antt =====
-- transaction/transaction.go: transactions from trytes, lists of them, and the nonce.
use iota_go.Common.{
  ℕ, ◌-◌, Bool, true, false, not, List, [], ◌∷◌, Option, none, some, if◌then◌else◌, length,
  is_empty, ltb_ℤ, pos, int64,
}
use iota_go.Consts.{Result, ok, ◌>>=◌, ◌>>◌}
use iota_go.Trinary.Trits.{reverse_loop, trailing_zeros}
use iota_go.Trinary.Convert.{Trytes, must_trytes_to_trits}
use iota_go.Sponge.{Sponge}
use iota_go.Transaction.{
  Transaction, parse_transaction, transaction_hash, valid_transaction_trytes,
  transactions_to_trytes, must_transactions_to_trytes,
}

-- The hash that a caller supplies takes the place of the computed one, which is then left out.
unfoldable pub supplied : Option Trytes → Bool
supplied none = false
supplied (some h) = true

unfoldable pub with_hash : Option Trytes → Transaction → Transaction
with_hash none t = t
with_hash (some h) t = record t { hash = h }

-- The swaps at the two ends.
unfoldable pub final_order : List Trytes → List Trytes
final_order trytes = reverse_loop (length trytes) 0 (length trytes - 1) trytes

unfoldable pub final_transaction_trytes : List Transaction → Result (List Trytes)
unfolding final_order
final_transaction_trytes txs = do trytes ← transactions_to_trytes txs; ok (final_order trytes)

unfoldable pub must_final_transaction_trytes : List Transaction → Result (List Trytes)
unfolding final_order
must_final_transaction_trytes txs = do
  trytes ← must_transactions_to_trytes txs
  ok (final_order trytes)

module _ (sponge : Sponge) where
  unfoldable pub as_transaction_object : Trytes → Option Trytes → Result Transaction
  unfolding supplied with_hash
  as_transaction_object trytes hash = do
    valid_transaction_trytes trytes
    trits ← must_trytes_to_trits trytes
    tx ← parse_transaction sponge trits (supplied hash)
    ok (with_hash hash tx)

  -- Where the hashes run out, they are computed.
  unfoldable pub as_transaction_objects : List Trytes → List Trytes → Result (List Transaction)
  as_transaction_objects [] hashes = ok []
  as_transaction_objects (raw ∷ rest) [] = do
    tx ← as_transaction_object raw none
    txs ← as_transaction_objects rest []
    ok (tx ∷ txs)
  as_transaction_objects (raw ∷ rest) (h ∷ hashes) = do
    tx ← as_transaction_object raw (some h)
    txs ← as_transaction_objects rest hashes
    ok (tx ∷ txs)

  -- An empty hash is computed and kept. int(mwm) is the uint64 as an int64.
  unfoldable pub has_valid_nonce : Transaction → ℕ → Result (Bool × Transaction)
  has_valid_nonce t mwm = do
    hash ← if is_empty (t.hash) then transaction_hash sponge t else ok (t.hash)
    let t = record t { hash = hash }
    trits ← must_trytes_to_trits (t.hash)
    ok (not (ltb_ℤ (pos (trailing_zeros trits)) (int64 (pos mwm))), t)
