-- ===== src/Transaction/Sent.antt =====
-- Transactions as the trytes that are sent, and the objects that are made of them.
use iota_go.Common.{
  ℕ, zero, suc, ◌*◌, ◌≡◌, refl, ap, sym, ◌∙◌, [], ◌∷◌, Option, length, take, drop, replicate, slice,
  arith, if◌then◌else◌, pos, scale,
}
use iota_go.Consts.{ok, ◌>>=◌, ok_inj}
use iota_go.Trinary.Trits.{Trits}
use iota_go.Trinary.Tryte.Values.{tryte_char}
use iota_go.Trinary.Tryte.{tryte_value}
use iota_go.Trinary.Convert.{Trytes, trytes_eq_refl}
use iota_go.Trinary.Convert.RoundTrip.{
  AllTrits, trits_of, length-trits_of, trytes_of, must_trits_to_trytes_lem,
  must_trytes_to_trits_lem, AreTrytes-trytes_of, trits_of-trytes_of,
}
use iota_go.Sponge.{Sponge}
use iota_go.Transaction.{
  Transaction, transaction_to_trytes, transaction_hash, valid_transaction_trytes,
}
use iota_go.Transaction.Fields.{IsText-exact_length}
use iota_go.Transaction.Layout.{Ready}
use iota_go.Transaction.RoundTrip.{
  parsed, transaction_to_trits-unused, parse_transaction-transaction_to_trits,
}
use iota_go.Transaction.Objects.{supplied, with_hash, as_transaction_object}

three : (i : ℕ) → 3 * suc i ≡ suc (suc (suc (3 * i)))
three i = omega arith

drop-trytes_of : (i : ℕ) (ts : Trits) → drop i (trytes_of ts) ≡ trytes_of (drop (3 * i) ts)
unfolding trytes_of
drop-trytes_of zero ts = refl
drop-trytes_of (suc i) [] = rw (three i) refl
drop-trytes_of (suc i) (a ∷ []) = rw (three i) refl
drop-trytes_of (suc i) (a ∷ b ∷ []) = rw (three i) refl
drop-trytes_of (suc i) (a ∷ b ∷ c ∷ ts) = rw (three i) (drop-trytes_of i ts)

take-trytes_of : (n : ℕ) (ts : Trits) → take n (trytes_of ts) ≡ trytes_of (take (3 * n) ts)
unfolding trytes_of
take-trytes_of zero ts = refl
take-trytes_of (suc i) [] = rw (three i) refl
take-trytes_of (suc i) (a ∷ []) = rw (three i) refl
take-trytes_of (suc i) (a ∷ b ∷ []) = rw (three i) refl
take-trytes_of (suc i) (a ∷ b ∷ c ∷ ts) =
    rw (three i) (ap (λ s. tryte_char (tryte_value a b c) ∷ s) (take-trytes_of i ts))

slice-trytes_of :
    (i n : ℕ) (ts : Trits) → slice i n (trytes_of ts) ≡ trytes_of (slice (3 * i) (3 * n) ts)
unfolding slice
slice-trytes_of i n ts = ap (take n) (drop-trytes_of i ts) ∙ take-trytes_of n (drop (3 * i) ts)

nine : tryte_char (tryte_value (pos 0) (pos 0) (pos 0)) ≡ b'9'
unfolding tryte_char tryte_value scale
nine = refl

nines : (n : ℕ) → trytes_of (replicate (3 * n) (pos 0)) ≡ replicate n b'9'
unfolding trytes_of
nines zero = refl
nines (suc n) = rw (three n, nine) (ap (λ s. b'9' ∷ s) (nines n))

module _ (r : Trits) (size : length r ≡ 8019) (all : AllTrits r) where
  back : trits_of (trytes_of r) ≡ r
  back = trits_of-trytes_of r all (omega (arith, size))

  length-sent : length (trytes_of r) ≡ 2673
  length-sent = omega (arith, length-trits_of (trytes_of r), ap length back, size)

  valid_transaction_trytes-sent :
      slice 6837 48 r ≡ replicate 48 (pos 0) → valid_transaction_trytes (trytes_of r) ≡ ok tt
  unfolding valid_transaction_trytes
  valid_transaction_trytes-sent unused =
      rw
        (
          IsText-exact_length (trytes_of r) 2673 (omega arith)
              (record { valid = AreTrytes-trytes_of r all; size = length-sent }),
          slice-trytes_of 2279 16 r,
          unused,
          nines 16,
          trytes_eq_refl (replicate 16 b'9'),
        )
        refl

-- A transaction whose every field has its size, and whose current index is at most the last, is
-- sent as 2673 trytes, and the object that is made of them has every field that is sent. Its hash is
-- the supplied one or, without one, that of the transaction, and an error of it is the result.
pub as_transaction_object-transaction_to_trytes :
    (sponge : Sponge) (hash : Option Trytes) (t : Transaction)
    → Ready t
    → (trytes : Trytes) × (transaction_to_trytes t ≡ ok trytes)
      × (length trytes ≡ 2673)
      × (as_transaction_object sponge trytes hash ≡ (
          (if supplied hash
            then ok (parsed t)
            else (transaction_hash sponge t >>= λ h. ok (record (parsed t) { hash = h })))
          >>= λ tx. ok (with_hash hash tx)))
unfolding transaction_to_trytes as_transaction_object
as_transaction_object-transaction_to_trytes sponge hash t ready =
    let (r, e, size, all, unused) = transaction_to_trits-unused t ready in
    let (r2, e2, size2, p) =
      parse_transaction-transaction_to_trits t ready sponge (supplied hash) in
    let same : r2 ≡ r = ok_inj (sym e2 ∙ e) in
    (
      trytes_of r,
      rw e (must_trits_to_trytes_lem r all),
      length-sent r size all,
      rw
          (
            valid_transaction_trytes-sent r size all unused,
            must_trytes_to_trits_lem (trytes_of r) (AreTrytes-trytes_of r all),
            back r size all,
            ← same,
            p,
          )
          refl,
    )
