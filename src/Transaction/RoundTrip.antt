-- ===== src/Transaction/RoundTrip.antt =====
-- Transactions as trits, and back.
use iota_go.Common.{
  Bool, if◌then◌else◌, ℕ, suc, ◌*◌, ◌^◌, ◌<◌, ◌≡◌, refl, ap, sym, ◌∙◌, List, [], ◌∷◌, ◌++◌, none,
  length, replicate, le→ltb, arith, ℤ, pos, int64, uint64, row, field, slice, slice-row,
  slice-slice, slice-back, field_split, length-row, length-field, take_front, take, drop, take-take,
}
use iota_go.Consts.{ok, ◌>>=◌}
use iota_go.Trinary.Trits.{Trits, valid_trits, trailing_zeros}
use iota_go.Trinary.Convert.{Trytes, trits_to_trytes, must_trits_to_trytes}
use iota_go.Trinary.Convert.RoundTrip.{
  AllTrits, AllTrits-trits_of, trits_of, length-trits_of, must_trits_to_trytes-trits_of,
  trits_to_trytes-trits_of, valid_trits_lem,
}
use iota_go.Trinary.Number.{trits_to_int}
use iota_go.Sponge.{Sponge}
use iota_go.Transaction.{
  Transaction, parse_fields, transaction_to_trits, transaction_to_trytes,
  must_transaction_to_trytes, parse_transaction, transaction_hash,
}
use iota_go.Transaction.Fields.{
  IsText, IsNumber, number_trits, Represents-number_trits, length-number_trits, trits_to_int-field,
  AllTrits-append, AllTrits-field, field_full,
}
use iota_go.Transaction.Layout.{IsCount, Ready, fields, fields-Fit, transaction_to_trits-row}

-- What is not read from the trits: the hash, and what a node says of the transaction.
unfoldable pub parsed : Transaction → Transaction
parsed t = record t { hash = []; confirmed = none; persistence = none }

count_back : (n : ℕ) → n < 2 ^ 64 → uint64 (int64 (pos n)) ≡ n
unfolding int64 uint64
count_back n h = ground arith

module _ (r : Trits) where
  read_text :
      (off n : ℕ) (s : Trytes)
      → IsText n s
      → slice off (3 * n) r ≡ field (pos 0) (3 * n) (trits_of s)
      → must_trits_to_trytes (slice off (3 * n) r) ≡ ok s
  read_text off n s text at =
      rw (at, field_full (3 * n) (trits_of s) (omega (arith, length-trits_of s, text.size)))
        (must_trits_to_trytes-trits_of s (text.valid))

  read_address :
      (off n : ℕ) (s : Trytes)
      → IsText (suc n) s
      → slice off (3 * suc n) r ≡ field (pos 0) (3 * suc n) (trits_of s)
      → trits_to_trytes (slice off (3 * suc n) r) ≡ ok s
  read_address off n [] text at = absurd (omega (arith, text.size))
  read_address off n (c ∷ s) text at =
      rw
        (
          at,
          field_full (3 * suc n) (trits_of (c ∷ s))
              (omega (arith, length-trits_of (c ∷ s), text.size)),
        )
        (trits_to_trytes-trits_of c s (text.valid))

  read_number :
      (off n : ℕ) (v : ℤ)
      → IsNumber n v
      → slice off n r ≡ field (pos 0) n (number_trits v)
      → trits_to_int (slice off n r) ≡ v
  read_number off n v number at = rw at (trits_to_int-field n v number)

  read_count :
      (off n : ℕ)
      → IsCount n
      → slice off 27 r ≡ field (pos 0) 27 (number_trits (int64 (pos n)))
      → uint64 (trits_to_int (slice off 27 r)) ≡ n
  read_count off n count at =
      rw (read_number off 27 (int64 (pos n)) (count.number) at) (count_back n (count.word))

  -- The value has 33 of its 81 trits, and the others are zero.
  module _ (v : ℤ) (number : IsNumber 33 v)
      (at : slice 6804 81 r ≡ field (pos 0) 81 (number_trits v)) where
    parts : slice 6804 81 r ≡ field (pos 0) 33 (number_trits v) ++ replicate 48 (pos 0)
    parts =
        at
        ∙ field_split (pos 0) 33 48 (number_trits v) (length-number_trits 33 v (omega arith) number)

    used : length (field (pos 0) 33 (number_trits v)) ≡ 33
    used = length-field (pos 0) 33 (number_trits v) (length-number_trits 33 v (omega arith) number)

    read_value : trits_to_int (slice 6804 33 r) ≡ v
    unfolding slice
    read_value = read_number 6804 33 v number (
        sym (take-take 33 81 (drop 6804 r) (omega arith))
        ∙ ap (take 33) parts
        ∙ take_front _ (replicate 48 (pos 0)) 33 used)

    pub unused_zeros : slice 6837 48 r ≡ replicate 48 (pos 0)
    unused_zeros =
        sym (slice-slice 33 48 6804 81 6837 r refl refl)
        ∙ ap (slice 33 48) parts
        ∙ slice-back (pos 0) 33 48 _ used

    read_unused : trailing_zeros (slice 6837 48 r) ≡ 48
    unfolding trailing_zeros
    read_unused = ap trailing_zeros unused_zeros

abbrev AllFields : List (ℕ × Trits) → Type 0
AllFields [] = Unit
AllFields ((size, src) ∷ fs) = AllTrits src × AllFields fs

AllTrits-row : (fs : List (ℕ × Trits)) → AllFields fs → AllTrits (row (pos 0) fs)
unfolding row
AllTrits-row [] h = tt
AllTrits-row ((size, src) ∷ fs) (h, hs) =
    AllTrits-append (field (pos 0) size src) (row (pos 0) fs) (AllTrits-field size src h)
      (AllTrits-row fs hs)

nonempty-valid_trits :
    (ts : Trits) (n : ℕ) → length ts ≡ suc n → AllTrits ts → valid_trits ts ≡ ok tt
nonempty-valid_trits [] n h all = absurd (omega (arith, h))
nonempty-valid_trits (x ∷ ts) n h all = valid_trits_lem x ts all

module _ (t : Transaction) (ready : Ready t) where
  trits : Trits
  trits = row (pos 0) (fields t)

  fields-AllFields : AllFields (fields t)
  unfolding fields
  fields-AllFields = (
    text (ready.fragment),
    (
      text (ready.addr),
      (
        number (ready.worth),
        (
          text (ready.obsolete),
          (
            number (ready.time.number),
            (
              number (ready.current.number),
              (
                number (ready.last.number),
                (
                  text (ready.bndl),
                  (
                    text (ready.trunk),
                    (
                      text (ready.branch),
                      (
                        text (ready.tg),
                        (
                          number (ready.attached),
                          (number (ready.lower), (number (ready.upper), (text (ready.nnc), tt))),
                        ),
                      ),
                    ),
                  ),
                ),
              ),
            ),
          ),
        ),
      ),
    ),
  )
    where
      text : {n : ℕ} {s : Trytes} → IsText n s → AllTrits (trits_of s)
      text {s = s} h = AllTrits-trits_of s (h.valid)

      number : {n : ℕ} {v : ℤ} → IsNumber n v → AllTrits (number_trits v)
      number {v = v} h = (Represents-number_trits v (h.word)).valid

  length-trits : length trits ≡ 8019
  unfolding fields trits
  length-trits = length-row (pos 0) (fields t) (fields-Fit t ready)

  valid : valid_trits trits ≡ ok tt
  unfolding trits
  valid = nonempty-valid_trits trits 8018 length-trits (AllTrits-row (fields t) fields-AllFields)

  parse_fields-row : parse_fields trits ≡ ok (parsed t)
  unfolding parse_fields fields trits parsed
  parse_fields-row =
      let at = λ (i : ℕ). slice-row (pos 0) (fields t) i (fields-Fit t ready) in
      rw
        (
          length-trits,
          valid,
          read_text trits 0 2187 _ (ready.fragment) (at 0),
          read_address trits 6561 80 _ (ready.addr) (at 1),
          read_unused trits _ (ready.worth) (at 2),
          read_value trits _ (ready.worth) (at 2),
          read_text trits 6885 27 _ (ready.obsolete) (at 3),
          read_count trits 6966 _ (ready.time) (at 4),
          read_count trits 6993 _ (ready.current) (at 5),
          read_count trits 7020 _ (ready.last) (at 6),
          le→ltb _ _ (ready.order),
          read_text trits 7047 81 _ (ready.bndl) (at 7),
          read_text trits 7290 81 _ (ready.trunk) (at 8),
          read_text trits 7533 81 _ (ready.branch) (at 9),
          read_text trits 7776 27 _ (ready.tg) (at 10),
          read_number trits 7857 27 _ (ready.attached) (at 11),
          read_number trits 7884 27 _ (ready.lower) (at 12),
          read_number trits 7911 27 _ (ready.upper) (at 13),
          read_text trits 7938 27 _ (ready.nnc) (at 14),
        )
        refl

  parsed_hash : (sponge : Sponge) → transaction_hash sponge (parsed t) ≡ transaction_hash sponge t
  unfolding transaction_hash must_transaction_to_trytes transaction_to_trytes transaction_to_trits
      parsed
  parsed_hash sponge = refl

  pub transaction_to_trits-unused :
      (r : Trits) × (transaction_to_trits t ≡ ok r)
      × (length r ≡ 8019)
      × AllTrits r
      × (slice 6837 48 r ≡ replicate 48 (pos 0))
  unfolding trits fields
  transaction_to_trits-unused = (
    trits,
    transaction_to_trits-row t ready,
    length-trits,
    AllTrits-row (fields t) fields-AllFields,
    unused_zeros trits _ (ready.worth) (slice-row (pos 0) (fields t) 2 (fields-Fit t ready)),
  )

  -- A transaction whose every field has its size, and whose current index is at most the last, is
  -- written in 8019 trits and parsed back: every field that is sent is as it was. The hash is left
  -- empty or, when it is asked for, is that of the transaction, and an error of it is the result.
  pub parse_transaction-transaction_to_trits :
      (sponge : Sponge) (no_hash : Bool)
      → (trits : Trits) × (transaction_to_trits t ≡ ok trits)
        × (length trits ≡ 8019)
        × (parse_transaction sponge trits no_hash ≡ (
            if no_hash
            then ok (parsed t)
            else (transaction_hash sponge t >>= λ h. ok (record (parsed t) { hash = h }))))
  unfolding trits parse_transaction
  parse_transaction-transaction_to_trits sponge no_hash =
      (trits, transaction_to_trits-row t ready, length-trits, hashed)
    where
      hashed : parse_transaction sponge trits no_hash ≡ (
          if no_hash
          then ok (parsed t)
          else (transaction_hash sponge t >>= λ h. ok (record (parsed t) { hash = h })))
      hashed = rw (parse_fields-row, parsed_hash sponge) refl
