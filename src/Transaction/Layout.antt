-- ===== src/Transaction/Layout.antt =====
-- The trits of a transaction are its fields in a row.
use iota_go.Common.{
  ℕ, ◌*◌, ◌^◌, ◌≤◌, ◌<◌, ◌≡◌, refl, ap, List, [], ◌∷◌, length, le→ltb, arith, ℤ, pos, int64, row,
  write_row, total, Fit, write_row-row,
}
use iota_go.Consts.{ok}
use iota_go.Trinary.Trits.{Trits}
use iota_go.Trinary.Convert.RoundTrip.{trits_of, length-trits_of}
use iota_go.Trinary.Number.{int_to_trits}
use iota_go.Transaction.{Transaction, field_trits, transaction_to_trits, blank}
use iota_go.Transaction.Fields.{
  IsText, IsNumber, field_trits_lem, number_trits, int_to_trits_lem, length-number_trits,
}

-- A uint64 that is written as the int64 of its bits, in 27 trits.
pub record IsCount (n : ℕ) : Type 0 where
  pub word : n < 2 ^ 64
  pub number : IsNumber 27 (int64 (pos n))

-- A transaction whose every field has its size, with the current index at most the last.
pub record Ready (t : Transaction) : Type 0 where
  pub fragment : IsText 2187 (t.signature_message_fragment)
  pub addr : IsText 81 (t.address)
  pub worth : IsNumber 33 (t.value)
  pub obsolete : IsText 27 (t.obsolete_tag)
  pub time : IsCount (t.timestamp)
  pub current : IsCount (t.current_index)
  pub last : IsCount (t.last_index)
  pub order : t.current_index ≤ t.last_index
  pub bndl : IsText 81 (t.bundle)
  pub trunk : IsText 81 (t.trunk_transaction)
  pub branch : IsText 81 (t.branch_transaction)
  pub tg : IsText 27 (t.tag)
  pub attached : IsNumber 27 (t.attachment_timestamp)
  pub lower : IsNumber 27 (t.attachment_timestamp_lower_bound)
  pub upper : IsNumber 27 (t.attachment_timestamp_upper_bound)
  pub nnc : IsText 27 (t.nonce)

unfoldable pub fields : Transaction → List (ℕ × Trits)
fields t =
    (6561, trits_of (t.signature_message_fragment))
    ∷ (243, trits_of (t.address))
    ∷ (81, number_trits (t.value))
    ∷ (81, trits_of (t.obsolete_tag))
    ∷ (27, number_trits (int64 (pos (t.timestamp))))
    ∷ (27, number_trits (int64 (pos (t.current_index))))
    ∷ (27, number_trits (int64 (pos (t.last_index))))
    ∷ (243, trits_of (t.bundle))
    ∷ (243, trits_of (t.trunk_transaction))
    ∷ (243, trits_of (t.branch_transaction))
    ∷ (81, trits_of (t.tag))
    ∷ (27, number_trits (t.attachment_timestamp))
    ∷ (27, number_trits (t.attachment_timestamp_lower_bound))
    ∷ (27, number_trits (t.attachment_timestamp_upper_bound))
    ∷ (81, trits_of (t.nonce))
    ∷ []

module _ (t : Transaction) (ready : Ready t) where
  text_fits : (n : ℕ) (s : List ℕ) → IsText n s → length (trits_of s) ≤ 3 * n
  text_fits n s text = omega (arith, length-trits_of s, text.size)

  worth_fits : length (number_trits (t.value)) ≤ 81
  worth_fits = omega (arith, length-number_trits 33 (t.value) (omega arith) (ready.worth))

  number_fits : (v : ℤ) → IsNumber 27 v → length (number_trits v) ≤ 27
  number_fits v number = length-number_trits 27 v (omega arith) number

  pub fields-Fit : Fit (fields t)
  unfolding fields
  fields-Fit = (
    text_fits 2187 _ (ready.fragment),
    (
      text_fits 81 _ (ready.addr),
      (
        worth_fits,
        (
          text_fits 27 _ (ready.obsolete),
          (
            number_fits _ (ready.time.number),
            (
              number_fits _ (ready.current.number),
              (
                number_fits _ (ready.last.number),
                (
                  text_fits 81 _ (ready.bndl),
                  (
                    text_fits 81 _ (ready.trunk),
                    (
                      text_fits 81 _ (ready.branch),
                      (
                        text_fits 27 _ (ready.tg),
                        (
                          number_fits _ (ready.attached),
                          (
                            number_fits _ (ready.lower),
                            (number_fits _ (ready.upper), (text_fits 27 _ (ready.nnc), tt)),
                          ),
                        ),
                      ),
                    ),
                  ),
                ),
              ),
            ),
          ),
        ),
      ),
    ),
  )

  text : (n : ℕ) (s : List ℕ) → 1 ≤ n → IsText n s → field_trits s n ≡ ok (trits_of s)
  text n s some_trytes h = field_trits_lem s n some_trytes h

  number : (n : ℕ) (v : ℤ) → IsNumber n v → int_to_trits v ≡ ok (number_trits v)
  number n v h = int_to_trits_lem v (h.word)

  whole : 8019 ≡ total (fields t)
  unfolding fields
  whole = refl

  write_row-blank : write_row 0 (fields t) blank ≡ row (pos 0) (fields t)
  unfolding blank
  write_row-blank = write_row-row (pos 0) (fields t) [] 0 8019 fields-Fit refl whole

  pub transaction_to_trits-row : transaction_to_trits t ≡ ok (row (pos 0) (fields t))
  unfolding transaction_to_trits fields
  transaction_to_trits-row =
      rw
        (
          text 2187 _ (omega arith) (ready.fragment),
          text 81 _ (omega arith) (ready.addr),
          number 33 _ (ready.worth),
          text 27 _ (omega arith) (ready.obsolete),
          number 27 _ (ready.time.number),
          le→ltb _ _ (ready.order),
          number 27 _ (ready.current.number),
          number 27 _ (ready.last.number),
          text 81 _ (omega arith) (ready.bndl),
          text 81 _ (omega arith) (ready.trunk),
          text 81 _ (omega arith) (ready.branch),
          text 27 _ (omega arith) (ready.tg),
          number 27 _ (ready.attached),
          number 27 _ (ready.lower),
          number 27 _ (ready.upper),
          text 27 _ (omega arith) (ready.nnc),
        )
        (ap ok write_row-blank)
