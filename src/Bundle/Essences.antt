-- ===== src/Bundle/Essences.antt =====
-- The essence of a transaction: the trytes that are hashed when a bundle is finalised are the trits
-- that are hashed when it is checked.
use iota_go.Common.{
  length, length-append, ℕ, ◌+◌, ◌*◌, ◌≤◌, ◌≡◌, refl, ap, sym, ◌∙◌, [], ◌∷◌, ◌++◌, arith, ℤ, pos,
  int64, row, slice, slice-row, slice-append, field, length-field,
}
use mathlib.Core.Path.{subst}
use iota_go.Consts.{ok, ok_inj}
use iota_go.Trinary.Trits.{Trits}
use iota_go.Trinary.Convert.{Trytes, must_trits_to_trytes}
use iota_go.Trinary.Convert.RoundTrip.{AreTrytes, trits_of, length-trits_of, AllTrits-trits_of}
use iota_go.Trinary.Number.{int_to_trytes}
use iota_go.Trinary.Number.Bounds.{max_value_mono}
use iota_go.Trinary.Number.RoundTrip.{trytes_to_int-int_to_trytes, value-trits_of, max_27-max_value}
use iota_go.Transaction.{Transaction}
use iota_go.Transaction.Fields.{
  IsText, IsNumber, number_trits, Represents-number_trits, length-number_trits, value-field,
  AllTrits-field, field_full,
}
use iota_go.Transaction.Layout.{Ready, fields, fields-Fit}
use iota_go.Transaction.Parsed.{value_inj}
use iota_go.Bundle.Finalize.{Essence, essence_trytes}

trits_of-append : (xs ys : Trytes) → trits_of (xs ++ ys) ≡ trits_of xs ++ trits_of ys
unfolding trits_of
trits_of-append [] ys = refl
trits_of-append (x ∷ xs) ys = rw (trits_of-append xs ys) refl

join :
    (i m n : ℕ) (r : Trits) (xs ys : Trytes)
    → trits_of xs ≡ slice i m r
    → trits_of ys ≡ slice (i + m) n r
    → trits_of (xs ++ ys) ≡ slice i (m + n) r
join i m n r xs ys hx hy =
    trits_of-append xs ys
    ∙ ap (λ ts. ts ++ trits_of ys) hx
    ∙ ap (λ ts. slice i m r ++ ts) hy
    ∙ slice-append i m n r

pub AreTrytes-append : (xs ys : Trytes) → AreTrytes xs → AreTrytes ys → AreTrytes (xs ++ ys)
AreTrytes-append [] ys h k = k
AreTrytes-append (x ∷ xs) ys (hx, hs) k = (hx, AreTrytes-append xs ys hs k)

-- A number in n trytes is the same number in 3 n trits.
pub int_to_trytes-number :
    (n m : ℕ) (v : ℤ) (s : Trytes)
    → 1 ≤ m
    → m ≤ 3 * n
    → IsNumber m v
    → int_to_trytes v n ≡ ok s
    → AreTrytes s × (trits_of s ≡ field (pos 0) (3 * n) (number_trits v))
int_to_trytes-number n m v s some_trits fits number e =
    let wide : IsNumber (3 * n) v = record {
      word = number.word;
      fits = omega (arith, number.fits, max_value_mono m (3 * n) fits);
    } in
    let (s2, e2, len, valid, worth, read) =
      trytes_to_int-int_to_trytes v n (number.word)
        (omega (arith, wide.fits, max_27-max_value n)) in
    let same : s2 ≡ s = ok_inj (sym e2 ∙ e) in
    let trits = number_trits v in
    subst (λ s. AreTrytes s × (trits_of s ≡ field (pos 0) (3 * n) trits)) same
      (
        valid,
        value_inj (trits_of s2) (field (pos 0) (3 * n) trits) (AllTrits-trits_of s2 valid)
            (AllTrits-field (3 * n) trits ((Represents-number_trits v (number.word)).valid))
            (omega (
              arith,
              length-trits_of s2,
              len,
              length-field (pos 0) (3 * n) trits
                  (length-number_trits (3 * n) v (omega (arith, some_trits, fits)) wide),
            ))
            (value-trits_of s2 valid ∙ worth ∙ sym (value-field (3 * n) v wide)),
      )

-- What is hashed of a transaction, when the bundle is finalised.
pub record Matches (e : Essence) (t : Transaction) : Type 0 where
  pub addr : e.essence_address ≡ t.address
  pub worth : int_to_trytes (t.value) 27 ≡ ok (e.worth)
  pub tag : must_trits_to_trytes (e.tag_trits) ≡ ok (t.obsolete_tag)
  pub time : int_to_trytes (int64 (pos (t.timestamp))) 9 ≡ ok (e.time)
  pub current : int_to_trytes (int64 (pos (t.current_index))) 9 ≡ ok (e.current)
  pub last : int_to_trytes (int64 (pos (t.last_index))) 9 ≡ ok (e.last)

module _ (e : Essence) (t : Transaction) (m : Matches e t) (ready : Ready t) where
  unfoldable pub essence_of : Trytes
  essence_of = t.address ++ (e.worth ++ (t.obsolete_tag ++ (e.time ++ (e.current ++ e.last))))

  pub essence_trytes_lem : essence_trytes e ≡ ok essence_of
  unfolding essence_trytes essence_of
  essence_trytes_lem = rw (m.tag, m.addr) refl

  part :
      (v : ℤ) (s : Trytes)
      → IsNumber 27 v
      → int_to_trytes v 9 ≡ ok s
      → AreTrytes s × (trits_of s ≡ field (pos 0) 27 (number_trits v))
  part v s number written = int_to_trytes-number 9 27 v s (omega arith) (omega arith) number written

  worth_part :
      AreTrytes (e.worth) × (trits_of (e.worth) ≡ field (pos 0) 81 (number_trits (t.value)))
  worth_part =
      int_to_trytes-number 27 33 (t.value) (e.worth) (omega arith) (omega arith) (ready.worth)
        (m.worth)

  text_part : (n : ℕ) (s : Trytes) → IsText n s → trits_of s ≡ field (pos 0) (3 * n) (trits_of s)
  text_part n s text =
      sym (field_full (3 * n) (trits_of s) (omega (arith, length-trits_of s, text.size)))

  pub AreTrytes-essence_of : AreTrytes essence_of
  unfolding essence_of
  AreTrytes-essence_of = AreTrytes-append (t.address) _ (ready.addr.valid) (
      AreTrytes-append (e.worth) _ (worth_part.0) (
        AreTrytes-append (t.obsolete_tag) _ (ready.obsolete.valid) (
          AreTrytes-append (e.time) _ ((part _ (e.time) (ready.time.number) (m.time)).0) (
            AreTrytes-append (e.current) _
              ((part _ (e.current) (ready.current.number) (m.current)).0)
              ((part _ (e.last) (ready.last.number) (m.last)).0)))))

  pub essence_of_long : 81 ≤ length essence_of
  unfolding essence_of
  essence_of_long = omega (
    arith,
    ready.addr.size,
    length-append (t.address) (e.worth ++ (t.obsolete_tag ++ (e.time ++ (e.current ++ e.last)))),
  )

  -- The six fields from the address to the last index.
  pub trits_of-essence_of : trits_of essence_of ≡ slice 6561 486 (row (pos 0) (fields t))
  unfolding essence_of fields
  trits_of-essence_of =
      let r = row (pos 0) (fields t) in
      let at = λ (i : ℕ). slice-row (pos 0) (fields t) i (fields-Fit t ready) in
      let addr = text_part 81 (t.address) (ready.addr) ∙ sym (at 1) in
      let worth = (worth_part.1) ∙ sym (at 2) in
      let obsolete = text_part 27 (t.obsolete_tag) (ready.obsolete) ∙ sym (at 3) in
      let time = ((part _ (e.time) (ready.time.number) (m.time)).1) ∙ sym (at 4) in
      let current = ((part _ (e.current) (ready.current.number) (m.current)).1) ∙ sym (at 5) in
      let last = ((part _ (e.last) (ready.last.number) (m.last)).1) ∙ sym (at 6) in
      join 6561 243 243 r (t.address) _ addr (
        join 6804 81 162 r (e.worth) _ worth (
          join 6885 81 81 r (t.obsolete_tag) _ obsolete
            (join 6966 27 54 r (e.time) _ time (join 6993 27 27 r (e.current) _ current last))))
