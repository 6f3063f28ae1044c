-- ===== src/Transaction/Parsed.antt =====
-- What parsing reads is a transaction that is written as the same trits.
use iota_go.Common.{
  ℕ, ◌*◌, ◌^◌, ◌≤◌, ◌<◌, ◌≡◌, refl, ap, sym, ◌∙◌, [], ◌∷◌, length, field, length-field, arith, ints,
  ℤ, pos, int64_id, pos_part, neg_part, negsuc, abs, parts_of_eq,
}
use iota_go.Consts.{ok}
use iota_go.Trinary.Trits.{Trits}
use iota_go.Trinary.Tryte.Groups.{trit_bounds}
use iota_go.Trinary.Value.{Within, value, max_value, value-Within}
use iota_go.Trinary.Convert.{Trytes, must_trits_to_trytes}
use iota_go.Trinary.Convert.RoundTrip.{
  AllTrits, trits_of, trytes_of, length-trits_of, must_trits_to_trytes_lem, AreTrytes-trytes_of,
  trits_of-trytes_of,
}
use iota_go.Trinary.Number.{trits_to_int}
use iota_go.Trinary.Number.RoundTrip.{trits_to_int-value}
use iota_go.Transaction.Fields.{
  IsText, IsNumber, number_trits, Represents-number_trits, length-number_trits, value-field,
  AllTrits-field,
}

-- n trits have one value each.
pub value_inj :
    (xs ys : Trits)
    → AllTrits xs
    → AllTrits ys
    → length xs ≡ length ys
    → value xs ≡ value ys
    → xs ≡ ys
unfolding value
value_inj [] [] hx hy len e = refl
value_inj [] (y ∷ ys) hx hy len e = absurd (omega (arith, len))
value_inj (x ∷ xs) [] hx hy len e = absurd (omega (arith, len))
value_inj (x ∷ xs) (y ∷ ys) (hx, hxs) (hy, hys) len e =
    let bx = trit_bounds x hx in
    let b2 = trit_bounds y hy in
    let head : x ≡ y = omega (ints, parts_of_eq e, bx, b2) in
    let tail : value xs ≡ value ys = omega (ints, parts_of_eq e, bx, b2) in
    let rest = value_inj xs ys hxs hys (omega (arith, len)) tail in cc

-- The trits of a field of text are those of the trytes that are read from it.
pub reads_text :
    (ts : Trits) (n : ℕ) (s : Trytes)
    → AllTrits ts
    → length ts ≡ 3 * n
    → must_trits_to_trytes ts ≡ ok s
    → IsText n s × (trits_of s ≡ ts)
reads_text ts n s all len e =
    let same : trytes_of ts ≡ s = cc (must_trits_to_trytes_lem ts all) in
    let back : trits_of (trytes_of ts) ≡ ts = trits_of-trytes_of ts all (omega (arith, len)) in
    rw (← same) (
      record {
        valid = AreTrytes-trytes_of ts all;
        size = omega (arith, length-trits_of (trytes_of ts), ap length back, len);
      },
      back,
    )

Within-parts : (m : ℕ) (z : ℤ) → Within m z → (pos_part z ≤ m) × (neg_part z ≤ m) × (abs z ≤ m)
Within-parts m (pos k) w = (omega (arith, w), omega arith, omega (arith, w))
Within-parts m (negsuc k) w = (omega arith, omega (arith, w), omega (arith, w))

module _ (n : ℕ) (some_trits : 1 ≤ n) (small : max_value n < 2 ^ 63) where
  value-IsNumber : (ts : Trits) → AllTrits ts → length ts ≡ n → IsNumber n (value ts)
  value-IsNumber ts all len =
      let w : Within (max_value n) (value ts) = rw (← len) (value-Within ts all) in
      let (p, q, a) = Within-parts (max_value n) (value ts) w in
      record { word = (omega (arith, p, small), omega (arith, q, small)); fits = a }

  -- A field of a number holds the trits of the number that is read from it.
  pub reads-IsNumber :
      (ts : Trits)
      → AllTrits ts
      → length ts ≡ n
      → IsNumber n (trits_to_int ts) × (field (pos 0) n (number_trits (trits_to_int ts)) ≡ ts)
  reads-IsNumber ts all len =
      let number = value-IsNumber ts all len in
      let read : trits_to_int ts ≡ value ts =
        trits_to_int-value ts ∙ int64_id (value ts) (number.word) in
      rw read (
        number,
        value_inj _ ts
            (AllTrits-field n _ ((Represents-number_trits (value ts) (number.word)).valid)) all
            (length-field (pos 0) n _ (length-number_trits n (value ts) some_trits number)
              ∙ sym len)
            (value-field n (value ts) number),
      )
