-- ===== src/Encoding/B1t6/RoundTrip.antt =====
-- b1t6: what is encoded decodes to the same bytes, and nothing else decodes.
use iota_go.Common.{
  ℕ, zero, suc, ◌+◌, ◌*◌, ◌≤◌, ◌<◌, ◌≡◌, refl, true, [], ◌∷◌, arith, length, some, Option-cases, ap,
  sym, ◌∙◌, ℤ, inl, inr,
}
use iota_go.Consts.{ok, >>=_split}
use iota_go.Trinary.Trits.{Trits}
use iota_go.Trinary.Tryte.{is_valid_tryte}
use iota_go.Trinary.Tryte.Values.{
  tryte_char, value_to_tryte, tryte_to_value, valid_char, char_value,
}
use iota_go.Trinary.Tryte.Groups.{trit_of, put_value, read_value, split_trits}
use iota_go.Trinary.Convert.{Trytes, must_trytes_to_trits}
use iota_go.Trinary.Convert.RoundTrip.{
  AllTrits, AreTrytes, trits_of, must_trytes_to_trits_lem, char_value-tryte_char,
}
use iota_go.Encoding.B1t6.{
  Bytes, encode_group, decode_group, encode_loop, encode, encode_to_trytes, decode_loop, decode,
  decode_trytes, then_byte,
}
use iota_go.Encoding.B1t6.Group.{decode-encode_group, encode_group-InTryte, encode-decode_group}

abbrev pub AreBytes : Bytes → Type 0
AreBytes [] = Unit
AreBytes (b ∷ bs) = (b < 256) × AreBytes bs

-- The trits and the trytes of bytes, group by group.
unfoldable pub encoded : Bytes → Trits
encoded [] = []
encoded (b ∷ bs) =
    let g = encode_group b in
    trit_of 0 g.0
    ∷ trit_of 1 g.0
    ∷ trit_of 2 g.0
    ∷ trit_of 0 g.1
    ∷ trit_of 1 g.1
    ∷ trit_of 2 g.1
    ∷ encoded bs

unfoldable pub encoded_trytes : Bytes → Trytes
encoded_trytes [] = []
encoded_trytes (b ∷ bs) =
    let g = encode_group b in tryte_char g.0 ∷ tryte_char g.1 ∷ encoded_trytes bs

encode_loop-encoded :
    (dst : Trits) (src : Bytes)
    → AreBytes src
    → length dst ≡ 6 * length src
    → encode_loop dst src ≡ ok (encoded src)
unfolding encode_loop encoded
encode_loop-encoded [] [] h e = refl
encode_loop-encoded (x ∷ dst) [] h e = absurd (omega arith)
encode_loop-encoded (x ∷ y ∷ w ∷ x' ∷ y' ∷ w' ∷ dst) (b ∷ src) (hb, hs) e =
    let (i, j) = encode_group-InTryte b hb in
    rw (
      put_value _ i x y w (x' ∷ y' ∷ w' ∷ dst),
      put_value _ j x' y' w' dst,
      encode_loop-encoded dst src hs (omega arith),
    )
encode_loop-encoded [] (b ∷ src) h e = absurd (omega arith)
encode_loop-encoded (x ∷ []) (b ∷ src) h e = absurd (omega arith)
encode_loop-encoded (x ∷ y ∷ []) (b ∷ src) h e = absurd (omega arith)
encode_loop-encoded (x ∷ y ∷ w ∷ []) (b ∷ src) h e = absurd (omega arith)
encode_loop-encoded (x ∷ y ∷ w ∷ x' ∷ []) (b ∷ src) h e = absurd (omega arith)
encode_loop-encoded (x ∷ y ∷ w ∷ x' ∷ y' ∷ []) (b ∷ src) h e = absurd (omega arith)

decode_loop-encoded :
    (src : Bytes) (room i : ℕ)
    → AreBytes src
    → length src ≤ room
    → decode_loop room i (encoded src) ≡ (src, ok (i + length src))
unfolding decode_loop encoded
decode_loop-encoded [] room i h fits = ap (λ n. ([], ok n)) (omega arith)
decode_loop-encoded (b ∷ src) zero i h fits = absurd (omega arith)
decode_loop-encoded (b ∷ src) (suc room) i (hb, hs) fits =
    let (p, q) = encode_group-InTryte b hb in
    rw
      (
        read_value _ p,
        read_value _ q,
        decode-encode_group b hb,
        decode_loop-encoded src room (i + 1) hs (omega arith),
      )
      (ap (λ n. (b ∷ src, ok n)) (omega arith))

length-encoded : (src : Bytes) → length (encoded src) ≡ length src * 6
unfolding encoded
length-encoded [] = refl
length-encoded (b ∷ src) = omega (arith, length-encoded src)

encoded-AllTrits : (src : Bytes) → AreBytes src → AllTrits (encoded src)
unfolding encoded
encoded-AllTrits [] h = tt
encoded-AllTrits (b ∷ src) (hb, hs) =
    let (p, q) = encode_group-InTryte b hb in
    let s = split_trits _ p in
    let t = split_trits _ q in
    (s.first, (s.second, (s.third, (t.first, (t.second, (t.third, encoded-AllTrits src hs))))))

-- Bytes encoded into a slice of the right length, whatever the slice held, decode to the same bytes.
-- The encoding is six valid trits for each byte.
pub decode-encode :
    (dst : Trits) (src : Bytes)
    → AreBytes src
    → length dst ≡ 6 * length src
    → (trits : Trits) × (encode dst src ≡ ok (trits, length src * 6))
      × (length trits ≡ length src * 6)
      × AllTrits trits
      × (decode (length src) trits ≡ (src, ok (length src)))
unfolding encode decode
decode-encode dst src h e = (
  encoded src,
  rw (encode_loop-encoded dst src h e),
  length-encoded src,
  encoded-AllTrits src h,
  decode_loop-encoded src (length src) 0 h (omega arith) ∙ ap (λ n. (src, ok n)) (omega arith),
)

encode_to_trytes_lem : (src : Bytes) → AreBytes src → encode_to_trytes src ≡ ok (encoded_trytes src)
unfolding encode_to_trytes encoded_trytes
encode_to_trytes_lem [] h = refl
encode_to_trytes_lem (b ∷ src) (hb, hs) =
    let (p, q) = encode_group-InTryte b hb in
    rw (value_to_tryte _ p, value_to_tryte _ q, encode_to_trytes_lem src hs)

decode_trytes-encoded : (src : Bytes) → AreBytes src → decode_trytes (encoded_trytes src) ≡ ok src
unfolding decode_trytes encoded_trytes
decode_trytes-encoded [] h = refl
decode_trytes-encoded (b ∷ src) (hb, hs) =
    let (p, q) = encode_group-InTryte b hb in
    rw (
      (tryte_to_value _ p).0,
      (tryte_to_value _ q).0,
      decode-encode_group b hb,
      decode_trytes-encoded src hs,
    )

trits_of-encoded_trytes : (src : Bytes) → AreBytes src → trits_of (encoded_trytes src) ≡ encoded src
unfolding trits_of encoded_trytes encoded
trits_of-encoded_trytes [] h = refl
trits_of-encoded_trytes (b ∷ src) (hb, hs) =
    let (p, q) = encode_group-InTryte b hb in
    rw (char_value-tryte_char _ p, char_value-tryte_char _ q, trits_of-encoded_trytes src hs)

encoded_trytes-AreTrytes : (src : Bytes) → AreBytes src → AreTrytes (encoded_trytes src)
unfolding encoded_trytes
encoded_trytes-AreTrytes [] h = tt
encoded_trytes-AreTrytes (b ∷ src) (hb, hs) =
    let (p, q) = encode_group-InTryte b hb in
    ((tryte_to_value _ p).1, ((tryte_to_value _ q).1, encoded_trytes-AreTrytes src hs))

-- The trytes of an encoding decode to the bytes, and they are the trytes of the encoding in trits.
pub decode_trytes-encode_to_trytes :
    (dst : Trits) (src : Bytes)
    → AreBytes src
    → length dst ≡ 6 * length src
    → (s : Trytes) × (encode_to_trytes src ≡ ok s)
      × AreTrytes s
      × (decode_trytes s ≡ ok src)
      × (must_trytes_to_trits s ≡ encode_loop dst src)
decode_trytes-encode_to_trytes dst src h e =
    let valid = encoded_trytes-AreTrytes src h in
    (
      encoded_trytes src,
      encode_to_trytes_lem src h,
      valid,
      decode_trytes-encoded src h,
      must_trytes_to_trits_lem _ valid
          ∙ ap ok (trits_of-encoded_trytes src h)
          ∙ sym (encode_loop-encoded dst src h e),
    )

decode_group-IsByte : (t1 t2 : ℤ) (b : ℕ) → decode_group t1 t2 ≡ some b → b < 256
unfolding decode_group
decode_group-IsByte t1 t2 b h = ground arith

-- One group in front of a canonical encoding is canonical.
cons_canonical :
    (c1 c2 b : ℕ) (rest : Trytes) (bs : Bytes)
    → is_valid_tryte c1 ≡ true
    → is_valid_tryte c2 ≡ true
    → decode_group (char_value c1) (char_value c2) ≡ some b
    → (encode_to_trytes bs ≡ ok rest) × AreBytes bs
    → (encode_to_trytes (b ∷ bs) ≡ ok (c1 ∷ c2 ∷ rest)) × AreBytes (b ∷ bs)
unfolding encode_to_trytes
cons_canonical c1 c2 b rest bs h1 h2 e (later, hs) =
    let (v1, i1, back1) = valid_char c1 h1 in
    let (v2, i2, back2) = valid_char c2 h2 in
    let (g1, g2) = encode-decode_group _ _ b i1 i2 e in
    (
      rw (g1, g2, value_to_tryte _ i1, value_to_tryte _ i2, later, back1, back2),
      (decode_group-IsByte _ _ b e, hs),
    )

-- Valid trytes that decode are the encoding of what they decode to: no two decode alike.
pub encode_to_trytes-decode_trytes :
    (s : Trytes) (src : Bytes)
    → AreTrytes s
    → decode_trytes s ≡ ok src
    → (encode_to_trytes src ≡ ok s) × AreBytes src
unfolding decode_trytes
encode_to_trytes-decode_trytes [] src h e =
    let nil : [] ≡ src = cc in rw (← nil) (unfold encode_to_trytes in refl, tt)
encode_to_trytes-decode_trytes (c ∷ []) src h e = absurd (cc)
encode_to_trytes-decode_trytes (c1 ∷ c2 ∷ rest) src (h1, (h2, hs)) e =
    let step : then_byte (decode_group (char_value c1) (char_value c2)) (decode_trytes rest)
        ≡ ok src =
      rw ((valid_char c1 h1).0, (valid_char c2 h2).0) at e in
    elim (Option-cases (decode_group (char_value c1) (char_value c2))) [
      | inl bad ↦ absurd (cc (rw bad at step))
      | inr (b, good) ↦
          let (bs, later, last) = >>=_split (decode_trytes rest) _ {b = src} (rw good at step) in
          let joined : b ∷ bs ≡ src = cc in
          rw (← joined) (
            cons_canonical c1 c2 b rest bs h1 h2 good
              (encode_to_trytes-decode_trytes rest bs hs later))
    ]
