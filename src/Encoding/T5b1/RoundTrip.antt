-- ===== src/Encoding/T5b1/RoundTrip.antt =====
-- t5b1: trits that are encoded decode to the same trits, up to zeros that complete the last group.
use iota_go.Common.{
  ℕ, zero, suc, ◌-◌, ◌*◌, ◌≤◌, ◌<◌, ◌≡◌, refl, true, false, [], ◌∷◌, ◌++◌, arith, length, drop,
  length-drop, replicate, ap, ◌∙◌, ℤ, pos, byte, Bool-cases, inl, inr,
}
use iota_go.Consts.{ok, >>=_split, ok_inj}
use iota_go.Trinary.Trits.{Trits, valid_trit}
use iota_go.Trinary.Tryte.{at}
use iota_go.Trinary.Convert.RoundTrip.{AllTrits}
use iota_go.Encoding.B1t6.{Bytes}
use iota_go.Encoding.B1t6.RoundTrip.{AreBytes}
use iota_go.Encoding.T5b1.{
  encoded_len, group_value, encode, decode, trits_lut, out_of_range, unpack,
}
use iota_go.Encoding.T5b1.Groups.{
  AreFive, group-in_range, group-unpack, trit_at, byte-unpack, byte-trits, tails,
}

-- The bytes of trits, and the trits with their last group completed.
packed : Trits → Bytes
packed (a ∷ b ∷ c ∷ d ∷ e ∷ rest) = byte (group_value a b c d e) ∷ packed rest
packed [] = []
packed (a ∷ []) = byte (group_value a (pos 0) (pos 0) (pos 0) (pos 0)) ∷ []
packed (a ∷ b ∷ []) = byte (group_value a b (pos 0) (pos 0) (pos 0)) ∷ []
packed (a ∷ b ∷ c ∷ []) = byte (group_value a b c (pos 0) (pos 0)) ∷ []
packed (a ∷ b ∷ c ∷ d ∷ []) = byte (group_value a b c d (pos 0)) ∷ []

padded : Trits → Trits
padded (a ∷ b ∷ c ∷ d ∷ e ∷ rest) = a ∷ b ∷ c ∷ d ∷ e ∷ padded rest
padded [] = []
padded (a ∷ []) = a ∷ pos 0 ∷ pos 0 ∷ pos 0 ∷ pos 0 ∷ []
padded (a ∷ b ∷ []) = a ∷ b ∷ pos 0 ∷ pos 0 ∷ pos 0 ∷ []
padded (a ∷ b ∷ c ∷ []) = a ∷ b ∷ c ∷ pos 0 ∷ pos 0 ∷ []
padded (a ∷ b ∷ c ∷ d ∷ []) = a ∷ b ∷ c ∷ d ∷ pos 0 ∷ []

abbrev missing : ℕ → ℕ
missing n = 5 * encoded_len n - n

padded_lem : (ts : Trits) → padded ts ≡ ts ++ replicate (missing (length ts)) (pos 0)
unfolding padded
padded_lem (a ∷ b ∷ c ∷ d ∷ e ∷ rest) =
    ap (λ r. a ∷ b ∷ c ∷ d ∷ e ∷ r)
      (padded_lem rest ∙ ap (λ n. rest ++ replicate n (pos 0)) (omega arith))
padded_lem [] = refl
padded_lem (a ∷ []) = refl
padded_lem (a ∷ b ∷ []) = refl
padded_lem (a ∷ b ∷ c ∷ []) = refl
padded_lem (a ∷ b ∷ c ∷ d ∷ []) = refl

length-packed : (ts : Trits) → length (packed ts) ≡ encoded_len (length ts)
unfolding packed
length-packed (a ∷ b ∷ c ∷ d ∷ e ∷ rest) = omega (arith, length-packed rest)
length-packed [] = refl
length-packed (a ∷ []) = refl
length-packed (a ∷ b ∷ []) = refl
length-packed (a ∷ b ∷ c ∷ []) = refl
length-packed (a ∷ b ∷ c ∷ d ∷ []) = refl

encode-packed :
    (ts : Trits) (room : ℕ) → encoded_len (length ts) ≤ room → encode room ts ≡ ok (packed ts)
unfolding encode packed
encode-packed (a ∷ b ∷ c ∷ d ∷ e ∷ rest) zero h = absurd (omega arith)
encode-packed (a ∷ b ∷ c ∷ d ∷ e ∷ rest) (suc room) h = rw (encode-packed rest room (omega arith))
encode-packed [] room h = refl
encode-packed (a ∷ []) zero h = absurd (omega arith)
encode-packed (a ∷ []) (suc room) h = rw (tails a a a a).0
encode-packed (a ∷ b ∷ []) zero h = absurd (omega arith)
encode-packed (a ∷ b ∷ []) (suc room) h = rw (tails a b a a).1
encode-packed (a ∷ b ∷ c ∷ []) zero h = absurd (omega arith)
encode-packed (a ∷ b ∷ c ∷ []) (suc room) h = rw (tails a b c a).2
encode-packed (a ∷ b ∷ c ∷ d ∷ []) zero h = absurd (omega arith)
encode-packed (a ∷ b ∷ c ∷ d ∷ []) (suc room) h = rw (tails a b c d).3

-- One byte in front.
decode_step :
    (b : ℕ) (group dst rest : Trits) (src : Bytes)
    → out_of_range b ≡ false
    → at trits_lut b ≡ ok group
    → 5 ≤ length dst
    → decode (drop 5 dst) src ≡ ok rest
    → decode dst (b ∷ src) ≡ ok (group ++ rest)
unfolding decode
decode_step b group (x ∷ y ∷ w ∷ x' ∷ y' ∷ dst) rest src h e l later = rw (h, e, later)
decode_step b group [] rest src h e l later = absurd (omega arith)
decode_step b group (x ∷ []) rest src h e l later = absurd (omega arith)
decode_step b group (x ∷ y ∷ []) rest src h e l later = absurd (omega arith)
decode_step b group (x ∷ y ∷ w ∷ []) rest src h e l later = absurd (omega arith)
decode_step b group (x ∷ y ∷ w ∷ x' ∷ []) rest src h e l later = absurd (omega arith)

zero_trit : valid_trit (pos 0) ≡ true
unfolding valid_trit
zero_trit = refl

five_step :
    (a b c d e : ℤ) (dst rest : Trits) (src : Bytes)
    → AreFive a b c d e
    → 5 ≤ length dst
    → decode (drop 5 dst) src ≡ ok rest
    → decode dst (byte (group_value a b c d e) ∷ src) ≡ ok (a ∷ b ∷ c ∷ d ∷ e ∷ rest)
five_step a b c d e dst rest src t l later =
    decode_step _ (a ∷ b ∷ c ∷ d ∷ e ∷ []) dst rest src (group-in_range a b c d e t)
      (group-unpack a b c d e t) l later

-- A last group of the slice that is not longer.
last_step :
    (a b c d e : ℤ) (dst : Trits)
    → AreFive a b c d e
    → length dst ≡ 5
    → decode dst (byte (group_value a b c d e) ∷ []) ≡ ok (a ∷ b ∷ c ∷ d ∷ e ∷ [])
last_step a b c d e dst t l =
    five_step a b c d e dst [] [] t (omega arith)
      (done (drop 5 dst) (omega (arith, length-drop 5 dst)))
  where
    done : (x : Trits) → length x ≡ 0 → decode x [] ≡ ok []
    done [] h = unfold decode in refl
    done (t ∷ ts) h = absurd (omega arith)

decode-packed :
    (ts dst : Trits)
    → AllTrits ts
    → length dst ≡ 5 * encoded_len (length ts)
    → decode dst (packed ts) ≡ ok (padded ts)
unfolding packed padded
decode-packed (a ∷ b ∷ c ∷ d ∷ e ∷ rest) dst (h0, (h1, (h2, (h3, (h4, hs))))) l =
    five_step a b c d e dst (padded rest) (packed rest)
      (record { v0 = h0; v1 = h1; v2 = h2; v3 = h3; v4 = h4 }) (omega arith)
      (decode-packed rest (drop 5 dst) hs (omega (arith, length-drop 5 dst)))
decode-packed [] [] h l = unfold decode in refl
decode-packed [] (x ∷ dst) h l = absurd (omega arith)
decode-packed (a ∷ []) dst (h0, _) l =
    last_step a _ _ _ _ dst
      (record { v0 = h0; v1 = zero_trit; v2 = zero_trit; v3 = zero_trit; v4 = zero_trit }) l
decode-packed (a ∷ b ∷ []) dst (h0, (h1, _)) l =
    last_step a b _ _ _ dst
      (record { v0 = h0; v1 = h1; v2 = zero_trit; v3 = zero_trit; v4 = zero_trit }) l
decode-packed (a ∷ b ∷ c ∷ []) dst (h0, (h1, (h2, _))) l =
    last_step a b c _ _ dst (record { v0 = h0; v1 = h1; v2 = h2; v3 = zero_trit; v4 = zero_trit }) l
decode-packed (a ∷ b ∷ c ∷ d ∷ []) dst (h0, (h1, (h2, (h3, _)))) l =
    last_step a b c d _ dst (record { v0 = h0; v1 = h1; v2 = h2; v3 = h3; v4 = zero_trit }) l

-- Valid trits encode into encoded_len bytes, and these decode, into a slice of the decoded length,
-- to the trits followed by the zeros that complete the last group of five.
pub decode-encode_t5b1 :
    (ts dst : Trits)
    → AllTrits ts
    → length dst ≡ 5 * encoded_len (length ts)
    → (bs : Bytes) × (encode (encoded_len (length ts)) ts ≡ ok bs)
      × (length bs ≡ encoded_len (length ts))
      × (decode dst bs ≡ ok (ts ++ replicate (5 * encoded_len (length ts) - length ts) (pos 0)))
decode-encode_t5b1 ts dst h l = (
  packed ts,
  encode-packed ts _ (omega arith),
  length-packed ts,
  decode-packed ts dst h l ∙ ap ok (padded_lem ts),
)

-- The trits of one byte.
abbrev row_trits : ℕ → Trits
row_trits b = trit_at 0 b ∷ trit_at 1 b ∷ trit_at 2 b ∷ trit_at 3 b ∷ trit_at 4 b ∷ []

unpack_long : (dst : Trits) (b : ℕ) → 5 ≤ length dst → unpack dst b ≡ at trits_lut b
unpack_long (x ∷ y ∷ w ∷ x' ∷ y' ∷ dst) b l = refl
unpack_long [] b l = absurd (omega arith)
unpack_long (x ∷ []) b l = absurd (omega arith)
unpack_long (x ∷ y ∷ []) b l = absurd (omega arith)
unpack_long (x ∷ y ∷ w ∷ []) b l = absurd (omega arith)
unpack_long (x ∷ y ∷ w ∷ x' ∷ []) b l = absurd (omega arith)

row_canonical :
    (b : ℕ) (rest : Trits) (bs : Bytes)
    → b < 256
    → out_of_range b ≡ false
    → (encode (length bs) rest ≡ ok bs) × (length rest ≡ 5 * length bs)
    → (encode (suc (length bs)) (row_trits b ++ rest) ≡ ok (b ∷ bs))
      × (length (row_trits b ++ rest) ≡ 5 * suc (length bs))
unfolding encode
row_canonical b rest bs hb good (later, len) = (rw (byte-trits b hb good, later), omega arith)

-- Bytes that decode are the encoding of what they decode to: no two inputs decode alike.
pub encode-decode :
    (dst ts : Trits) (bs : Bytes)
    → AreBytes bs
    → length dst ≡ 5 * length bs
    → decode dst bs ≡ ok ts
    → (encode (length bs) ts ≡ ok bs) × (length ts ≡ 5 * length bs)
unfolding decode
encode-decode [] ts [] h l e = let nil : [] ≡ ts = cc in rw (← nil) (unfold encode in refl, refl)
encode-decode (x ∷ dst) ts [] h l e = absurd (omega arith)
encode-decode dst ts (b ∷ bs) (hb, hs) l e = elim (Bool-cases (out_of_range b)) [
  | inl bad ↦ absurd (cc (rw bad at e))
  | inr good ↦
      let (group, unpacked, more) = >>=_split (unpack dst b) _ {b = ts} (rw good at e) in
      let (rest, later, joined) = >>=_split (decode (drop 5 dst) bs) _ {b = ts} more in
      let same : row_trits b ≡ group =
        cc (unpack_long dst b (omega arith), byte-unpack b hb good) in
      let whole : row_trits b ++ rest ≡ ts = ap (λ g. g ++ rest) same ∙ ok_inj joined in
      rw (← whole) (
        row_canonical b rest bs hb good
          (encode-decode (drop 5 dst) rest bs hs (omega (arith, length-drop 5 dst)) later))
]
