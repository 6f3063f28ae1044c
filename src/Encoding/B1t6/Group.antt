-- ===== src/Encoding/B1t6/Group.antt =====
-- One byte and its two tryte values.
use iota_go.Common.{
  ℕ, ◌<◌, ◌≡◌, refl, Bool, true, false, ◌&&◌, leb, ◌==◌, arith, Option, none, some, ℤ, pos_part,
  neg_part, eqb_ℤ, eqb_ℤ→eq,
}
use iota_go.Trinary.Tryte.Values.{InTryte, all_below, all_below_sound, passes, every_tryte}
use iota_go.Encoding.B1t6.{encode_group, decode_group}

abbrev is_some_ℕ : Option ℕ → ℕ → Bool
is_some_ℕ none b = false
is_some_ℕ (some a) b = a == b

is_some_ℕ→eq : (o : Option ℕ) (b : ℕ) → is_some_ℕ o b ≡ true → o ≡ some b
is_some_ℕ→eq o b h = ground arith

abbrev in_tryte : ℤ → Bool
in_tryte v = leb (pos_part v) 13 && leb (neg_part v) 13

abbrev byte_test : ℕ → Bool
byte_test b = let g = encode_group b in is_some_ℕ (decode_group g.0 g.1) b

abbrev range_test : ℕ → Bool
range_test b = let g = encode_group b in in_tryte g.0 && in_tryte g.1

byte_table : (all_below 256 byte_test ≡ true) × (all_below 256 range_test ≡ true)
unfolding all_below encode_group decode_group
byte_table = (refl, refl)

pub decode-encode_group :
    (b : ℕ) → b < 256 → decode_group (encode_group b).0 (encode_group b).1 ≡ some b
decode-encode_group b h = is_some_ℕ→eq _ b (all_below_sound 256 byte_test b byte_table.0 h)

pub encode_group-InTryte :
    (b : ℕ) → b < 256 → InTryte (encode_group b).0 × InTryte (encode_group b).1
encode_group-InTryte b h =
    let t = all_below_sound 256 range_test b byte_table.1 h in
    ((ground (arith, t), ground (arith, t)), (ground (arith, t), ground (arith, t)))

-- A pair of trytes that decodes at all is the group of the byte that it decodes to.
abbrev same_group : ℤ → ℤ → Option ℕ → Bool
same_group t1 t2 none = true
same_group t1 t2 (some b) = let g = encode_group b in eqb_ℤ g.0 t1 && eqb_ℤ g.1 t2

abbrev canon_test : ℤ → ℤ → Bool
canon_test t1 t2 = same_group t1 t2 (decode_group t1 t2)

canon_table : passes (λ t1. passes (canon_test t1)) ≡ true
unfolding all_below encode_group decode_group
canon_table = refl

pub encode-decode_group :
    (t1 t2 : ℤ) (b : ℕ)
    → InTryte t1
    → InTryte t2
    → decode_group t1 t2 ≡ some b
    → ((encode_group b).0 ≡ t1) × ((encode_group b).1 ≡ t2)
encode-decode_group t1 t2 b h1 h2 e =
    let row = every_tryte (λ t. passes (canon_test t)) canon_table t1 h1 in
    let cell = rw e at (every_tryte (canon_test t1) row t2 h2) in
    (eqb_ℤ→eq _ _ (ground (arith, cell)), eqb_ℤ→eq _ _ (ground (arith, cell)))
