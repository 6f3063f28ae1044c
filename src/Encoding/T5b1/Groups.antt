-- ===== src/Encoding/T5b1/Groups.antt =====
-- One byte and its five trits.
use iota_go.Common.{
  ℕ, ◌<◌, ◌≡◌, refl, Bool, true, false, ◌&&◌, not, ◌==◌, ==_iff, if◌then◌else◌, arith, [], ◌∷◌,
  get_or, ℤ, pos, ◌+ℤ◌, scale, int8, byte, ints,
}
use iota_go.Consts.{ok}
use iota_go.Trinary.Trits.{valid_trit}
use iota_go.Trinary.Tryte.{at}
use iota_go.Trinary.Tryte.Values.{all_below, all_below_sound}
use iota_go.Trinary.Tryte.Groups.{all_trits, all_trits_sound, is_ok_trits, is_ok_trits→eq}
use iota_go.Encoding.T5b1.{trits_lut, group_value, out_of_range, tail_value}

pub record AreFive (a b c d e : ℤ) : Type 0 where
  pub v0 : valid_trit a ≡ true
  pub v1 : valid_trit b ≡ true
  pub v2 : valid_trit c ≡ true
  pub v3 : valid_trit d ≡ true
  pub v4 : valid_trit e ≡ true

all_fives : (ℤ → ℤ → ℤ → ℤ → ℤ → Bool) → Bool
all_fives q =
    all_trits (λ a. all_trits (λ b. all_trits (λ c. all_trits (λ d. all_trits (q a b c d)))))

all_fives_sound :
    (q : ℤ → ℤ → ℤ → ℤ → ℤ → Bool)
    → all_fives q ≡ true
    → (a b c d e : ℤ) → AreFive a b c d e
    → q a b c d e ≡ true
unfolding all_fives
all_fives_sound q h a b c d e t =
    let h1 =
      all_trits_sound
        (λ x. all_trits (λ b. all_trits (λ c. all_trits (λ d. all_trits (q x b c d))))) h a t.v0 in
    let h2 =
      all_trits_sound (λ x. all_trits (λ c. all_trits (λ d. all_trits (q a x c d)))) h1 b t.v1 in
    let h3 = all_trits_sound (λ x. all_trits (λ d. all_trits (q a b x d))) h2 c t.v2 in
    let h4 = all_trits_sound (λ x. all_trits (q a b c x)) h3 d t.v3 in
    all_trits_sound (q a b c d) h4 e t.v4

abbrev range_test : ℤ → ℤ → ℤ → ℤ → ℤ → Bool
range_test a b c d e = not (out_of_range (byte (group_value a b c d e)))

abbrev look_test : ℤ → ℤ → ℤ → ℤ → ℤ → Bool
look_test a b c d e =
    is_ok_trits (at trits_lut (byte (group_value a b c d e))) (a ∷ b ∷ c ∷ d ∷ e ∷ [])

five_table : (all_fives range_test ≡ true) × (all_fives look_test ≡ true)
unfolding all_fives trits_lut int8 byte scale ◌+ℤ◌
five_table = (refl, refl)

module _ (a b c d e : ℤ) (t : AreFive a b c d e) where
  pub group-in_range : out_of_range (byte (group_value a b c d e)) ≡ false
  group-in_range = ground (arith, all_fives_sound range_test five_table.0 a b c d e t)

  pub group-unpack : at trits_lut (byte (group_value a b c d e)) ≡ ok (a ∷ b ∷ c ∷ d ∷ e ∷ [])
  group-unpack = is_ok_trits→eq _ _ (all_fives_sound look_test five_table.1 a b c d e t)

-- The trit at place i of a byte.
unfoldable pub trit_at : ℕ → ℕ → ℤ
trit_at i b = get_or (get_or trits_lut b []) i (pos 0)

abbrev unpack_test : ℕ → Bool
unpack_test b =
    if out_of_range b
    then true
    else is_ok_trits (at trits_lut b)
        (trit_at 0 b ∷ trit_at 1 b ∷ trit_at 2 b ∷ trit_at 3 b ∷ trit_at 4 b ∷ [])

abbrev pub trits_value : ℕ → ℤ
trits_value b = group_value (trit_at 0 b) (trit_at 1 b) (trit_at 2 b) (trit_at 3 b) (trit_at 4 b)

abbrev pack_test : ℕ → Bool
pack_test b = if out_of_range b then true else byte (trits_value b) == b

abbrev trit_test : ℕ → Bool
trit_test b =
    valid_trit (trit_at 0 b)
    && (valid_trit (trit_at 1 b)
        && (valid_trit (trit_at 2 b) && (valid_trit (trit_at 3 b) && valid_trit (trit_at 4 b))))

row_table :
    (all_below 256 unpack_test ≡ true)
    × (all_below 256 pack_test ≡ true)
    × (all_below 256 trit_test ≡ true)
unfolding all_below trit_at trits_lut int8 byte scale ◌+ℤ◌ valid_trit
row_table = (refl, refl, refl)

module _ (b : ℕ) (h : b < 256) (ranged : out_of_range b ≡ false) where
  pub byte-unpack :
      at trits_lut b ≡ ok (trit_at 0 b ∷ trit_at 1 b ∷ trit_at 2 b ∷ trit_at 3 b ∷ trit_at 4 b ∷ [])
  byte-unpack = is_ok_trits→eq _ _ (rw ranged at (all_below_sound 256 unpack_test b row_table.0 h))

  pub byte-trits : byte (trits_value b) ≡ b
  byte-trits = (==_iff _ _).0 (rw ranged at (all_below_sound 256 pack_test b row_table.1 h))

-- An incomplete group has the value of the group that zeros complete.
pub tails :
    (a b c d : ℤ)
    → (tail_value (a ∷ []) ≡ group_value a (pos 0) (pos 0) (pos 0) (pos 0))
      × (tail_value (a ∷ b ∷ []) ≡ group_value a b (pos 0) (pos 0) (pos 0))
      × (tail_value (a ∷ b ∷ c ∷ []) ≡ group_value a b c (pos 0) (pos 0))
      × (tail_value (a ∷ b ∷ c ∷ d ∷ []) ≡ group_value a b c d (pos 0))
unfolding tail_value
tails a b c d = (omega ints, omega ints, omega ints, omega ints)
