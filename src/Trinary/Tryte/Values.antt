-- ===== src/Trinary/Tryte/Values.antt =====
-- Facts about single trytes, each checked on all values in range.
use iota_go.Common.{
  ℕ, zero, suc, ◌-◌, ◌≤◌, ◌<◌, ◌≡◌, refl, Bool, true, false, ◌&&◌, leb, ◌==◌, if◌then◌else◌, get_or,
  arith, ℤ, pos, negsuc, ◌+ℤ◌, eqb_ℤ, pos_part, neg_part,
}
use iota_go.Consts.{Result, ok, err, panic}
use iota_go.Trinary.Trits.{valid_trit}
use iota_go.Trinary.Tryte.{
  tryte_value_to_tryte_lut, tryte_to_tryte_value_lut, must_tryte_value_to_tryte,
  must_tryte_to_tryte_value, is_valid_tryte,
}

-- A test passes on every number less than the bound.
unfoldable pub all_below : ℕ → (ℕ → Bool) → Bool
all_below zero test = true
all_below (suc bound) test = all_below bound test && test bound

pub all_below_sound :
    (bound : ℕ) (test : ℕ → Bool) (k : ℕ) → all_below bound test ≡ true → k < bound → test k ≡ true
unfolding all_below
all_below_sound (suc bound) test k h below = ground (arith, all_below_sound bound test k)
all_below_sound zero test k h below = absurd (omega arith)

-- A property of all three trits holds of every valid trit.
abbrev pub Every : (ℤ → Type 0) → Type 0
Every P = P (negsuc 0) × P (pos 0) × P (pos 1)

pub every_trit : (P : ℤ → Type 0) → Every P → (t : ℤ) → valid_trit t ≡ true → P t
unfolding valid_trit
every_trit P e (pos zero) h = e.1
every_trit P e (pos (suc zero)) h = e.2
every_trit P e (pos (suc (suc n))) h = absurd (ground arith)
every_trit P e (negsuc zero) h = e.0
every_trit P e (negsuc (suc n)) h = absurd (ground arith)

-- The numbers -13 to 13.
abbrev pub InTryte : ℤ → Type 0
InTryte v = (pos_part v ≤ 13) × (neg_part v ≤ 13)

-- The character of a tryte value.
unfoldable pub tryte_char : ℤ → ℕ
unfolding ◌+ℤ◌
tryte_char v = get_or tryte_value_to_tryte_lut (pos_part (v +ℤ pos 13)) b'9'

abbrev pub is_ok_ℤ : Result ℤ → ℤ → Bool
is_ok_ℤ (ok a) b = eqb_ℤ a b
is_ok_ℤ (err e) b = false
is_ok_ℤ panic b = false

pub is_ok_ℤ→eq : (r : Result ℤ) (b : ℤ) → is_ok_ℤ r b ≡ true → r ≡ ok b
is_ok_ℤ→eq r b h = ground arith

abbrev pub is_ok_ℕ : Result ℕ → ℕ → Bool
is_ok_ℕ (ok a) b = a == b
is_ok_ℕ (err e) b = false
is_ok_ℕ panic b = false

pub is_ok_ℕ→eq : (r : Result ℕ) (b : ℕ) → is_ok_ℕ r b ≡ true → r ≡ ok b
is_ok_ℕ→eq r b h = ground arith

-- A Boolean test passes on the numbers -13 to 13.
abbrev pub passes : (ℤ → Bool) → Bool
passes q = all_below 14 (λ k. q (pos k)) && all_below 13 (λ k. q (negsuc k))

pub every_tryte : (q : ℤ → Bool) → passes q ≡ true → (v : ℤ) → InTryte v → q v ≡ true
every_tryte q h (pos n) i = all_below_sound 14 (λ k. q (pos k)) n (ground arith) (ground arith)
every_tryte q h (negsuc n) i =
    all_below_sound 13 (λ k. q (negsuc k)) n (ground arith) (ground arith)

abbrev char_test : ℤ → Bool
char_test v = is_ok_ℕ (must_tryte_value_to_tryte v) (tryte_char v)

char_table : passes char_test ≡ true
unfolding all_below must_tryte_value_to_tryte tryte_char
char_table = refl

-- A tryte value has its character.
pub value_to_tryte : (v : ℤ) → InTryte v → must_tryte_value_to_tryte v ≡ ok (tryte_char v)
value_to_tryte v h = is_ok_ℕ→eq _ _ (every_tryte char_test char_table v h)

abbrev value_test : ℤ → Bool
value_test v = is_ok_ℤ (must_tryte_to_tryte_value (tryte_char v)) v && is_valid_tryte (tryte_char v)

value_table : passes value_test ≡ true
unfolding all_below must_tryte_to_tryte_value tryte_char is_valid_tryte
value_table = refl

-- The character of a tryte value is valid and has this value.
pub tryte_to_value :
    (v : ℤ)
    → InTryte v
    → (must_tryte_to_tryte_value (tryte_char v) ≡ ok v) × (is_valid_tryte (tryte_char v) ≡ true)
tryte_to_value v h = (
  is_ok_ℤ→eq _ _ (ground (arith, every_tryte value_test value_table v h)),
  ground (arith, every_tryte value_test value_table v h),
)

-- The tryte value of a character.
unfoldable pub char_value : ℕ → ℤ
char_value c = get_or tryte_to_tryte_value_lut (c - b'9') (pos 0)

abbrev char_back : ℕ → Bool
char_back c =
    if is_valid_tryte c
    then (is_ok_ℤ (must_tryte_to_tryte_value c) (char_value c) && (tryte_char (char_value c) == c))
      && (leb (pos_part (char_value c)) 13 && leb (neg_part (char_value c)) 13)
    else true

char_back_table : all_below 91 char_back ≡ true
unfolding all_below must_tryte_to_tryte_value tryte_char is_valid_tryte char_value
char_back_table = refl

valid_range : (c : ℕ) → is_valid_tryte c ≡ true → c < 91
unfolding is_valid_tryte
valid_range c h = ground arith

-- A valid character has a value in range, and it is the character of that value.
pub valid_char :
    (c : ℕ)
    → is_valid_tryte c ≡ true
    → (must_tryte_to_tryte_value c ≡ ok (char_value c))
      × InTryte (char_value c)
      × (tryte_char (char_value c) ≡ c)
valid_char c h =
    let t : char_back c ≡ true = all_below_sound 91 char_back c char_back_table (valid_range c h) in
    (is_ok_ℤ→eq _ _ (ground (arith, t)), (ground (arith, t), ground (arith, t)), ground (arith, t))
