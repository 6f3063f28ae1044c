-- ===== src/Trinary/Tryte/Groups.antt =====
-- Groups of three trits and the tryte values that they stand for.
use iota_go.Common.{
  ℕ, ◌≤◌, ◌≡◌, refl, Bool, true, false, ◌&&◌, [], ◌∷◌, leb, arith, get_or, ℤ, pos, negsuc, ◌+ℤ◌,
  ◌-ℤ◌, scale, int8, pos_part, neg_part, eqb_ℤ, eqb_ℤ→eq, ap, ◌∙◌,
}
use iota_go.Consts.{Result, ok, err, panic}
use iota_go.Trinary.Trits.{Trits, valid_trit}
use iota_go.Trinary.Tryte.{
  at_ℤ, tryte_index, must_trits_to_tryte_value, must_put_tryte_trits, tryte_value,
  tryte_value_to_trits_lut,
}
use iota_go.Trinary.Tryte.Values.{InTryte, every_trit, every_tryte, passes, all_below}

-- A Boolean test passes on the three trits.
abbrev pub all_trits : (ℤ → Bool) → Bool
all_trits q = q (negsuc 0) && q (pos 0) && q (pos 1)

pub all_trits_sound :
    (q : ℤ → Bool) → all_trits q ≡ true → (t : ℤ) → valid_trit t ≡ true → q t ≡ true
all_trits_sound q h = every_trit (λ t. q t ≡ true) (ground arith, ground arith, ground arith)

unfoldable pub all_groups : (ℤ → ℤ → ℤ → Bool) → Bool
all_groups q = all_trits (λ a. all_trits (λ b. all_trits (q a b)))

pub record AreTrits (a b c : ℤ) : Type 0 where
  pub first : valid_trit a ≡ true
  pub second : valid_trit b ≡ true
  pub third : valid_trit c ≡ true

pub all_groups_sound :
    (q : ℤ → ℤ → ℤ → Bool) → all_groups q ≡ true → (a b c : ℤ) → AreTrits a b c → q a b c ≡ true
unfolding all_groups
all_groups_sound q h a b c t =
    all_trits_sound (q a b)
      (all_trits_sound (λ b. all_trits (q a b))
        (all_trits_sound (λ a. all_trits (λ b. all_trits (q a b))) h a t.first) b t.second)
      c t.third

abbrev pub eqb_trits : Trits → Trits → Bool
eqb_trits [] [] = true
eqb_trits (a ∷ xs) (b ∷ ys) = eqb_ℤ a b && eqb_trits xs ys
eqb_trits _ _ = false

pub eqb_trits→eq : (xs ys : Trits) → eqb_trits xs ys ≡ true → xs ≡ ys
eqb_trits→eq [] [] h = refl
eqb_trits→eq [] (b ∷ ys) h = cc
eqb_trits→eq (a ∷ xs) [] h = cc
eqb_trits→eq (a ∷ xs) (b ∷ ys) h = ground (arith, eqb_ℤ→eq a b, eqb_trits→eq xs ys)

abbrev pub is_ok_trits : Result Trits → Trits → Bool
is_ok_trits (ok a) b = eqb_trits a b
is_ok_trits (err e) b = false
is_ok_trits panic b = false

pub is_ok_trits→eq : (r : Result Trits) (b : Trits) → is_ok_trits r b ≡ true → r ≡ ok b
is_ok_trits→eq (ok a) b h = ap ok (eqb_trits→eq a b h)
is_ok_trits→eq (err e) b h = cc
is_ok_trits→eq panic b h = cc

-- The trits of a tryte value.
unfoldable pub trit_of : ℕ → ℤ → ℤ
unfolding ◌+ℤ◌
trit_of i v = get_or (get_or tryte_value_to_trits_lut (pos_part (v +ℤ pos 13)) []) i (pos 0)

abbrev sum_test : ℤ → ℤ → ℤ → Bool
sum_test a b c = eqb_ℤ (int8 (int8 (a +ℤ int8 (scale 3 b)) +ℤ int8 (scale 9 c))) (tryte_value a b c)

abbrev look_test : ℤ → ℤ → ℤ → Bool
look_test a b c =
    is_ok_trits (at_ℤ tryte_value_to_trits_lut (tryte_index (tryte_value a b c))) (a ∷ b ∷ c ∷ [])

abbrev range_test : ℤ → ℤ → ℤ → Bool
range_test a b c = leb (pos_part (tryte_value a b c)) 13 && leb (neg_part (tryte_value a b c)) 13

abbrev back_test : ℤ → ℤ → ℤ → Bool
back_test a b c =
    let v = tryte_value a b c in
    eqb_trits (trit_of 0 v ∷ trit_of 1 v ∷ trit_of 2 v ∷ []) (a ∷ b ∷ c ∷ [])

group_table :
    (all_groups sum_test ≡ true)
    × (all_groups look_test ≡ true)
    × (all_groups range_test ≡ true)
    × (all_groups back_test ≡ true)
unfolding all_groups trit_of int8 ◌+ℤ◌ ◌-ℤ◌ scale
group_table = (refl, refl, refl, refl)

module _ (a b c : ℤ) (t : AreTrits a b c) where
  in_range : range_test a b c ≡ true
  in_range = all_groups_sound range_test group_table.2 a b c t

  pub tryte_value-InTryte : InTryte (tryte_value a b c)
  tryte_value-InTryte = (ground (arith, in_range), ground (arith, in_range))

  -- No step of the sum wraps.
  pub group_value :
      (rest : Trits) → must_trits_to_tryte_value (a ∷ b ∷ c ∷ rest) ≡ ok (tryte_value a b c)
  unfolding must_trits_to_tryte_value
  group_value rest = ap ok (eqb_ℤ→eq _ _ (all_groups_sound sum_test group_table.0 a b c t))

  looked_up : at_ℤ tryte_value_to_trits_lut (tryte_index (tryte_value a b c)) ≡ ok (a ∷ b ∷ c ∷ [])
  looked_up = is_ok_trits→eq _ _ (all_groups_sound look_test group_table.1 a b c t)

  pub put_group :
      (x y w : ℤ) (rest : Trits)
      → must_put_tryte_trits (x ∷ y ∷ w ∷ rest) (tryte_value a b c) ≡ ok (a ∷ b ∷ c ∷ rest)
  unfolding must_put_tryte_trits
  put_group x y w rest = rw looked_up

  -- The three trits of a group's value are the group.
  pub trits_of_group :
      ◌≡◌ {A = Trits}
        (trit_of 0 (tryte_value a b c)
          ∷ trit_of 1 (tryte_value a b c)
          ∷ trit_of 2 (tryte_value a b c)
          ∷ [])
        (a ∷ b ∷ c ∷ [])
  trits_of_group = eqb_trits→eq _ _ (all_groups_sound back_test group_table.3 a b c t)

abbrev split_test : ℤ → Bool
split_test v =
    valid_trit (trit_of 0 v)
    && valid_trit (trit_of 1 v)
    && valid_trit (trit_of 2 v)
    && eqb_ℤ (tryte_value (trit_of 0 v) (trit_of 1 v) (trit_of 2 v)) v

split_table : passes split_test ≡ true
unfolding trit_of all_below ◌+ℤ◌ scale valid_trit
split_table = refl

module _ (v : ℤ) (h : InTryte v) where
  split_facts : split_test v ≡ true
  split_facts = every_tryte split_test split_table v h

  pub split_trits : AreTrits (trit_of 0 v) (trit_of 1 v) (trit_of 2 v)
  split_trits = record {
    first = ground (arith, split_facts);
    second = ground (arith, split_facts);
    third = ground (arith, split_facts);
  }

  pub split_value : tryte_value (trit_of 0 v) (trit_of 1 v) (trit_of 2 v) ≡ v
  split_value = eqb_ℤ→eq _ _ (ground (arith, split_facts))

  -- A value in range is put as its three trits, over whatever was there.
  pub put_value :
      (x y w : ℤ) (rest : Trits)
      → must_put_tryte_trits (x ∷ y ∷ w ∷ rest) v
        ≡ ok (trit_of 0 v ∷ trit_of 1 v ∷ trit_of 2 v ∷ rest)
  put_value x y w rest = rw split_value at (put_group _ _ _ split_trits x y w rest)

  -- And they are read as the value.
  pub read_value :
      (rest : Trits)
      → must_trits_to_tryte_value (trit_of 0 v ∷ trit_of 1 v ∷ trit_of 2 v ∷ rest) ≡ ok v
  read_value rest = group_value _ _ _ split_trits rest ∙ ap ok split_value

pub trit_bounds : (t : ℤ) → valid_trit t ≡ true → (pos_part t ≤ 1) × (neg_part t ≤ 1)
unfolding valid_trit
trit_bounds t h = ground arith
