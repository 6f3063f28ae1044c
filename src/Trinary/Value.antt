-- ===== src/Trinary/Value.antt =====
-- The integer that trits stand for in balanced ternary, the lowest first, and the bound on it.
use iota_go.Common.{
  ℕ, zero, suc, ◌+◌, ◌*◌, ◌≤◌, ◌≡◌, refl, [], ◌∷◌, ◌++◌, length, take, arith, ints, ℤ, pos, ◌+ℤ◌,
  scale, pos_part, neg_part, +ℤ_parts, scale_parts,
}
use iota_go.Trinary.Trits.{Trits}
use iota_go.Trinary.Tryte.Groups.{trit_bounds}
use iota_go.Trinary.Convert.RoundTrip.{AllTrits}

unfoldable pub value : Trits → ℤ
value [] = pos 0
value (t ∷ ts) = scale 3 (value ts) +ℤ t

-- (3^n - 1) / 2, the largest value of n trits.
unfoldable pub max_value : ℕ → ℕ
max_value zero = 0
max_value (suc n) = 3 * max_value n + 1

-- -n ≤ z ≤ n
abbrev pub Within : ℕ → ℤ → Type 0
Within n z = (pos_part z ≤ n + neg_part z) × (neg_part z ≤ n + pos_part z)

pub Within-step : (n : ℕ) (z t : ℤ) → Within n z → Within 1 t → Within (3 * n + 1) (scale 3 z +ℤ t)
Within-step n z t h k = omega (arith, +ℤ_parts (scale 3 z) t, scale_parts 3 z)

pub value-Within : (ts : Trits) → AllTrits ts → Within (max_value (length ts)) (value ts)
unfolding value max_value
value-Within [] h = omega arith
value-Within (t ∷ ts) (ht, hs) =
    Within-step _ (value ts) t (value-Within ts hs) (omega (arith, trit_bounds t ht))

-- 3^n * z
unfoldable pub shift : ℕ → ℤ → ℤ
shift zero z = z
shift (suc n) z = scale 3 (shift n z)

-- The value of trits in two parts.
pub value-append : (xs ys : Trits) → value (xs ++ ys) ≡ value xs +ℤ shift (length xs) (value ys)
unfolding value shift
value-append [] ys = omega ints
value-append (x ∷ xs) ys = rw (value-append xs ys) (omega ints)

-- What trits beyond the bound of the first n would add must be nothing.
pub value-take :
    (n : ℕ) (ts : Trits)
    → AllTrits ts
    → Within (max_value n) (value ts)
    → value (take n ts) ≡ value ts
unfolding value max_value
value-take zero ts h w = omega (ints)
value-take (suc n) [] h w = refl
value-take (suc n) (t ∷ ts) (ht, hs) w =
    let b = trit_bounds t ht in
    rw
      (value-take n ts hs
        (omega (arith, +ℤ_parts (scale 3 (value ts)) t, scale_parts 3 (value ts))))
      refl
