-- ===== src/Kerl/Bigint/Examples.antt =====
-- The theorems on words at concrete inputs.
use iota_go.Common.{
  ℕ, ◌+◌, ◌<◌, ◌≡◌, refl, List, [], ◌∷◌, ◌++◌, length, drop, replicate, arith, pos, negsuc, ◌⊎◌,
}
use iota_go.Consts.{ok}
use iota_go.Kerl.Bigint.{Bigint, add, sub, cmp, set_bytes, read}
use iota_go.Kerl.Bigint.Sums.{value, shift, AreWords, IsResult, value-add, value-sub, cmp-Compares}
use iota_go.Kerl.Bigint.Bytes.{set_bytes-read}

abbrev all_ones : Bigint
all_ones = 4294967295 ∷ 4294967295 ∷ []

abbrev two : Bigint
two = 2 ∷ 0 ∷ []

all_ones-AreWords : AreWords all_ones
all_ones-AreWords = (omega arith, (omega arith, tt))

two-AreWords : AreWords two
two-AreWords = (omega arith, (omega arith, tt))

value-add_example :
    (z : Bigint) × (carry : ℕ) × (add all_ones two ≡ ok (z, carry))
    × IsResult 2 (z, carry)
    × (value z + shift 2 carry ≡ value all_ones + value two)
value-add_example = value-add all_ones two all_ones-AreWords two-AreWords refl

value-sub_example :
    (z : Bigint) × (borrow : ℕ) × (sub two all_ones ≡ ok (z, borrow))
    × IsResult 2 (z, borrow)
    × (value z + value all_ones ≡ value two + shift 2 borrow)
value-sub_example = value-sub two all_ones two-AreWords all_ones-AreWords refl

cmp-Compares_example :
    ((cmp two all_ones ≡ ok (negsuc 0)) × (value two < value all_ones))
    ⊎ (((cmp two all_ones ≡ ok (pos 0)) × (value two ≡ value all_ones))
        ⊎ ((cmp two all_ones ≡ ok (pos 1)) × (value all_ones < value two)))
cmp-Compares_example = cmp-Compares two all_ones two-AreWords all_ones-AreWords refl

set_bytes-read_example :
    (bytes : List ℕ) × (read all_ones (replicate 9 7) ≡ ok (bytes ++ drop 8 (replicate 9 7), 8))
    × (length bytes ≡ 8)
    × (set_bytes two bytes ≡ ok all_ones)
set_bytes-read_example =
    set_bytes-read all_ones two (replicate 9 7) all_ones-AreWords refl (omega arith)
