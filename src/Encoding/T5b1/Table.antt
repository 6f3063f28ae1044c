-- ===== src/Encoding/T5b1/Table.antt =====
-- encoding/t5b1/t5b1.go: the table that unpacks a byte into five trits.
use iota_go.Common.{List, [], ◌∷◌, ℤ, pos, negsuc}
use iota_go.Trinary.Trits.{Trits}

abbrev m : ℤ
m = negsuc 0

abbrev z : ℤ
z = pos 0

abbrev p : ℤ
p = pos 1

abbrev r : ℤ → ℤ → ℤ → ℤ → ℤ → Trits
r a b c d e = a ∷ b ∷ c ∷ d ∷ e ∷ []

unfoldable pub trits_lut : List Trits
trits_lut =
    r z z z z z
    ∷ r p z z z z
    ∷ r m p z z z
    ∷ r z p z z z
    ∷ r p p z z z
    ∷ r m m p z z
    ∷ r z m p z z
    ∷ r p m p z z
    ∷ r m z p z z
    ∷ r z z p z z
    ∷ r p z p z z
    ∷ r m p p z z
    ∷ r z p p z z
    ∷ r p p p z z
    ∷ r m m m p z
    ∷ r z m m p z
    ∷ r p m m p z
    ∷ r m z m p z
    ∷ r z z m p z
    ∷ r p z m p z
    ∷ r m p m p z
    ∷ r z p m p z
    ∷ r p p m p z
    ∷ r m m z p z
    ∷ r z m z p z
    ∷ r p m z p z
    ∷ r m z z p z
    ∷ r z z z p z
    ∷ r p z z p z
    ∷ r m p z p z
    ∷ r z p z p z
    ∷ r p p z p z
    ∷ r m m p p z
    ∷ r z m p p z
    ∷ r p m p p z
    ∷ r m z p p z
    ∷ r z z p p z
    ∷ r p z p p z
    ∷ r m p p p z
    ∷ r z p p p z
    ∷ r p p p p z
    ∷ r m m m m p
    ∷ r z m m m p
    ∷ r p m m m p
    ∷ r m z m m p
    ∷ r z z m m p
    ∷ r p z m m p
    ∷ r m p m m p
    ∷ r z p m m p
    ∷ r p p m m p
    ∷ r m m z m p
    ∷ r z m z m p
    ∷ r p m z m p
    ∷ r m z z m p
    ∷ r z z z m p
    ∷ r p z z m p
    ∷ r m p z m p
    ∷ r z p z m p
    ∷ r p p z m p
    ∷ r m m p m p
    ∷ r z m p m p
    ∷ r p m p m p
    ∷ r m z p m p
    ∷ r z z p m p
    ∷ r p z p m p
    ∷ r m p p m p
    ∷ r z p p m p
    ∷ r p p p m p
    ∷ r m m m z p
    ∷ r z m m z p
    ∷ r p m m z p
    ∷ r m z m z p
    ∷ r z z m z p
    ∷ r p z m z p
    ∷ r m p m z p
    ∷ r z p m z p
    ∷ r p p m z p
    ∷ r m m z z p
    ∷ r z m z z p
    ∷ r p m z z p
    ∷ r m z z z p
    ∷ r z z z z p
    ∷ r p z z z p
    ∷ r m p z z p
    ∷ r z p z z p
    ∷ r p p z z p
    ∷ r m m p z p
    ∷ r z m p z p
    ∷ r p m p z p
    ∷ r m z p z p
    ∷ r z z p z p
    ∷ r p z p z p
    ∷ r m p p z p
    ∷ r z p p z p
    ∷ r p p p z p
    ∷ r m m m p p
    ∷ r z m m p p
    ∷ r p m m p p
    ∷ r m z m p p
    ∷ r z z m p p
    ∷ r p z m p p
    ∷ r m p m p p
    ∷ r z p m p p
    ∷ r p p m p p
    ∷ r m m z p p
    ∷ r z m z p p
    ∷ r p m z p p
    ∷ r m z z p p
    ∷ r z z z p p
    ∷ r p z z p p
    ∷ r m p z p p
    ∷ r z p z p p
    ∷ r p p z p p
    ∷ r m m p p p
    ∷ r z m p p p
    ∷ r p m p p p
    ∷ r m z p p p
    ∷ r z z p p p
    ∷ r p z p p p
    ∷ r m p p p p
    ∷ r z p p p p
    ∷ r p p p p p
    ∷ r z z z z z
    ∷ r z z z z z
    ∷ r z z z z z
    ∷ r z z z z z
    ∷ r z z z z z
    ∷ r z z z z z
    ∷ r z z z z z
    ∷ r z z z z z
    ∷ r z z z z z
    ∷ r z z z z z
    ∷ r z z z z z
    ∷ r z z z z z
    ∷ r z z z z z
    ∷ r m m m m m
    ∷ r z m m m m
    ∷ r p m m m m
    ∷ r m z m m m
    ∷ r z z m m m
    ∷ r p z m m m
    ∷ r m p m m m
    ∷ r z p m m m
    ∷ r p p m m m
    ∷ r m m z m m
    ∷ r z m z m m
    ∷ r p m z m m
    ∷ r m z z m m
    ∷ r z z z m m
    ∷ r p z z m m
    ∷ r m p z m m
    ∷ r z p z m m
    ∷ r p p z m m
    ∷ r m m p m m
    ∷ r z m p m m
    ∷ r p m p m m
    ∷ r m z p m m
    ∷ r z z p m m
    ∷ r p z p m m
    ∷ r m p p m m
    ∷ r z p p m m
    ∷ r p p p m m
    ∷ r m m m z m
    ∷ r z m m z m
    ∷ r p m m z m
    ∷ r m z m z m
    ∷ r z z m z m
    ∷ r p z m z m
    ∷ r m p m z m
    ∷ r z p m z m
    ∷ r p p m z m
    ∷ r m m z z m
    ∷ r z m z z m
    ∷ r p m z z m
    ∷ r m z z z m
    ∷ r z z z z m
    ∷ r p z z z m
    ∷ r m p z z m
    ∷ r z p z z m
    ∷ r p p z z m
    ∷ r m m p z m
    ∷ r z m p z m
    ∷ r p m p z m
    ∷ r m z p z m
    ∷ r z z p z m
    ∷ r p z p z m
    ∷ r m p p z m
    ∷ r z p p z m
    ∷ r p p p z m
    ∷ r m m m p m
    ∷ r z m m p m
    ∷ r p m m p m
    ∷ r m z m p m
    ∷ r z z m p m
    ∷ r p z m p m
    ∷ r m p m p m
    ∷ r z p m p m
    ∷ r p p m p m
    ∷ r m m z p m
    ∷ r z m z p m
    ∷ r p m z p m
    ∷ r m z z p m
    ∷ r z z z p m
    ∷ r p z z p m
    ∷ r m p z p m
    ∷ r z p z p m
    ∷ r p p z p m
    ∷ r m m p p m
    ∷ r z m p p m
    ∷ r p m p p m
    ∷ r m z p p m
    ∷ r z z p p m
    ∷ r p z p p m
    ∷ r m p p p m
    ∷ r z p p p m
    ∷ r p p p p m
    ∷ r m m m m z
    ∷ r z m m m z
    ∷ r p m m m z
    ∷ r m z m m z
    ∷ r z z m m z
    ∷ r p z m m z
    ∷ r m p m m z
    ∷ r z p m m z
    ∷ r p p m m z
    ∷ r m m z m z
    ∷ r z m z m z
    ∷ r p m z m z
    ∷ r m z z m z
    ∷ r z z z m z
    ∷ r p z z m z
    ∷ r m p z m z
    ∷ r z p z m z
    ∷ r p p z m z
    ∷ r m m p m z
    ∷ r z m p m z
    ∷ r p m p m z
    ∷ r m z p m z
    ∷ r z z p m z
    ∷ r p z p m z
    ∷ r m p p m z
    ∷ r z p p m z
    ∷ r p p p m z
    ∷ r m m m z z
    ∷ r z m m z z
    ∷ r p m m z z
    ∷ r m z m z z
    ∷ r z z m z z
    ∷ r p z m z z
    ∷ r m p m z z
    ∷ r z p m z z
    ∷ r p p m z z
    ∷ r m m z z z
    ∷ r z m z z z
    ∷ r p m z z z
    ∷ r m z z z z
    ∷ []
