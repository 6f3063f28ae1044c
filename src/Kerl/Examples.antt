-- ===== src/Kerl/Examples.antt =====
-- Kerl at concrete inputs, over a hash function that keeps what is written.
use iota_go.Common.{
  zero, suc, ℕ, ◌≡◌, refl, ◌⊎◌, List, [], ◌∷◌, ◌++◌, length, length-replicate, replicate, some,
  get_elem?, pos, int8, ◌+ℤ◌,
}
use iota_go.Consts.{ok}
use iota_go.Trinary.Convert.{Trytes}
use iota_go.Trinary.Convert.RoundTrip.{AreTrytes, trits_of}
use iota_go.Kerl.Hash.{
  Keccak, Kerl, new_kerl, absorb, absorb_trytes, absorb_trytes_loop, write, or_nil,
  tryte_has_zero_last_trit,
}
use iota_go.Kerl.Bigint.{sub, read}
use iota_go.Trinary.Tryte.{is_valid_tryte, must_tryte_to_tryte_value}
use iota_go.Kerl.Convert.{kerl_trytes_to_bytes}
use iota_go.Kerl.Absorbs.{absorb-absorb_trytes}

abbrev keeping : Keccak
keeping = record {
  State = List ℕ;
  reset = [];
  write = λ s bytes. s ++ bytes;
  sum = λ s. replicate {A = ℕ} 48 7;
  length-sum = λ s. length-replicate {A = ℕ} 48 7;
}

abbrev message : Trytes
message = b'I' ∷ b'O' ∷ b'T' ∷ b'A' ∷ replicate 76 b'Z' ++ (b'9' ∷ [])

abbrev message_bytes : List ℕ
message_bytes =
    255 ∷ 49 ∷ 107 ∷ 98 ∷ 153 ∷ 233 ∷ 7 ∷ 72 ∷ 123 ∷ 67 ∷ 197 ∷ 172 ∷ 206 ∷ 105 ∷ 27 ∷ 88 ∷ 132
    ∷ 217 ∷ 51 ∷ 6 ∷ 25 ∷ 55 ∷ 123 ∷ 4 ∷ 91 ∷ 53 ∷ 103 ∷ 174 ∷ 76 ∷ 122 ∷ 56 ∷ 69 ∷ 19 ∷ 48 ∷ 109
    ∷ 100 ∷ 251 ∷ 114 ∷ 213 ∷ 189 ∷ 173 ∷ 175 ∷ 9 ∷ 237 ∷ 151 ∷ 191 ∷ 79 ∷ 177 ∷ []

abbrev absorbed : Kerl keeping
absorbed = record (new_kerl keeping) { hash = message_bytes }

message_run : absorb_trytes keeping (new_kerl keeping) message ≡ ok absorbed
unfolding absorb_trytes absorb_trytes_loop write or_nil tryte_has_zero_last_trit
    kerl_trytes_to_bytes must_tryte_to_tryte_value sub int8 ◌+ℤ◌ read
message_run = refl

last-AreTrytes : (n : ℕ) → AreTrytes (replicate n b'Z' ++ (b'9' ∷ []))
unfolding is_valid_tryte
last-AreTrytes zero = (refl, tt)
last-AreTrytes (suc n) = (refl, last-AreTrytes n)

message-AreTrytes : AreTrytes message
unfolding is_valid_tryte
message-AreTrytes = (refl, (refl, (refl, (refl, last-AreTrytes 76))))

absorb-absorb_trytes_example :
    (absorb keeping (new_kerl keeping) (trits_of message) ≡ ok absorbed)
    × ((length message ≡ 0) ⊎ (get_elem? (trits_of message) 242 ≡ some (pos 0)))
absorb-absorb_trytes_example =
    absorb-absorb_trytes keeping (new_kerl keeping) absorbed message message-AreTrytes message_run
