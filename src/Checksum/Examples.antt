-- ===== src/Checksum/Examples.antt =====
-- The theorems on checksums at concrete inputs, over a sponge whose hash is the trytes it absorbed.
use iota_go.Common.{
  ◌≡◌, refl, true, [], ◌∷◌, ◌++◌, length, replicate, take, ap, sym, ◌∙◌, pos, length-replicate,
}
use iota_go.Consts.{ok, ok_inj}
use iota_go.Trinary.Tryte.{is_valid_tryte}
use iota_go.Trinary.Convert.{Trytes, trytes_eq, valid_trytes, all_valid_trytes}
use iota_go.Sponge.{Sponge}
use iota_go.Checksum.{pad_loop, checksum_of, add_checksum, checksum, valid_checksum, valid_address}
use iota_go.Checksum.Validity.{valid_address-add_checksum, add_checksum-valid_address}

abbrev pub mirror : Sponge
mirror = record {
  State = Trytes;
  fresh = [];
  absorb = λ s ts. ok s;
  squeeze = λ s n. ok (replicate n (pos 0), s);
  absorb_trytes = λ s ts. ok ts;
  squeeze_trytes = λ s n. ok (s, s);
  length-squeeze =
      λ s n out s' e. ap (λ p. length p.0) (sym (ok_inj e)) ∙ length-replicate n (pos 0);
}

abbrev address : Trytes
address = b'A' ∷ replicate 71 b'9' ++ replicate 9 b'Q'

abbrev whole : Trytes
whole = address ++ replicate 9 b'Q'

add_run : add_checksum mirror address true 9 ≡ ok whole
unfolding add_checksum checksum_of pad_loop
add_run = refl

valid_run : valid_address mirror whole ≡ ok tt
unfolding valid_address valid_checksum checksum add_checksum checksum_of pad_loop trytes_eq
    valid_trytes all_valid_trytes is_valid_tryte
valid_run = refl

valid_address-add_checksum_example :
    (length whole ≡ 90)
    × (take 81 whole ≡ address)
    × (valid_address mirror whole ≡ valid_trytes whole)
valid_address-add_checksum_example = valid_address-add_checksum mirror address whole refl add_run

add_checksum-valid_address_example : add_checksum mirror (take 81 whole) true 9 ≡ ok whole
add_checksum-valid_address_example = add_checksum-valid_address mirror whole refl valid_run
