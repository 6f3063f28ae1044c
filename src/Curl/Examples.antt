-- ===== src/Curl/Examples.antt =====
-- The theorems on Curl at concrete inputs.
use iota_go.Common.{ℕ, zero, suc, length, ◌≡◌, refl, ◌++◌, replicate, pos, negsuc}
use iota_go.Consts.{ok, ◌>>=◌}
use iota_go.Trinary.Trits.{Trits, valid_trit}
use iota_go.Trinary.Convert.RoundTrip.{AllTrits}
use iota_go.Curl.{Curl, new_curl, curl_p27, curl_p81, transform, absorb, squeeze}
use iota_go.Curl.Rounds.{curl_rounds, transform-curl_rounds}
use iota_go.Curl.Streams.{absorb-append}
use iota_go.Curl.Squeezes.{Squeezed, squeeze-Squeezed}

abbrev ones : Trits
ones = replicate 729 (pos 1)

transform-curl_rounds_example : transform curl_p81 ones ≡ curl_rounds curl_p81 ones
transform-curl_rounds_example = transform-curl_rounds curl_p81 ones refl

absorb-append_example :
    absorb curl_p27 new_curl (replicate 243 (pos 1) ++ replicate 486 (negsuc 0)) ≡ (
      absorb curl_p27 new_curl (replicate 243 (pos 1)) >>= λ c.
      absorb curl_p27 c (replicate 486 (negsuc 0)))
absorb-append_example =
    absorb-append curl_p27 new_curl (replicate 243 (pos 1)) (replicate 486 (negsuc 0)) 0 1 refl refl

zeros-AllTrits : (n : ℕ) → AllTrits (replicate n (pos 0))
unfolding valid_trit
zeros-AllTrits zero = tt
zeros-AllTrits (suc n) = (refl, zeros-AllTrits n)

squeeze-Squeezed_example :
    (out : Trits × Curl) × (squeeze curl_p27 new_curl 729 ≡ ok out)
    × (length (out.0) ≡ 729)
    × Squeezed curl_p27 new_curl 2 out
squeeze-Squeezed_example = squeeze-Squeezed curl_p27 new_curl 2 refl (zeros-AllTrits 729)
