-- ===== src/Kerl/Bigint/Bytes.antt =====
-- A number that is read as bytes is set from them again.
use iota_go.Common.{
  ℕ, ◌+◌, ◌*◌, ◌/◌, ◌%◌, ◌^◌, ◌≤◌, ◌<◌, ◌≡◌, refl, ap, ◌∙◌, List, [], ◌∷◌, ◌++◌, le→ltb, eq→==,
  length, drop, arith, length-append, take_front, drop_front,
}
use iota_go.Consts.{ok}
use iota_go.Kerl.Bigint.{Bigint, bytes_of, set_loop, set_bytes, read_loop, read}
use iota_go.Kerl.Bigint.Sums.{AreWords}

recompose :
    (w : ℕ)
    → w < 2 ^ 32
    → w / 2 ^ 24 % 256 * 2 ^ 24 + w / 2 ^ 16 % 256 * 2 ^ 16 + w / 2 ^ 8 % 256 * 2 ^ 8 + w % 256 ≡ w
recompose w h = omega arith

length-read_loop : (x : Bigint) → length (read_loop x) ≡ 4 * length x
unfolding read_loop bytes_of
length-read_loop [] = refl
length-read_loop (w ∷ words) =
    length-append (read_loop words) _ ∙ omega (arith, length-read_loop words)

set_loop-read_loop : (x : Bigint) → AreWords x → set_loop (length x) (read_loop x) ≡ ok x
unfolding set_loop read_loop
set_loop-read_loop [] h = refl
set_loop-read_loop (w ∷ words) (hw, hs) =
    let size = length-read_loop words in
    rw
      (
        drop_front (read_loop words) (bytes_of w) (4 * length words) size,
        take_front (read_loop words) (bytes_of w) (4 * length words) size,
        set_loop-read_loop words hs,
      )
      (ap (λ v. ok (v ∷ words)) (recompose w hw))

-- A number of 32-bit words that is read into a buffer with room for its bytes: these bytes set any
-- number of as many words to the number that was read, and what the buffer holds behind them stays.
pub set_bytes-read :
    (x other : Bigint) (out : List ℕ)
    → AreWords x
    → length other ≡ length x
    → length x * 4 ≤ length out
    → (bytes : List ℕ) × (read x out ≡ ok (bytes ++ drop (length x * 4) out, length x * 4))
      × (length bytes ≡ length x * 4)
      × (set_bytes other bytes ≡ ok x)
unfolding read set_bytes
set_bytes-read x other out h l room =
    let size : length (read_loop x) ≡ length x * 4 = length-read_loop x ∙ omega arith in
    (
      read_loop x,
      rw (le→ltb _ _ room) refl,
      size,
      rw (eq→== (length other * 4) (length (read_loop x)) (omega arith), l)
          (set_loop-read_loop x h),
    )
