-- ===== src/Account/Store/Essence.antt =====
-- What the store keeps of a transaction is enough to rebuild it up to its bundle hash.
use iota_go.Common.{
  ℕ, ◌+◌, ◌-◌, ◌/◌, ◌≤◌, ◌<◌, ◌≡◌, refl, ap, sym, ◌∙◌, true, false, not, [], ◌∷◌, ◌++◌, ltb, ◌==◌,
  if◌then◌else◌, length, take, drop, replicate, arith, le→ltb, eq→==, lt→==, Bool-cases, inl, inr,
  take-take, take-append-drop, length-take, length-drop, length-append, length-replicate,
}
use mathlib.Core.List.{append_assoc}
use iota_go.Consts.{
  ok, ok_inj, address_trinary_offset, bundle_trinary_offset, transaction_trinary_size,
}
use iota_go.Trinary.Convert.{Trytes}
use iota_go.Guards.{is_empty_trytes}
use iota_go.Account.Store.{essence}

-- The trytes that `PendingTransferToBundle` parses: the fields after the last index are empty, and
-- so is the signature fragment if none was kept.
unfoldable pub restored : Trytes → Trytes
restored kept =
    let padded = kept ++ replicate ((transaction_trinary_size - bundle_trinary_offset) / 3) b'9' in
    if not (length padded == transaction_trinary_size / 3)
    then replicate (address_trinary_offset / 3) b'9' ++ padded
    else padded

is_empty_trytes-replicate :
    (ts : Trytes) → is_empty_trytes ts ≡ true → ts ≡ replicate (length ts) b'9'
unfolding is_empty_trytes
is_empty_trytes-replicate [] h = refl
is_empty_trytes-replicate (t ∷ ts) h =
    let nine : t ≡ b'9' = ground arith in
    rw nine (ap (λ r. b'9' ∷ r) (is_empty_trytes-replicate ts (ground arith)))

abbrev behind : Trytes
behind = replicate ((transaction_trinary_size - bundle_trinary_offset) / 3) b'9'

length-padded : (kept : Trytes) → length (kept ++ behind) ≡ length kept + 324
length-padded kept =
    length-append kept behind ∙ ap (λ n. length kept + n) (length-replicate {A = ℕ} 324 b'9')

restored-short :
    (kept : Trytes) → length kept < 2349 → restored kept ≡ replicate 2187 b'9' ++ (kept ++ behind)
unfolding restored
restored-short kept l =
    rw (lt→== (length (kept ++ behind)) 2673 (omega (arith, length-padded kept))) refl

restored-long : (kept : Trytes) → length kept ≡ 2349 → restored kept ≡ kept ++ behind
unfolding restored
restored-long kept l =
    rw (eq→== (length (kept ++ behind)) 2673 (omega (arith, length-padded kept))) refl

-- A transaction that is not too short is rebuilt from its essence up to the bundle hash, whether its
-- signature fragment was kept or was empty, with empty fields behind.
pub restored-essence :
    (trytes kept : Trytes)
    → transaction_trinary_size / 3 ≤ length trytes
    → essence trytes ≡ ok kept
    → restored kept
      ≡ take (bundle_trinary_offset / 3) trytes
        ++ replicate ((transaction_trinary_size - bundle_trinary_offset) / 3) b'9'
unfolding essence
restored-essence trytes kept l e =
    let long : ltb (length trytes) (bundle_trinary_offset / 3) ≡ false = le→ltb _ _ (omega arith) in
    let front = take (bundle_trinary_offset / 3) trytes in
    let size : length front ≡ 2349 = length-take 2349 trytes ∙ omega arith in
    elim (Bool-cases (is_empty_trytes (take (address_trinary_offset / 3) trytes))) [
      | inl blank ↦
          let cut : drop 2187 front ≡ kept = ok_inj (rw (long, blank) at e) in
          let signature : take 2187 front ≡ replicate 2187 b'9' =
            take-take 2187 2349 trytes (omega arith)
            ∙ is_empty_trytes-replicate (take 2187 trytes) blank
            ∙ ap (λ n. replicate n b'9') {y = 2187} (length-take 2187 trytes ∙ omega arith) in
          let whole : replicate 2187 b'9' ++ kept ≡ front =
            cc (take-append-drop 2187 front, signature, cut) in
          restored-short kept (omega (arith, ap length cut, length-drop 2187 front))
          ∙ sym (append_assoc (replicate 2187 b'9') kept behind)
          ∙ ap (λ r. r ++ behind) whole
      | inr used ↦
          let all : front ≡ kept = ok_inj (rw (long, used) at e) in
          restored-long kept (ap length (sym all) ∙ size) ∙ ap (λ r. r ++ behind) (sym all)
    ]
