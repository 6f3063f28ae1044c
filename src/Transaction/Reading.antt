-- ===== src/Transaction/Reading.antt =====
-- What `ParseTransaction` reads: the parts of the trits, and what they hold.
use iota_go.Common.{◌≤◌, ◌≡◌, refl, not, length, ltb, ◌==◌, arith, uint64, slice}
use mathlib.Core.Path.{subst}
use iota_go.Consts.{ok, >>=_split, guard_split, ok_inj}
use iota_go.Trinary.Trits.{Trits, valid_trits, trailing_zeros}
use iota_go.Trinary.Convert.{trits_to_trytes, must_trits_to_trytes}
use iota_go.Trinary.Convert.RoundTrip.{AllTrits, valid_trits-ok}
use iota_go.Trinary.Number.{trits_to_int}
use iota_go.Transaction.{Transaction, parse_fields}
use iota_go.Transaction.RoundTrip.{parsed}

-- What is read from each part of the trits.
pub record Reading (trits : Trits) (t : Transaction) : Type 0 where
  pub size : length trits ≡ 8019
  pub valid : AllTrits trits
  pub fragment : must_trits_to_trytes (slice 0 6561 trits) ≡ ok (t.signature_message_fragment)
  pub addr : trits_to_trytes (slice 6561 243 trits) ≡ ok (t.address)
  pub worth : t.value ≡ trits_to_int (slice 6804 33 trits)
  pub unused : trailing_zeros (slice 6837 48 trits) ≡ 48
  pub obsolete : must_trits_to_trytes (slice 6885 81 trits) ≡ ok (t.obsolete_tag)
  pub time : t.timestamp ≡ uint64 (trits_to_int (slice 6966 27 trits))
  pub current : t.current_index ≡ uint64 (trits_to_int (slice 6993 27 trits))
  pub last : t.last_index ≡ uint64 (trits_to_int (slice 7020 27 trits))
  pub order : t.current_index ≤ t.last_index
  pub bndl : must_trits_to_trytes (slice 7047 243 trits) ≡ ok (t.bundle)
  pub trunk : must_trits_to_trytes (slice 7290 243 trits) ≡ ok (t.trunk_transaction)
  pub branch : must_trits_to_trytes (slice 7533 243 trits) ≡ ok (t.branch_transaction)
  pub tg : must_trits_to_trytes (slice 7776 81 trits) ≡ ok (t.tag)
  pub attached : t.attachment_timestamp ≡ trits_to_int (slice 7857 27 trits)
  pub lower : t.attachment_timestamp_lower_bound ≡ trits_to_int (slice 7884 27 trits)
  pub upper : t.attachment_timestamp_upper_bound ≡ trits_to_int (slice 7911 27 trits)
  pub nnc : must_trits_to_trytes (slice 7938 81 trits) ≡ ok (t.nonce)
  pub unsent : t ≡ parsed t

pub parse_fields-Reading :
    (trits : Trits) (t : Transaction) → parse_fields trits ≡ ok t → Reading trits t
unfolding parse_fields parsed
parse_fields-Reading trits t h0 =
    let (size, h1) = guard_split (not (length trits == 8019)) _ h0 in
    let (u1, valid, h2) = >>=_split (valid_trits trits) _ h1 in
    let (fragment, fragment_read, h3) =
      >>=_split (must_trits_to_trytes (slice 0 6561 trits)) _ h2 in
    let (addr, addr_read, h4) = >>=_split (trits_to_trytes (slice 6561 243 trits)) _ h3 in
    let (unused, h5) = guard_split (not (trailing_zeros (slice 6837 48 trits) == 48)) _ h4 in
    let (obsolete, obsolete_read, h6) =
      >>=_split (must_trits_to_trytes (slice 6885 81 trits)) _ h5 in
    let current = uint64 (trits_to_int (slice 6993 27 trits)) in
    let last = uint64 (trits_to_int (slice 7020 27 trits)) in
    let (order, h7) = guard_split (ltb last current) _ h6 in
    let (bndl, bndl_read, h8) = >>=_split (must_trits_to_trytes (slice 7047 243 trits)) _ h7 in
    let (trunk, trunk_read, h9) = >>=_split (must_trits_to_trytes (slice 7290 243 trits)) _ h8 in
    let (branch, branch_read, h10) = >>=_split (must_trits_to_trytes (slice 7533 243 trits)) _ h9 in
    let (tg, tg_read, h11) = >>=_split (must_trits_to_trytes (slice 7776 81 trits)) _ h10 in
    let (nnc, nnc_read, h12) = >>=_split (must_trits_to_trytes (slice 7938 81 trits)) _ h11 in
    subst (λ t. Reading trits t) (ok_inj h12)
      (record {
        size = ground (arith, size);
        valid = valid_trits-ok trits valid;
        fragment = fragment_read;
        addr = addr_read;
        worth = refl;
        unused = ground (arith, unused);
        obsolete = obsolete_read;
        time = refl;
        current = refl;
        last = refl;
        order = ground (arith, order);
        bndl = bndl_read;
        trunk = trunk_read;
        branch = branch_read;
        tg = tg_read;
        attached = refl;
        lower = refl;
        upper = refl;
        nnc = nnc_read;
        unsent = refl;
      })
