-- ===== src/Transaction/Written.antt =====
-- The trits that parse are those that the transaction is written as.
use iota_go.Common.{
  Bool, ℕ, ◌+◌, ◌*◌, ◌≤◌, ◌≡◌, refl, ap, ◌∙◌, true, false, length, if◌then◌else◌, arith, pos, slice,
  field, Holds, row-Holds, total,
}
use mathlib.Core.Path.{subst}
use iota_go.Consts.{ok, ◌>>=◌, >>=_split, ok_inj}
use iota_go.Trinary.Trits.{Trits}
use iota_go.Trinary.Convert.{Trytes, must_trits_to_trytes}
use iota_go.Trinary.Convert.RoundTrip.{trits_of, length-trits_of}
use iota_go.Transaction.{
  Transaction, parse_fields, transaction_to_trits, parse_transaction, transaction_hash,
}
use iota_go.Sponge.{Sponge}
use iota_go.Transaction.Fields.{IsText, field_full}
use iota_go.Transaction.Layout.{Ready, fields, transaction_to_trits-row}
use iota_go.Transaction.Reading.{Reading, parse_fields-Reading}
use iota_go.Transaction.Parts.{
  part_text, part-IsNumber, part-IsCount, part_value, trits_to_trytes-ok,
}

module _ (trits : Trits) (t : Transaction) (r : Reading trits t) where
  text :
      (i n : ℕ) (s : Trytes)
      → i + 3 * n ≤ 8019
      → must_trits_to_trytes (slice i (3 * n) trits) ≡ ok s
      → IsText n s × (field (pos 0) (3 * n) (trits_of s) ≡ slice i (3 * n) trits)
  text i n s h e =
      let (is_text, back) = part_text trits (r.size) (r.valid) i n s h e in
      (is_text, field_full (3 * n) _ (omega (arith, length-trits_of s, is_text.size)) ∙ back)

  Reading-Ready : Ready t × Holds (pos 0) 0 (fields t) trits
  unfolding fields
  Reading-Ready =
      let (a, a_held) = text 0 2187 _ (omega arith) (r.fragment) in
      let (b, b_held) = text 6561 81 _ (omega arith) (trits_to_trytes-ok _ _ (r.addr)) in
      let (c, c_held) = part_value trits (r.size) (r.valid) _ (r.worth) (r.unused) in
      let (d, d_held) = text 6885 27 _ (omega arith) (r.obsolete) in
      let (e, e_held) = part-IsCount trits (r.size) (r.valid) 6966 _ (omega arith) (r.time) in
      let (f, f_held) = part-IsCount trits (r.size) (r.valid) 6993 _ (omega arith) (r.current) in
      let (g, g_held) = part-IsCount trits (r.size) (r.valid) 7020 _ (omega arith) (r.last) in
      let (h, h_held) = text 7047 81 _ (omega arith) (r.bndl) in
      let (j, j_held) = text 7290 81 _ (omega arith) (r.trunk) in
      let (k, k_held) = text 7533 81 _ (omega arith) (r.branch) in
      let (l, l_held) = text 7776 27 _ (omega arith) (r.tg) in
      let (m, m_held) = part-IsNumber trits (r.size) (r.valid) 7857 _ (omega arith) (r.attached) in
      let (n, n_held) = part-IsNumber trits (r.size) (r.valid) 7884 _ (omega arith) (r.lower) in
      let (o, o_held) = part-IsNumber trits (r.size) (r.valid) 7911 _ (omega arith) (r.upper) in
      let (p, p_held) = text 7938 27 _ (omega arith) (r.nnc) in
      (
        record {
          fragment = a;
          addr = b;
          worth = c;
          obsolete = d;
          time = e;
          current = f;
          last = g;
          order = r.order;
          bndl = h;
          trunk = j;
          branch = k;
          tg = l;
          attached = m;
          lower = n;
          upper = o;
          nnc = p;
        },
        (
          a_held,
          (
            b_held,
            (
              c_held,
              (
                d_held,
                (
                  e_held,
                  (
                    f_held,
                    (
                      g_held,
                      (
                        h_held,
                        (j_held, (k_held, (l_held, (m_held, (n_held, (o_held, (p_held, tt))))))),
                      ),
                    ),
                  ),
                ),
              ),
            ),
          ),
        ),
      )

  whole : length trits ≡ 0 + total (fields t)
  unfolding fields
  whole = r.size

  written : transaction_to_trits t ≡ ok trits
  written =
      let (ready, held) = Reading-Ready in
      transaction_to_trits-row t ready ∙ ap ok (row-Holds (pos 0) (fields t) trits 0 whole held)

Ready-hash : (t : Transaction) (h : Trytes) → Ready t → Ready (record t { hash = h })
Ready-hash t h r = record {
  fragment = r.fragment;
  addr = r.addr;
  worth = r.worth;
  obsolete = r.obsolete;
  time = r.time;
  current = r.current;
  last = r.last;
  order = r.order;
  bndl = r.bndl;
  trunk = r.trunk;
  branch = r.branch;
  tg = r.tg;
  attached = r.attached;
  lower = r.lower;
  upper = r.upper;
  nnc = r.nnc;
}

hash_unwritten :
    (t : Transaction) (h : Trytes)
    → transaction_to_trits (record t { hash = h }) ≡ transaction_to_trits t
unfolding transaction_to_trits
hash_unwritten t h = refl

-- What parses, with its hash or without, is written back: every field of the transaction has its
-- size, the current index is at most the last, and the transaction is written as the very trits that
-- it was read from.
pub transaction_to_trits-parse_transaction :
    (sponge : Sponge) (no_hash : Bool) (trits : Trits) (t : Transaction)
    → parse_transaction sponge trits no_hash ≡ ok t
    → Ready t × (transaction_to_trits t ≡ ok trits)
unfolding parse_transaction
transaction_to_trits-parse_transaction sponge no_hash trits t e =
    let (t0, read, hashed) = >>=_split (parse_fields trits) _ e in
    let r = parse_fields-Reading trits t0 read in
    let (ready, held) = Reading-Ready trits t0 r in
    written_back no_hash t0 ready (written trits t0 r) hashed
  where
    written_back :
        (no_hash : Bool) (t0 : Transaction)
        → Ready t0
        → transaction_to_trits t0 ≡ ok trits
        → (if no_hash
            then ok t0
            else (transaction_hash sponge t0 >>= λ h. ok (record t0 { hash = h })))
          ≡ ok t
        → Ready t × (transaction_to_trits t ≡ ok trits)
    written_back true t0 ready back done =
        subst (λ t. Ready t × (transaction_to_trits t ≡ ok trits)) (ok_inj done) (ready, back)
    written_back false t0 ready back done =
        let (h, hash_of, done) = >>=_split (transaction_hash sponge t0) _ done in
        subst (λ t. Ready t × (transaction_to_trits t ≡ ok trits)) (ok_inj done)
          (Ready-hash t0 h ready, hash_unwritten t0 h ∙ back)
