-- ===== src/Account/Store/Transfers.antt =====
-- What the methods of the store do to the account that they name.
use iota_go.Common.{
  ℕ, ◌≡◌, refl, ap, sym, ◌∙◌, Bool, false, ◌||◌, List, [], ◌∷◌, ◌==◌, if◌then◌else◌, Option, none,
  some, Option-cases, Bool-cases, inl, inr, ℤ, find, erase, put, find-erase_self, find-erase_ne,
  find-put_self, find-put_ne, arith, map,
}
use iota_go.Consts.{Error, ok, err}
use iota_go.Trinary.Convert.{Trytes, trytes_eq}
use iota_go.Account.Store.{
  AccountId, StoredDepositAddress, PendingTransfer, AccountState, Store, account, save,
  load_account, remove_account, ExportedAccountState, import_account, export_account, copy_state,
  copy_deposit, copy_transfer, read_index, write_index, add_deposit_address, remove_deposit_address,
  get_deposit_addresses, add_pending_transfer, remove_pending_transfer, add_tail_hash,
  get_pending_transfers, trytes_to_pending_transfer, essences, erase_all,
}
use iota_go.Account.Store.Steps.{trytes_eq-IsEquality, ==-IsEquality}

-- Whether an index is among those given.
unfoldable pub among : ℕ → List ℕ → Bool
among index [] = false
among index (i ∷ indices) = index == i || among index indices

find-erase_all :
    (indices : List ℕ) (index : ℕ) (ds : List (ℕ × StoredDepositAddress))
    → find (λ a b. a == b) index (erase_all indices ds)
      ≡ (if among index indices then none else find (λ a b. a == b) index ds)
unfolding erase_all among
find-erase_all [] index ds = refl
find-erase_all (i ∷ indices) index ds = elim (Bool-cases (index == i)) [
  | inl hit ↦
      let gone : find (λ a b. a == b) index (erase (λ a b. a == b) i ds) ≡ none =
        ap (λ k. find (λ a b. a == b) index (erase (λ a b. a == b) k ds)) (sym (ground arith))
        ∙ find-erase_self (λ a b. a == b) ==-IsEquality index ds in
      rw (find-erase_all indices index (erase (λ a b. a == b) i ds), gone, hit) (same none)
  | inr miss ↦
      rw
        (
          find-erase_all indices index (erase (λ a b. a == b) i ds),
          find-erase_ne (λ a b. a == b) ==-IsEquality i index ds miss,
          miss,
        )
        refl
]
  where
    same : (o : Option StoredDepositAddress) → (if among index indices then o else o) ≡ o
    same o = elim (Bool-cases (among index indices)) [ inl e ↦ rw e refl | inr e ↦ rw e refl ]

-- An account that has no deposit address among `used`, has the transfer under its tail, and keeps
-- the rest of what it had.
pub record Sent (before after : AccountState) (tail : Trytes) (kept : List Trytes) (used : List ℕ)
    : Type 0 where
  pub same_index : after.key_index ≡ before.key_index
  pub deposits :
      (index : ℕ)
      → find (λ a b. a == b) index after.deposit_addresses
        ≡ (if among index used then none else find (λ a b. a == b) index before.deposit_addresses)
  pub sent :
      find trytes_eq tail after.pending_transfers
      ≡ some (record { bundle = kept; tails = tail ∷ [] })
  pub others :
      (other : Trytes)
      → trytes_eq other tail ≡ false
      → find trytes_eq other after.pending_transfers ≡ find trytes_eq other before.pending_transfers

-- For an account that exists and transactions that have essences: the pending transfer is stored under
-- its tail with these essences, the deposit addresses that it spends are gone, and nothing else of the
-- account changes.
pub add_pending_transfer-Sent :
    (id : AccountId) (tail : Trytes) (trytes kept : List Trytes) (used : List ℕ) (store : Store)
    (before : AccountState)
    → account id store ≡ some before
    → essences trytes ≡ ok kept
    → (after : AccountState) × ((add_pending_transfer id tail trytes used store).1 ≡ ok tt)
      × (account id (add_pending_transfer id tail trytes used store).0 ≡ some after)
      × Sent before after tail kept used
unfolding add_pending_transfer trytes_to_pending_transfer
add_pending_transfer-Sent id tail trytes kept used store before here made =
    let transfer : PendingTransfer = record { bundle = kept; tails = tail ∷ [] } in
    let after : AccountState = record {
      key_index = before.key_index;
      deposit_addresses = erase_all used before.deposit_addresses;
      pending_transfers = put trytes_eq tail transfer before.pending_transfers;
    } in
    (
      after,
      rw (add_pending_transfer, here, made) refl,
      rw (add_pending_transfer, here, made)
          (find-put_self trytes_eq trytes_eq-IsEquality id after store),
      record {
        same_index = refl;
        deposits = λ index. find-erase_all used index before.deposit_addresses;
        sent = find-put_self trytes_eq trytes_eq-IsEquality tail transfer before.pending_transfers;
        others = λ other h.
            find-put_ne trytes_eq trytes_eq-IsEquality tail other transfer before.pending_transfers
              h;
      },
    )

-- Without the account, every method but those that make one fails with the same error and changes
-- nothing.
pub record Missing (id : AccountId) (store : Store) : Type 0 where
  pub remove : remove_account id store ≡ (store, err Error.account_not_found)
  pub export : (now : ℤ) → export_account now id store ≡ err Error.account_not_found
  pub read : read_index id store ≡ err Error.account_not_found
  pub write : (n : ℕ) → write_index id n store ≡ (store, err Error.account_not_found)
  pub add_deposit :
      (n : ℕ) (d : StoredDepositAddress)
      → add_deposit_address id n d store ≡ (store, err Error.account_not_found)
  pub remove_deposit :
      (n : ℕ) → remove_deposit_address id n store ≡ (store, err Error.account_not_found)
  pub get_deposits : get_deposit_addresses id store ≡ err Error.account_not_found
  pub add_transfer :
      (tail : Trytes) (trytes : List Trytes) (used : List ℕ)
      → add_pending_transfer id tail trytes used store ≡ (store, err Error.account_not_found)
  pub remove_transfer :
      (tail : Trytes) → remove_pending_transfer id tail store ≡ (store, err Error.account_not_found)
  pub add_tail :
      (tail more : Trytes) → add_tail_hash id tail more store ≡ (store, err Error.account_not_found)
  pub get_transfers : get_pending_transfers id store ≡ err Error.account_not_found

missing : (id : AccountId) (store : Store) → account id store ≡ none → Missing id store
unfolding remove_account export_account read_index write_index add_deposit_address
    remove_deposit_address get_deposit_addresses add_pending_transfer remove_pending_transfer
    add_tail_hash get_pending_transfers
missing id store gone = record {
  remove = rw (remove_account, gone) refl;
  export = λ now. rw (export_account, gone) refl;
  read = rw (read_index, gone) refl;
  write = λ n. rw (write_index, gone) refl;
  add_deposit = λ n d. rw (add_deposit_address, gone) refl;
  remove_deposit = λ n. rw (remove_deposit_address, gone) refl;
  get_deposits = rw (get_deposit_addresses, gone) refl;
  add_transfer = λ tail trytes used. rw (add_pending_transfer, gone) refl;
  remove_transfer = λ tail. rw (remove_pending_transfer, gone) refl;
  add_tail = λ tail more. rw (add_tail_hash, gone) refl;
  get_transfers = rw (get_pending_transfers, gone) refl;
}

-- An account that exists is removed, and is missing then: every method on it but those that make one
-- fails with the same error and changes nothing.
pub remove_account-Missing :
    (id : AccountId) (store : Store) (state : AccountState)
    → account id store ≡ some state
    → ((remove_account id store).1 ≡ ok tt) × Missing id (remove_account id store).0
unfolding remove_account
remove_account-Missing id store state here =
    rw (remove_account, here)
      (
        refl,
        missing id (erase trytes_eq id store)
            (find-erase_self trytes_eq trytes_eq-IsEquality id store),
      )

load_account-account :
    (id : AccountId) (store : Store)
    → account id (load_account id store).0 ≡ some (load_account id store).1
unfolding load_account
load_account-account id store = elim (Option-cases (account id store)) [
  | inl gone ↦ rw (load_account, gone) (find-put_self trytes_eq trytes_eq-IsEquality id _ store)
  | inr (state, here) ↦ rw (load_account, here) here
]

abbrev with_index : AccountState → ℕ → AccountState
with_index state n = record {
  key_index = n;
  deposit_addresses = state.deposit_addresses;
  pending_transfers = state.pending_transfers;
}

write_index-save :
    (id : AccountId) (n : ℕ) (store : Store) (state : AccountState)
    → account id store ≡ some state
    → write_index id n store ≡ (save id (with_index state n) store, ok tt)
unfolding write_index
write_index-save id n store state here = rw (write_index, here) refl

-- An account that was loaded, whether it is new or not, is in the store as it was loaded; the index
-- that is written then is read back, and the deposit addresses and transfers are those that were loaded.
pub read_index-write_index :
    (id : AccountId) (n : ℕ) (store : Store)
    → (account id (load_account id store).0 ≡ some (load_account id store).1)
      × ((write_index id n (load_account id store).0).1 ≡ ok tt)
      × (read_index id (write_index id n (load_account id store).0).0 ≡ ok n)
      × (get_deposit_addresses id (write_index id n (load_account id store).0).0
          ≡ ok (load_account id store).1.deposit_addresses)
      × (get_pending_transfers id (write_index id n (load_account id store).0).0
          ≡ ok (load_account id store).1.pending_transfers)
unfolding read_index get_deposit_addresses get_pending_transfers
read_index-write_index id n store =
    let s = (load_account id store).0 in
    let state = (load_account id store).1 in
    let here = load_account-account id store in
    let written = write_index-save id n s state here in
    let after = find-put_self trytes_eq trytes_eq-IsEquality id (with_index state n) s in
    (
      here,
      rw written refl,
      rw written (rw (read_index, after) refl),
      rw written (rw (get_deposit_addresses, after) refl),
      rw written (rw (get_pending_transfers, after) refl),
    )

map_same :
    {K V : Type 0} (f : V → V) (entries : List (K × V))
    → ((v : V) → f v ≡ v)
    → map (λ entry. (entry.0, f entry.1)) entries ≡ entries
map_same f [] h = refl
map_same f (entry ∷ entries) h = rw (h entry.1, map_same f entries h) refl

copy_state-same : (state : AccountState) → copy_state state ≡ state
unfolding copy_state
copy_state-same state =
    rw
      (
        map_same copy_deposit state.deposit_addresses (λ d. refl),
        map_same copy_transfer state.pending_transfers (λ t. refl),
      )
      refl

-- An export of an account that exists has its whole state: an import of it into any store, in place of
-- what that store has under the id, makes the account again.
pub import_account-export_account :
    (id : AccountId) (now : ℤ) (store other : Store) (state : AccountState)
    → account id store ≡ some state
    → (exported : ExportedAccountState) × (export_account now id store ≡ ok exported)
      × (account id (import_account exported other) ≡ some state)
unfolding export_account import_account
import_account-export_account id now store other state here = (
  record { id = id; date = now; state = copy_state state },
  rw (export_account, here) refl,
  find-put_self trytes_eq trytes_eq-IsEquality id (copy_state state) other
      ∙ ap some (copy_state-same state),
)
