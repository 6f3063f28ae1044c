-- ===== src/Account/Store.antt =====
-- account/store/store.go, account/store/inmemory/inmemory.go and the conditions of account/deposit/deposit.go:
-- the account store in memory. Every method holds the store's lock, so that each is one step here.
-- Pointers to stored values are the values: a caller that writes through one is not modelled. ImportAccount
-- keeps the maps of the state that it is given, and does not copy them: the state is one whose maps are not
-- nil and are in no other account, as ExportAccount makes it. Then no two accounts have a map in common.
pub mod Essence
pub mod Steps
pub mod Transfers
pub mod Examples
use iota_go.Common.{
  ℕ, zero, suc, ◌+◌, ◌-◌, ◌/◌, Bool, true, false, ◌&&◌, not, List, [], ◌∷◌, ◌++◌, map, ltb, ◌==◌,
  if◌then◌else◌, length, take, drop, Option, none, some, ℤ, find, erase, put,
}
use iota_go.Consts.{
  Error, Result, ok, err, panic, ◌>>=◌, address_trinary_offset, bundle_trinary_offset,
}
use iota_go.Trinary.Convert.{Trytes, trytes_eq}
use iota_go.Guards.{is_empty_trytes}

-- Account ids and hashes are strings.
abbrev pub AccountId : Type 0
AccountId = List ℕ

-- The time is in seconds.
pub record Conditions : Type 0 where
  pub timeout_at : Option ℤ
  pub multi_use : Bool
  pub expected_amount : Option ℕ

pub record StoredDepositAddress : Type 0 where
  pub conditions : Conditions
  pub security_level : ℤ

pub record PendingTransfer : Type 0 where
  pub bundle : List Trytes
  pub tails : List Trytes

pub record AccountState : Type 0 where
  pub key_index : ℕ
  pub deposit_addresses : List (ℕ × StoredDepositAddress)
  pub pending_transfers : List (Trytes × PendingTransfer)

abbrev pub Store : Type 0
Store = List (AccountId × AccountState)

-- `NewInMemoryStore` makes the empty store, and `Clear` goes back to it.
abbrev pub new_in_memory_store : Store
new_in_memory_store = []

abbrev pub new_account_state : AccountState
new_account_state = record { key_index = 0; deposit_addresses = []; pending_transfers = [] }

unfoldable pub is_new : AccountState → Bool
is_new state = length state.deposit_addresses == 0 && length state.pending_transfers == 0

abbrev pub account : AccountId → Store → Option AccountState
account id store = find trytes_eq id store

abbrev pub save : AccountId → AccountState → Store → Store
save id state store = put trytes_eq id state store

unfoldable pub load_account : AccountId → Store → Store × AccountState
load_account id store = elim (account id store) [
  | none ↦ (save id new_account_state store, new_account_state)
  | some state ↦ (store, state)
]

unfoldable pub remove_account : AccountId → Store → Store × Result (Unit {0})
remove_account id store = elim (account id store) [
  | none ↦ (store, err Error.account_not_found)
  | some state ↦ (erase trytes_eq id store, ok tt)
]

-- An exported state has its id, and a date that the store does not keep.
pub record ExportedAccountState : Type 0 where
  pub id : AccountId
  pub date : ℤ
  pub state : AccountState

-- The maps of the state are the account's from here on.
unfoldable pub import_account : ExportedAccountState → Store → Store
import_account exported store = save exported.id exported.state store

abbrev pub copy_deposit : StoredDepositAddress → StoredDepositAddress
copy_deposit d = record {
  conditions = record {
    timeout_at = d.conditions.timeout_at;
    multi_use = d.conditions.multi_use;
    expected_amount = d.conditions.expected_amount;
  };
  security_level = d.security_level;
}

abbrev pub copy_transfer : PendingTransfer → PendingTransfer
copy_transfer t = record { bundle = t.bundle; tails = t.tails }

unfoldable pub copy_state : AccountState → AccountState
copy_state state = record {
  key_index = state.key_index;
  deposit_addresses = map (λ entry. (entry.0, copy_deposit entry.1)) state.deposit_addresses;
  pending_transfers = map (λ entry. (entry.0, copy_transfer entry.1)) state.pending_transfers;
}

-- `now` is the time of the export.
unfoldable pub export_account : ℤ → AccountId → Store → Result ExportedAccountState
unfolding copy_state
export_account now id store = elim (account id store) [
  | none ↦ err Error.account_not_found
  | some state ↦ ok (record { id = id; date = now; state = copy_state state })
]

unfoldable pub read_index : AccountId → Store → Result ℕ
read_index id store = elim (account id store) [
  | none ↦ err Error.account_not_found
  | some state ↦ ok state.key_index
]

unfoldable pub write_index : AccountId → ℕ → Store → Store × Result (Unit {0})
write_index id index store = elim (account id store) [
  | none ↦ (store, err Error.account_not_found)
  | some state ↦ (
    save id
        (record {
          key_index = index;
          deposit_addresses = state.deposit_addresses;
          pending_transfers = state.pending_transfers;
        })
        store,
    ok tt,
  )
]

abbrev pub with_deposits : AccountState → List (ℕ × StoredDepositAddress) → AccountState
with_deposits state ds = record {
  key_index = state.key_index;
  deposit_addresses = ds;
  pending_transfers = state.pending_transfers;
}

abbrev pub with_transfers : AccountState → List (Trytes × PendingTransfer) → AccountState
with_transfers state ts = record {
  key_index = state.key_index;
  deposit_addresses = state.deposit_addresses;
  pending_transfers = ts;
}

unfoldable pub add_deposit_address :
    AccountId → ℕ → StoredDepositAddress → Store → Store × Result (Unit {0})
add_deposit_address id index d store = elim (account id store) [
  | none ↦ (store, err Error.account_not_found)
  | some state ↦ (
    save id (with_deposits state (put (λ a b. a == b) index d state.deposit_addresses)) store,
    ok tt,
  )
]

unfoldable pub remove_deposit_address : AccountId → ℕ → Store → Store × Result (Unit {0})
remove_deposit_address id index store = elim (account id store) [
  | none ↦ (store, err Error.account_not_found)
  | some state ↦ elim (find (λ a b. a == b) index state.deposit_addresses) [
    | none ↦ (store, err Error.deposit_address_not_found)
    | some d ↦ (
      save id (with_deposits state (erase (λ a b. a == b) index state.deposit_addresses)) store,
      ok tt,
    )
  ]
]

unfoldable pub get_deposit_addresses : AccountId → Store → Result (List (ℕ × StoredDepositAddress))
get_deposit_addresses id store = elim (account id store) [
  | none ↦ err Error.account_not_found
  | some state ↦ ok state.deposit_addresses
]

-- The trytes of a transaction up to its bundle hash, without the signature fragment if it is empty.
-- Trytes that are too short panic.
unfoldable pub essence : Trytes → Result Trytes
essence trytes =
    if ltb (length trytes) (bundle_trinary_offset / 3)
    then panic
    else if not (is_empty_trytes (take (address_trinary_offset / 3) trytes))
    then ok (take (bundle_trinary_offset / 3) trytes)
    else ok (drop (address_trinary_offset / 3) (take (bundle_trinary_offset / 3) trytes))

unfoldable pub essences : List Trytes → Result (List Trytes)
essences [] = ok []
essences (trytes ∷ more) = do e ← essence trytes; rest ← essences more; ok (e ∷ rest)

unfoldable pub trytes_to_pending_transfer : List Trytes → Result PendingTransfer
trytes_to_pending_transfer trytes = do
  bundle ← essences trytes
  ok (record { bundle = bundle; tails = [] })

unfoldable pub erase_all :
    List ℕ → List (ℕ × StoredDepositAddress) → List (ℕ × StoredDepositAddress)
erase_all [] ds = ds
erase_all (index ∷ indices) ds = erase_all indices (erase (λ a b. a == b) index ds)

abbrev pub with_tail : PendingTransfer → Trytes → PendingTransfer
with_tail transfer tail = record { bundle = transfer.bundle; tails = transfer.tails ++ (tail ∷ []) }

-- The deposit addresses are removed before the transfer is made, and stay removed if that panics.
unfoldable pub add_pending_transfer :
    AccountId → Trytes → List Trytes → List ℕ → Store → Store × Result (Unit {0})
unfolding erase_all
add_pending_transfer id tail trytes indices store = elim (account id store) [
  | none ↦ (store, err Error.account_not_found)
  | some state ↦
      let removed = with_deposits state (erase_all indices state.deposit_addresses) in
      elim (trytes_to_pending_transfer trytes) [
        | panic ↦ (save id removed store, panic)
        | err e ↦ (save id removed store, err e)
        | ok transfer ↦ (
          save id
              (with_transfers removed
                (put trytes_eq tail (with_tail transfer tail) state.pending_transfers))
              store,
          ok tt,
        )
      ]
]

unfoldable pub remove_pending_transfer : AccountId → Trytes → Store → Store × Result (Unit {0})
remove_pending_transfer id tail store = elim (account id store) [
  | none ↦ (store, err Error.account_not_found)
  | some state ↦ elim (find trytes_eq tail state.pending_transfers) [
    | none ↦ (store, err Error.pending_transfer_not_found)
    | some t ↦
        (save id (with_transfers state (erase trytes_eq tail state.pending_transfers)) store, ok tt)
  ]
]

unfoldable pub add_tail_hash : AccountId → Trytes → Trytes → Store → Store × Result (Unit {0})
add_tail_hash id tail new_tail store = elim (account id store) [
  | none ↦ (store, err Error.account_not_found)
  | some state ↦ elim (find trytes_eq tail state.pending_transfers) [
    | none ↦ (store, err Error.pending_transfer_not_found)
    | some t ↦ (
      save id
          (with_transfers state (put trytes_eq tail (with_tail t new_tail) state.pending_transfers))
          store,
      ok tt,
    )
  ]
]

unfoldable pub get_pending_transfers : AccountId → Store → Result (List (Trytes × PendingTransfer))
get_pending_transfers id store = elim (account id store) [
  | none ↦ err Error.account_not_found
  | some state ↦ ok state.pending_transfers
]
