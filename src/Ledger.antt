-- ===== src/Ledger.antt =====
-- The ledger's state (core/ledger.go, type Ledger; core/cascade_commit.go, type cascadeBuild), its
-- balance caches, and the reads that see an active cascade in place of the store.
-- A call holds the locks of what it writes, so a call is one step from state to state. `MemStore`
-- never fails a read, so the `err != nil` branches after a read are left out.
pub mod Commit
pub mod Effect
pub mod Idle
pub mod Invariant
pub mod Supply
pub mod Attest
pub mod Transfer
pub mod Undo
pub mod Weights
pub mod Height
pub mod Staged
pub mod Account
pub mod Credential
pub mod Admission
pub mod Contract
pub mod Cascade
use xe.Prelude.{
  ℕ, ◌+◌, ◌-◌, String, Bool, true, false, Option, none, some, List, [], ◌∷◌, when_some, leb, ltb,
  str_eq, if◌then◌else◌,
}
use xe.Prelude.Int.{ℤ}
use xe.Map.{Map, lookup, insert, delete}
use xe.Word.{add_u64, sub_u64}
use xe.Types.{
  Block, BlockType, AccountChain, PendingSend, Lease, LeaseState, Keyset, AssetDelta, BlockUndo,
  BlockCommit, CertificateInfo, TimekeeperConfig, TimekeeperAttestation,
}
use xe.Lease.{LeaseTiming}
use xe.Reputation.{ReputationEvent, Engine}
use xe.Store.{MemStore, submap, is_set}

pub record EpochParams : Type 0 where
  pub r : ℕ
  pub payout_cap : ℕ
  pub twap : ℕ

-- What the ledger is configured with: the callbacks of `LedgerConfig`, by what they give at the
-- time of the call; the package variables that genesis sets; the clock; and the signature check of
-- an attestation for a lease hash (`VerifyAttestation`, which is ed25519 over SHA-256).
pub record LedgerConfig : Type 0 where
  pub timing : LeaseTiming
  pub now : ℤ
  pub timekeeper_config : Option TimekeeperConfig
  pub minter_config : Option (List String)
  pub certificate_lookup : Option (String → Option CertificateInfo)
  pub epoch_at : Option (ℤ → List EpochParams)
  pub verify_attestation : TimekeeperAttestation → String → Bool

-- The variables that the in-memory half of an undo closes over (core/rollback.go, `apply`).
pub record MemApply : Type 0 where
  pub account : String
  pub asset : String
  pub delete_keyset_account : String
  pub delete_account_key_account : String
  pub delete_account : Bool
  pub parent_bal : ℕ
  pub asset_debit : Option AssetDelta
  pub xe_before : ℕ
  pub xe_after : ℕ
  pub prev_rep : String
  pub rep_revert : Option ReputationEvent

pub record CascadeBuild : Type 0 where
  pub winner_hash : String
  pub undos : List BlockUndo
  pub mem_applies : List MemApply
  pub chains : Map AccountChain
  pub add_pending : Map PendingSend
  pub del_pending : Map Bool
  pub restore_lease : Map Lease
  pub delete_lease : Map Bool
  pub delete_keyset : Map Bool
  pub delegation : Map String
  pub delegated : Map Bool

-- A weight is a `big.Int` that is never below 0.
pub record Ledger : Type 0 where
  pub store : MemStore
  pub delegation : Map String
  pub weights : Map ℕ
  pub asset_balances : Map (Map ℕ)
  pub block_count : ℕ
  pub delegation_underflow : ℕ
  pub keysets : Map Keyset
  pub account_keys : Map String
  pub reputation : Engine
  pub active_cascade : Option CascadeBuild

-- `m[k]` of a map to numbers, to texts and to truth values.
abbrev pub number_at : String → Map ℕ → ℕ
number_at k m = when_some (lookup k m) 0 (λ n. n)

abbrev pub text_at : String → Map String → String
text_at k m = when_some (lookup k m) "" (λ s. s)

abbrev pub flag_at : String → Map Bool → Bool
flag_at k m = when_some (lookup k m) false (λ b. b)

unfoldable pub get_asset_balance : Map (Map ℕ) → String → String → ℕ
get_asset_balance balances account asset = number_at asset (submap account balances)

unfoldable pub set_asset_balance : String → String → ℕ → Map (Map ℕ) → Map (Map ℕ)
set_asset_balance account asset balance balances =
    insert account (insert asset balance (submap account balances)) balances

unfoldable pub add_asset_balance : String → String → ℕ → Map (Map ℕ) → Map (Map ℕ)
add_asset_balance account asset delta balances =
    let m = submap account balances in
    insert account (insert asset (add_u64 (number_at asset m) delta) m) balances

unfoldable pub sub_asset_balance : String → String → ℕ → Map (Map ℕ) → Map (Map ℕ)
sub_asset_balance account asset delta balances = elim (lookup account balances) [
  | none ↦ balances
  | some m ↦
      let v = if leb (number_at asset m) delta then 0 else number_at asset m - delta in
      insert account (insert asset v m) balances
]

-- `if asset == "" { asset = "XE" }`
abbrev pub asset_or_xe : String → String
asset_or_xe a = if str_eq a "" then "XE" else a

-- The loop of `assetBalanceOnChain`, from the balance found so far.
unfoldable pub balance_on_chain_from : String → ℕ → AccountChain → ℕ
balance_on_chain_from asset bal [] = bal
balance_on_chain_from asset bal (b ∷ rest) =
    balance_on_chain_from asset (if str_eq (asset_or_xe b.asset) asset then b.balance else bal) rest

unfoldable pub asset_balance_on_chain : AccountChain → String → ℕ
asset_balance_on_chain chain asset = balance_on_chain_from asset 0 chain

abbrev pub is_settle : BlockType → Bool
is_settle BlockType.lease_settle = true
is_settle _ = false

-- What a settlement block credits in stake, by the lease record of the store.
abbrev pub settled_stake : Map Lease → Block → ℕ
settled_stake leases b =
    if is_settle b.type then when_some (lookup b.source leases) 0 (λ l. l.stake) else 0

unfoldable pub xusd_balance_from : Map Lease → ℕ → AccountChain → ℕ
xusd_balance_from leases bal [] = bal
xusd_balance_from leases bal (b ∷ rest) =
    let own = if str_eq (asset_or_xe b.asset) "XUSD" then b.balance else bal in
    xusd_balance_from leases (add_u64 own (settled_stake leases b)) rest

unfoldable pub xusd_balance_on_chain : Map Lease → AccountChain → ℕ
xusd_balance_on_chain leases chain = xusd_balance_from leases 0 chain

-- `overlayChain`
unfoldable pub overlay_chain : Ledger → String → Option AccountChain
overlay_chain l account = when_some l.active_cascade none (λ cb. lookup account cb.chains)

unfoldable pub get_account_chain_overlay : Ledger → String → Option AccountChain
get_account_chain_overlay l account = elim (overlay_chain l account) [
  | some ch ↦ some ch
  | none ↦ lookup account l.store.chains
]

unfoldable pub get_pending_send_overlay : Ledger → String → Option PendingSend
get_pending_send_overlay l h = elim l.active_cascade [
  | none ↦ lookup h l.store.pending
  | some cb ↦ elim (lookup h cb.add_pending) [
    | some ps ↦ some ps
    | none ↦ if flag_at h cb.del_pending then none else lookup h l.store.pending
  ]
]

unfoldable pub get_lease_overlay : Ledger → String → Option Lease
get_lease_overlay l h = elim l.active_cascade [
  | none ↦ lookup h l.store.leases
  | some cb ↦ elim (lookup h cb.restore_lease) [
    | some lease ↦ some lease
    | none ↦ if flag_at h cb.delete_lease then none else lookup h l.store.leases
  ]
]

unfoldable pub get_keyset_overlay : Ledger → String → Option Keyset
get_keyset_overlay l account = elim l.active_cascade [
  | none ↦ lookup account l.keysets
  | some cb ↦ if flag_at account cb.delete_keyset then none else lookup account l.keysets
]

unfoldable pub get_asset_balance_overlay : Ledger → String → String → ℕ
get_asset_balance_overlay l account asset = elim (overlay_chain l account) [
  | none ↦ get_asset_balance l.asset_balances account asset
  | some ch ↦
      if str_eq (asset_or_xe asset) "XUSD"
      then xusd_balance_on_chain l.store.leases ch
      else asset_balance_on_chain ch (asset_or_xe asset)
]

unfoldable pub overlay_delegation_rep : Ledger → String → Option String
overlay_delegation_rep l account = elim l.active_cascade [
  | none ↦ none
  | some cb ↦ if flag_at account cb.delegated then some (text_at account cb.delegation) else none
]
