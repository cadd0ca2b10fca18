-- ===== src/Ledger/Invariant.antt =====
-- What holds of the ledger between two blocks: the balance cache and the pending sends fit their
-- words, and agree with the stored chains and blocks on what exists.
use xe.Prelude.{◌<◌, String, ◌≡◌, true, none, some}
use xe.Map.{lookup}
use xe.Map.Unique.{IsUnique}
use xe.Word.{modulus}
use xe.Types.{Block, PendingSend, is_valid_asset}
use xe.Ledger.{Ledger, get_asset_balance}

pub record IsSound (l : Ledger) : Type 0 where
  -- No cascade is active.
  pub idle : l.active_cascade ≡ none
  pub unique : IsUnique l.store.pending
  -- A cached balance is a uint64.
  pub bounded :
      (account asset : String) → get_asset_balance l.asset_balances account asset < modulus
  -- An account with no chain holds nothing.
  pub unopened :
      (account asset : String)
      → lookup account l.store.chains ≡ none
      → get_asset_balance l.asset_balances account asset ≡ 0
  -- A pending send stands under the hash of a stored block, and its amount is a uint64.
  pub sent : (h : String) → lookup h l.store.blocks ≡ none → lookup h l.store.pending ≡ none
  pub amounts :
      (h : String) (ps : PendingSend) → lookup h l.store.pending ≡ some ps → ps.amount < modulus

-- What decoding and the checks of `addBlock` have established of a block before its handler runs:
-- its amounts are uint64, its asset is supported, and its hash is not stored yet.
pub record IsNew (l : Ledger) (b : Block) : Type 0 where
  pub balance : b.balance < modulus
  pub amount : b.amount < modulus
  pub asset : is_valid_asset b.asset ≡ true
  pub fresh : lookup b.hash l.store.blocks ≡ none
