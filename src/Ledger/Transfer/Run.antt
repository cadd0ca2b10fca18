-- ===== src/Ledger/Transfer/Run.antt =====
-- Histories of accepted sends, receives, burns and mints, and the identity that the supply audit
-- evaluates over them (core/supply.go: what was created is what is held, in flight or destroyed).
use xe.Prelude.{ℕ, ◌+◌, String, ◌≡◌, arith, ok}
use xe.Types.{Block}
use xe.Ledger.{Ledger, LedgerConfig}
use xe.Ledger.Invariant.{IsSound, IsNew}
use xe.Ledger.Supply.{supply, of_asset}
use xe.Ledger.Transfer.{
  validate_and_add_send, validate_and_add_burn, validate_and_add_receive, validate_and_add_mint,
}
use xe.Ledger.Transfer.Conserve.{send-supply, receive-supply, burn-supply, mint-supply}
use xe.Ledger.Transfer.Sound.{send-IsSound, receive-IsSound, burn-IsSound, mint-IsSound}

module _ (cfg : LedgerConfig) where
  -- One accepted block.
  pub data Step (l : Ledger) (l' : Ledger) : Type 0 where
    sends : (b : Block) → IsNew l b → validate_and_add_send l b ≡ ok l' → Step l l'
    receives : (b : Block) → IsNew l b → validate_and_add_receive l b ≡ ok l' → Step l l'
    burns : (b : Block) → IsNew l b → validate_and_add_burn l b ≡ ok l' → Step l l'
    mints : (b : Block) → IsNew l b → validate_and_add_mint cfg l b ≡ ok l' → Step l l'

  -- Any number of them.
  pub data Run (l : Ledger) : Ledger → Type 0 where
    here : Run l l
    next : {m n : Ledger} → Run l m → Step m n → Run l n

  -- What a block creates and destroys of an asset.
  abbrev pub minted_by : {l l' : Ledger} → String → Step l l' → ℕ
  minted_by a (sends b new h) = 0
  minted_by a (receives b new h) = 0
  minted_by a (burns b new h) = 0
  minted_by a (mints b new h) = of_asset a "XUSD" b.amount

  abbrev pub burned_by : {l l' : Ledger} → String → Step l l' → ℕ
  burned_by a (sends b new h) = 0
  burned_by a (receives b new h) = 0
  burned_by a (burns b new h) = of_asset a "XE" b.amount
  burned_by a (mints b new h) = 0

  abbrev pub minted : {l l' : Ledger} → String → Run l l' → ℕ
  minted a here = 0
  minted a (next r s) = minted a r + minted_by a s

  abbrev pub burned : {l l' : Ledger} → String → Run l l' → ℕ
  burned a here = 0
  burned a (next r s) = burned a r + burned_by a s

  Step-IsSound : {l l' : Ledger} → Step l l' → IsSound l → IsSound l'
  Step-IsSound {l} (sends b new h) s = send-IsSound l b s new h
  Step-IsSound {l} (receives b new h) s = receive-IsSound l b s new h
  Step-IsSound {l} (burns b new h) s = burn-IsSound l b s new h
  Step-IsSound {l} (mints b new h) s = mint-IsSound l b s new cfg h

  -- A history of accepted sends, receives, burns and mints keeps the ledger sound: no cascade is
  -- active, every cached balance and every pending amount fits a uint64, an account with no
  -- chain holds nothing, and a pending send stands once, under the hash of a stored block.
  pub Run-IsSound : {l l' : Ledger} → IsSound l → Run l l' → IsSound l'
  Run-IsSound s here = s
  Run-IsSound s (next r st) = Step-IsSound st (Run-IsSound s r)

  Step-supply :
      {l l' : Ledger} (a : String) (st : Step l l')
      → IsSound l
      → supply a l' + burned_by a st ≡ supply a l + minted_by a st
  Step-supply {l} a (sends b new h) s = omega (arith, send-supply l b s new a h)
  Step-supply {l} a (receives b new h) s = omega (arith, receive-supply l b s new a h)
  Step-supply {l} a (burns b new h) s = omega (arith, burn-supply l b s new a h)
  Step-supply {l} a (mints b new h) s = omega (arith, (mint-supply l b s new cfg a h).0)

  -- From a sound ledger, over every history of accepted sends, receives, burns and mints and for
  -- every asset: the supply at the end, with all that the history burned, is the supply at the
  -- start with all that it minted.
  pub Run-supply :
      {l l' : Ledger} (a : String)
      → IsSound l
      → (r : Run l l') → supply a l' + burned a r ≡ supply a l + minted a r
  Run-supply a s here = omega arith
  Run-supply a s (next r st) = omega (arith, Run-supply a s r, Step-supply a st (Run-IsSound s r))
