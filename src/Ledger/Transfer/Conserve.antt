-- ===== src/Ledger/Transfer/Conserve.antt =====
-- The supply of each asset under sends, receives, burns and mints.
use xe.Prelude.{ℕ, ◌+◌, ◌<◌, String, ◌≡◌, refl, arith, none, some, ok, Option, true}
use xe.Map.{lookup}
use xe.Word.{modulus}
use xe.Types.{Block, AccountChain}
use xe.Ledger.{Ledger, LedgerConfig, asset_or_xe, set_asset_balance}
use xe.Ledger.Idle.{asset_or_xe_valid}
use xe.Ledger.Invariant.{IsSound, IsNew}
use xe.Ledger.Supply.{
  supply, held, of_asset, held-set_asset_balance, in_flight-insert, in_flight-delete,
}
use xe.Ledger.Transfer.{
  validate_and_add_send, validate_and_add_burn, validate_and_add_receive, validate_and_add_mint,
  pending_of, is_minter,
}
use xe.Ledger.Transfer.Accepted.{
  Credited, old_balance, send_accepted, burn_accepted, receive_accepted, mint_accepted,
}

module _ (l : Ledger) (b : Block) (sound : IsSound l) (new : IsNew l b) where
  -- The total that the accounts hold, after the block's balance has been cached.
  held_written :
      (a : String)
      → held a (set_asset_balance b.account (asset_or_xe b.asset) b.balance l.asset_balances)
          + of_asset a b.asset (old_balance l b)
        ≡ held a l.asset_balances + of_asset a b.asset b.balance
  held_written a =
      rw (asset_or_xe_valid b.asset new.asset)
        (held-set_asset_balance a b.account b.asset b.balance l.asset_balances)

  -- A send conserves the supply of every asset: what the account loses is in flight.
  pub send-supply :
      {l' : Ledger} (a : String) → validate_and_add_send l b ≡ ok l' → supply a l' ≡ supply a l
  unfolding supply
  send-supply {l'} a h =
      let (chain, found, d, positive, w) = send_accepted l b sound.idle h in
      rw (w.balances, w.pending)
        (ground (
          arith,
          held_written a,
          d.covered,
          d.balance,
          in_flight-insert a (pending_of b b.asset) l.store.pending (sound.sent b.hash new.fresh),
          asset_or_xe_valid b.asset new.asset,
        ))

  Credited-exact :
      (amount : ℕ) (o : Option AccountChain)
      → amount < modulus
      → lookup b.account l.store.chains ≡ o
      → Credited l b amount o
      → b.balance ≡ old_balance l b + amount
  Credited-exact amount none ha e h = omega (arith, sound.unopened b.account b.asset e, h.1)
  Credited-exact amount (some chain) ha e h =
      ground (arith, sound.bounded b.account b.asset, h.1, h.2)

  -- A receive conserves the supply of every asset: what was in flight is held, and the sum does
  -- not wrap.
  pub receive-supply :
      {l' : Ledger} (a : String) → validate_and_add_receive l b ≡ ok l' → supply a l' ≡ supply a l
  unfolding supply
  receive-supply {l'} a h =
      let (ps, found, dest, asset, source, c, w) = receive_accepted l b sound.idle h in
      rw (w.balances, w.pending, source)
        (ground (
          arith,
          held_written a,
          Credited-exact ps.amount _ (sound.amounts b.source ps found) refl c,
          in_flight-delete a b.source l.store.pending sound.unique found,
          asset,
        ))

  -- A burn takes its amount out of the supply of XE, and leaves every other asset alone.
  pub burn-supply :
      {l' : Ledger} (a : String)
      → validate_and_add_burn l b ≡ ok l'
      → supply a l' + of_asset a "XE" b.amount ≡ supply a l
  unfolding supply
  burn-supply {l'} a h =
      let (chain, found, d, xe, w) = burn_accepted l b sound.idle h in
      rw (w.balances, w.pending) (ground (arith, held_written a, d.covered, d.balance, xe))

  -- An accepted mint on a sound ledger adds its amount to the supply of XUSD and leaves every
  -- other asset alone; only an authorized minter's block is accepted.
  pub mint-supply :
      (cfg : LedgerConfig) {l' : Ledger} (a : String)
      → validate_and_add_mint cfg l b ≡ ok l'
      → (supply a l' ≡ supply a l + of_asset a "XUSD" b.amount) × (is_minter cfg b.account ≡ true)
  unfolding supply
  mint-supply cfg {l'} a h =
      let (xusd, minter, c, w) = mint_accepted l b sound.idle cfg h in
      (
        rw (w.balances, w.pending)
            (ground (arith, held_written a, Credited-exact b.amount _ new.amount refl c, xusd)),
        minter,
      )
