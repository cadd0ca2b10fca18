-- ===== src/Ledger/Transfer/Cached.antt =====
-- The balance cache agrees with the chains (core/rollback.go, assetBalanceOnChain: the scan that
-- core/ledger.go, rebuildAssetBalances, and an undo take the balance from).
use xe.Prelude.{
  ℕ, String, ◌≡◌, refl, arith, Option, none, some, [], ◌∷◌, ◌++◌, str_eq, eq_iff, when_some,
  if◌then◌else◌, Bool-cases, inl, inr,
}
use xe.Map.{lookup, lookup-insert}
use xe.Types.{Block, AccountChain, PendingSend}
use xe.Ledger.{
  Ledger, LedgerConfig, asset_or_xe, get_asset_balance, balance_on_chain_from,
  asset_balance_on_chain,
}
use xe.Ledger.Invariant.{IsSound}
use xe.Ledger.Transfer.{pending_of}
use xe.Ledger.Transfer.Accepted.{
  Written, old_chain, send_accepted, burn_accepted, receive_accepted, mint_accepted,
}
use xe.Ledger.Transfer.Sound.{get-set_asset_balance}
use xe.Ledger.Transfer.Run.{Step, Run, Run-IsSound}

-- The last balance of an asset on the stored chain of an account, 0 where there is none.
abbrev pub stored_balance : Ledger → String → String → ℕ
stored_balance l account asset =
    asset_balance_on_chain (when_some (lookup account l.store.chains) [] (λ ch. ch)) asset

-- Every cached balance is the one on the stored chain.
pub record IsCached (l : Ledger) : Type 0 where
  pub agrees :
      (account asset : String)
      → get_asset_balance l.asset_balances account asset ≡ stored_balance l account asset

balance_from-append :
    (asset : String) (chain : AccountChain) (b : Block) (bal : ℕ)
    → balance_on_chain_from asset bal (chain ++ b ∷ []) ≡ (
        if str_eq (asset_or_xe b.asset) asset
        then b.balance
        else balance_on_chain_from asset bal chain)
unfolding balance_on_chain_from
balance_from-append asset [] b bal = refl
balance_from-append asset (c ∷ rest) b bal = balance_from-append asset rest b _

Written-IsCached :
    (l l' : Ledger) (b : Block) (add : Option PendingSend) (gone : String)
    → Written l b add gone l'
    → IsCached l
    → IsCached l'
unfolding asset_balance_on_chain
Written-IsCached l l' b add gone w c = record {
  agrees = λ k s. elim (Bool-cases (str_eq b.account k)) [
    | inl e ↦
        (let same : b.account ≡ k = (eq_iff b.account k).0 e in
          rw
            (
              w.balances,
              w.chains,
              get-set_asset_balance k s b.account (asset_or_xe b.asset) b.balance l.asset_balances,
              lookup-insert k b.account (old_chain l b ++ b ∷ []) l.store.chains,
              e,
              balance_from-append s (old_chain l b) b 0,
              same,
            )
            (ground (arith, c.agrees k s)))
    | inr e ↦
        rw
          (
            w.balances,
            w.chains,
            get-set_asset_balance k s b.account (asset_or_xe b.asset) b.balance l.asset_balances,
            lookup-insert k b.account (old_chain l b ++ b ∷ []) l.store.chains,
            e,
          )
          (c.agrees k s)
  ];
}

Step-IsCached :
    (cfg : LedgerConfig) {l l' : Ledger} → IsSound l → Step cfg l l' → IsCached l → IsCached l'
Step-IsCached cfg {l} {l'} s (Step.sends b new e) c =
    Written-IsCached l l' b (some (pending_of b b.asset)) "" (send_accepted l b s.idle e).4 c
Step-IsCached cfg {l} {l'} s (Step.receives b new e) c =
    Written-IsCached l l' b none b.source (receive_accepted l b s.idle e).6 c
Step-IsCached cfg {l} {l'} s (Step.burns b new e) c =
    Written-IsCached l l' b none "" (burn_accepted l b s.idle e).4 c
Step-IsCached cfg {l} {l'} s (Step.mints b new e) c =
    Written-IsCached l l' b none "" (mint_accepted l b s.idle cfg e).3 c

-- From a sound ledger whose balance cache agrees with its chains, over every history of accepted
-- sends, receives, burns and mints, the cache still agrees: for every account and asset it holds
-- the balance that scanning the stored chain gives.
pub Run-IsCached :
    (cfg : LedgerConfig) {l l' : Ledger} → IsSound l → IsCached l → Run cfg l l' → IsCached l'
Run-IsCached cfg s c Run.here = c
Run-IsCached cfg s c (Run.next r st) =
    Step-IsCached cfg (Run-IsSound cfg s r) st (Run-IsCached cfg s c r)
