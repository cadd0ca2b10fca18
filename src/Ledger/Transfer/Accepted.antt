-- ===== src/Ledger/Transfer/Accepted.antt =====
-- What it takes for the handlers of core/ledger.go and core/mint.go to accept a block, and the write
-- that they make then, outside a cascade.
use xe.Prelude.{
  ℕ, ◌-◌, ◌≤◌, ◌<◌, ◌∙◌, sym, String, ◌≡◌, refl, arith, true, false, none, some, ok, >>=-eq-ok,
  ◌==◌, str_eq, eq_iff, some_or, Option, ◌++◌, [], ◌∷◌, when_some, if◌then◌else◌, require, fail_if,
  ◌||◌, Bool,
}
use xe.Map.{lookup, insert, delete}
use xe.Word.{add_u64}
use xe.Types.{Block, AccountChain, PendingSend, frontier}
use xe.Store.{is_set, commit_leases}
use xe.Ledger.{
  Ledger, LedgerConfig, get_asset_balance, set_asset_balance, get_account_chain_overlay,
  get_pending_send_overlay, asset_or_xe,
}
use xe.Ledger.Idle.{chain_idle, balance_idle, pending_idle}
use xe.Ledger.Commit.{prepare_block_write, commit_block_write}
use xe.Ledger.Effect.{commit-Committed}
use xe.Ledger.Transfer.{
  validate_and_add_send, send_checks, validate_and_add_burn, burn_checks, validate_and_add_receive,
  receive_checks, validate_and_add_mint, mint_checks, is_minter, is_live_lease_escrow, is_contested,
  pending_of, is_empty,
}

pub some_or_inv : {A : Type 0} (o : Option A) (e : String) {a : A} → some_or o e ≡ ok a → o ≡ some a
some_or_inv none e h = cc
some_or_inv (some a) e h = cc

pub require_inv : (t : Bool) (e : String) {u : Unit {0}} → require t e ≡ ok u → t ≡ true
require_inv true e h = refl
require_inv false e h = cc

module _ (l : Ledger) (b : Block) where
  abbrev pub old_balance : ℕ
  old_balance = get_asset_balance l.asset_balances b.account b.asset

  -- The account's chain, empty where there is none.
  abbrev pub old_chain : AccountChain
  old_chain = when_some (lookup b.account l.store.chains) [] (λ ch. ch)

  -- The block is appended to its account's chain and its balance is cached; a pending send may be
  -- added, and one (`gone`) deleted; there is still no cascade.
  pub record Written (add : Option PendingSend) (gone : String) (l' : Ledger) : Type 0 where
    pub blocks : l'.store.blocks ≡ insert b.hash b l.store.blocks
    pub chains : l'.store.chains ≡ insert b.account (old_chain ++ b ∷ []) l.store.chains
    pub pending : l'.store.pending ≡ (
        let added = when_some add l.store.pending (λ ps. insert ps.send_hash ps l.store.pending) in
        if is_set gone then delete gone added else added)
    pub leases : l'.store.leases ≡ l.store.leases
    pub balances :
        l'.asset_balances
        ≡ set_asset_balance b.account (asset_or_xe b.asset) b.balance l.asset_balances
    pub cascade : l'.active_cascade ≡ none

  -- The block extends `chain` and takes its amount out of the balance.
  pub record Debited (chain : AccountChain) : Type 0 where
    pub extends : b.previous ≡ frontier chain
    pub covered : b.amount ≤ old_balance
    pub balance : b.balance ≡ old_balance - b.amount

  -- The block starts a chain with the balance `amount`, or extends the chain and puts `amount` into
  -- the balance, which does not wrap.
  abbrev pub Credited : ℕ → Option AccountChain → Type 0
  Credited amount none = (b.previous ≡ "0") × (b.balance ≡ amount)
  Credited amount (some chain) =
      (b.previous ≡ frontier chain)
      × (b.balance ≡ add_u64 old_balance amount)
      × (old_balance ≤ b.balance)

module _ (l : Ledger) (b : Block) (idle : l.active_cascade ≡ none) where
  plain_write :
      (add : Option PendingSend) (gone : String) {l' : Ledger}
      → commit_block_write
          (record (prepare_block_write l b).0 { add_pending = add; delete_pending_id = gone })
          (prepare_block_write l b).1
          l
        ≡ ok l'
      → Written l b add gone l'
  unfolding prepare_block_write commit_leases
  plain_write add gone {l'} h =
      let k = commit-Committed _ _ l l' idle h in
      record {
        blocks = k.blocks;
        chains = rw (← chain_idle l idle b.account) k.chains;
        pending = k.pending;
        leases = k.leases;
        balances = k.balances;
        cascade = k.cascade;
      }

  send-Debited :
      (chain : AccountChain) → send_checks l b chain ≡ ok tt → Debited l b chain × (0 < b.amount)
  unfolding send_checks
  send-Debited chain h =
      ground (arith, eq_iff b.previous (frontier chain), balance_idle l idle b.account b.asset)

  -- A send that is accepted outside a cascade extends its account's chain at the frontier, has
  -- an amount above 0 that the cached balance covers, and states the balance that is left; the
  -- write stores and appends the block, adds one pending send under its hash, and caches that
  -- balance.
  pub send_accepted :
      {l' : Ledger}
      → validate_and_add_send l b ≡ ok l'
      → (chain : AccountChain) × (lookup b.account l.store.chains ≡ some chain)
        × Debited l b chain
        × (0 < b.amount)
        × Written l b (some (pending_of b b.asset)) "" l'
  unfolding validate_and_add_send prepare_block_write
  send_accepted {l'} h =
      let (chain, found, h₁) =
        >>=-eq-ok (some_or (get_account_chain_overlay l b.account) "send from unopened account: %s")
          _ h in
      let (u, checked, h₂) = >>=-eq-ok (send_checks l b chain) _ h₁ in
      let d = send-Debited chain checked in
      (
        chain,
        sym (chain_idle l idle b.account) ∙ some_or_inv _ _ found,
        d.0,
        d.1,
        plain_write (some (pending_of b b.asset)) "" h₂,
      )

  burn-Debited : (chain : AccountChain) → burn_checks l b chain ≡ ok tt → Debited l b chain
  unfolding burn_checks
  burn-Debited chain h =
      ground (arith, eq_iff b.previous (frontier chain), balance_idle l idle b.account b.asset)

  pub burn_accepted :
      {l' : Ledger}
      → validate_and_add_burn l b ≡ ok l'
      → (chain : AccountChain) × (lookup b.account l.store.chains ≡ some chain)
        × Debited l b chain
        × (b.asset ≡ "XE")
        × Written l b none "" l'
  unfolding validate_and_add_burn prepare_block_write
  burn_accepted {l'} h =
      let (u₁, xe, h₁) = >>=-eq-ok (require (str_eq b.asset "XE") _) _ h in
      let (u₂, free, h₂) = >>=-eq-ok (fail_if (is_set b.destination || is_set b.source) _) _ h₁ in
      let (u₃, amount, h₃) = >>=-eq-ok (fail_if (b.amount == 0) _) _ h₂ in
      let (chain, found, h₄) = >>=-eq-ok (some_or (get_account_chain_overlay l b.account) _) _ h₃ in
      let (u₄, checked, h₅) = >>=-eq-ok (burn_checks l b chain) _ h₄ in
      (
        chain,
        sym (chain_idle l idle b.account) ∙ some_or_inv _ _ found,
        burn-Debited chain checked,
        (eq_iff b.asset "XE").0 (require_inv _ _ xe),
        plain_write none "" h₅,
      )

  receive-Credited :
      (amount : ℕ) (o : Option AccountChain)
      → receive_checks l b amount o ≡ ok tt
      → Credited l b amount o
  unfolding receive_checks
  receive-Credited amount none h = ground (arith, eq_iff b.previous "0")
  receive-Credited amount (some chain) h =
      ground (arith, eq_iff b.previous (frontier chain), balance_idle l idle b.account b.asset)

  -- A receive that is accepted outside a cascade names a pending send to its own account, in the
  -- same asset; it opens the account with the amount, or extends the chain and credits the
  -- amount to a balance that does not wrap; the write stores and appends the block, deletes that
  -- pending send and caches the balance.
  pub receive_accepted :
      {l' : Ledger}
      → validate_and_add_receive l b ≡ ok l'
      → (ps : PendingSend) × (lookup b.source l.store.pending ≡ some ps)
        × (ps.destination ≡ b.account)
        × (b.asset ≡ asset_or_xe ps.asset)
        × (is_set b.source ≡ true)
        × Credited l b ps.amount (lookup b.account l.store.chains)
        × Written l b none b.source l'
  unfolding validate_and_add_receive prepare_block_write
  receive_accepted {l'} h =
      let (u₁, source, h₁) = >>=-eq-ok (require (is_set b.source) _) _ h in
      let (ps, found, h₂) = >>=-eq-ok (some_or (get_pending_send_overlay l b.source) _) _ h₁ in
      let (u₃, dest, h₃) = >>=-eq-ok (require (str_eq ps.destination b.account) _) _ h₂ in
      let (u₄, live, h₄) = >>=-eq-ok (fail_if (is_live_lease_escrow l b.source) _) _ h₃ in
      let (u₅, free, h₅) = >>=-eq-ok (fail_if (is_contested l b.source) _) _ h₄ in
      let (u₆, asset, h₆) = >>=-eq-ok (require (str_eq b.asset (asset_or_xe ps.asset)) _) _ h₅ in
      let (u₇, checked, h₇) =
        >>=-eq-ok (receive_checks l b ps.amount (get_account_chain_overlay l b.account)) _ h₆ in
      (
        ps,
        sym (pending_idle l idle b.source) ∙ some_or_inv _ _ found,
        (eq_iff ps.destination b.account).0 (require_inv _ _ dest),
        (eq_iff b.asset (asset_or_xe ps.asset)).0 (require_inv _ _ asset),
        require_inv _ _ source,
        rw (← chain_idle l idle b.account) (receive-Credited ps.amount _ checked),
        plain_write none b.source h₇,
      )

  mint-Credited : (o : Option AccountChain) → mint_checks l b o ≡ ok tt → Credited l b b.amount o
  unfolding mint_checks
  mint-Credited none h = ground (arith, eq_iff b.previous "0")
  mint-Credited (some chain) h =
      ground (arith, eq_iff b.previous (frontier chain), balance_idle l idle b.account b.asset)

  pub mint_accepted :
      (cfg : LedgerConfig) {l' : Ledger}
      → validate_and_add_mint cfg l b ≡ ok l'
      → (b.asset ≡ "XUSD")
        × (is_minter cfg b.account ≡ true)
        × Credited l b b.amount (lookup b.account l.store.chains)
        × Written l b none "" l'
  unfolding validate_and_add_mint prepare_block_write
  mint_accepted cfg {l'} h =
      let (u₁, asset, h₁) = >>=-eq-ok (require (str_eq b.asset "XUSD") _) _ h in
      let (u₂, minter, h₂) = >>=-eq-ok (require (is_minter cfg b.account) _) _ h₁ in
      let (u₃, free, h₃) = >>=-eq-ok (fail_if (is_set b.destination || is_set b.source) _) _ h₂ in
      let (u₄, memo, h₄) = >>=-eq-ok (require (is_empty b.memo) _) _ h₃ in
      let (u₅, amount, h₅) = >>=-eq-ok (fail_if (b.amount == 0) _) _ h₄ in
      let (u₆, checked, h₆) =
        >>=-eq-ok (mint_checks l b (get_account_chain_overlay l b.account)) _ h₅ in
      (
        (eq_iff b.asset "XUSD").0 (require_inv _ _ asset),
        require_inv _ _ minter,
        rw (← chain_idle l idle b.account) (mint-Credited _ checked),
        plain_write none "" h₆,
      )
