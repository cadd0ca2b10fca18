-- ===== src/Ledger/Transfer/Sound.antt =====
-- The blocks that move balances keep the ledger sound.
use xe.Prelude.{
  ℕ, ◌<◌, String, ◌≡◌, refl, arith, none, some, ok, str_eq, Option, Bool-cases, inl, inr, eq_iff,
  if◌then◌else◌, true, false, when_some, Bool, ◌&&◌, [], ◌∷◌, ◌++◌,
}
use xe.Map.{Map, lookup, insert, delete, lookup-insert, lookup-delete}
use xe.Map.Unique.{IsUnique, insert-IsUnique, delete-IsUnique}
use xe.Word.{modulus}
use xe.Types.{Block, PendingSend}
use xe.Store.{is_set, submap}
use xe.Ledger.{Ledger, LedgerConfig, asset_or_xe, get_asset_balance, set_asset_balance}
use xe.Ledger.Invariant.{IsSound, IsNew}
use xe.Ledger.Transfer.{
  validate_and_add_send, validate_and_add_burn, validate_and_add_receive, validate_and_add_mint,
  pending_of,
}
use xe.Ledger.Transfer.Accepted.{
  Written, old_chain, send_accepted, burn_accepted, receive_accepted, mint_accepted,
}

-- A cached balance after another one has been set.
pub get-set_asset_balance :
    (k s account asset : String) (v : ℕ) (m : Map (Map ℕ))
    → get_asset_balance (set_asset_balance account asset v m) k s
      ≡ (if str_eq account k && str_eq asset s then v else get_asset_balance m k s)
unfolding get_asset_balance set_asset_balance
get-set_asset_balance k s account asset v m = ground (
  arith,
  lookup-insert k account (insert asset v (submap account m)) m,
  lookup-insert s asset v (submap account m),
  eq_iff account k,
)

-- A pending send may be added, and one deleted.
abbrev pub with_added : Option PendingSend → Map PendingSend → Map PendingSend
with_added o p = when_some o p (λ ps. insert ps.send_hash ps p)

abbrev pub without : Bool → String → Map PendingSend → Map PendingSend
without t id p = if t then delete id p else p

with_added-IsUnique :
    (o : Option PendingSend) (p : Map PendingSend) → IsUnique p → IsUnique (with_added o p)
with_added-IsUnique none p u = u
with_added-IsUnique (some ps) p u = insert-IsUnique ps.send_hash ps p u

without-IsUnique :
    (t : Bool) (id : String) (p : Map PendingSend) → IsUnique p → IsUnique (without t id p)
without-IsUnique true id p u = delete-IsUnique id p u
without-IsUnique false id p u = u

without-some :
    (t : Bool) (id h : String) (p : Map PendingSend) {ps : PendingSend}
    → lookup h (without t id p) ≡ some ps
    → lookup h p ≡ some ps
without-some true id h p e = ground (arith, lookup-delete h id p)
without-some false id h p e = e

without-none :
    (t : Bool) (id h : String) (p : Map PendingSend)
    → lookup h p ≡ none
    → lookup h (without t id p) ≡ none
without-none true id h p e = ground (arith, lookup-delete h id p)
without-none false id h p e = e

module _ (l : Ledger) (b : Block) (sound : IsSound l) (new : IsNew l b) where
  -- What is added is the block's own send.
  abbrev IsOwn : Option PendingSend → Type 0
  IsOwn none = Unit
  IsOwn (some ps) = (ps.send_hash ≡ b.hash) × (ps.amount < modulus)

  added_sent :
      (o : Option PendingSend) (h : String)
      → IsOwn o
      → str_eq b.hash h ≡ false
      → lookup h l.store.blocks ≡ none
      → lookup h (with_added o l.store.pending) ≡ none
  added_sent none h own ne e = sound.sent h e
  added_sent (some ps) h own ne e =
      ground (arith, lookup-insert h ps.send_hash ps l.store.pending, sound.sent h e, own.0)

  added_amounts :
      (o : Option PendingSend) (h : String) (ps : PendingSend)
      → IsOwn o
      → lookup h (with_added o l.store.pending) ≡ some ps
      → ps.amount < modulus
  added_amounts none h ps own e = sound.amounts h ps e
  added_amounts (some new_ps) h ps own e = elim (Bool-cases (str_eq new_ps.send_hash h)) [
    | inl t ↦
        (let same : new_ps ≡ ps =
            ground (arith, lookup-insert h new_ps.send_hash new_ps l.store.pending) in
          rw (← same) own.1)
    | inr t ↦
        sound.amounts h ps (ground (arith, lookup-insert h new_ps.send_hash new_ps l.store.pending))
  ]

  module _ (add : Option PendingSend) (gone : String) {l' : Ledger}
      (w : Written l b add gone l') where
    written_bounded : (k s : String) → get_asset_balance l'.asset_balances k s < modulus
    written_bounded k s =
        rw
          (
            w.balances,
            get-set_asset_balance k s b.account (asset_or_xe b.asset) b.balance l.asset_balances,
          )
          (ground (arith, sound.bounded k s, new.balance))

    written_unopened :
        (k s : String)
        → lookup k l'.store.chains ≡ none
        → get_asset_balance l'.asset_balances k s ≡ 0
    written_unopened k s e =
        rw
          (
            w.balances,
            get-set_asset_balance k s b.account (asset_or_xe b.asset) b.balance l.asset_balances,
          )
          (ground (
            arith,
            lookup-insert k b.account (old_chain l b ++ b ∷ []) l.store.chains,
            rw w.chains at e,
            sound.unopened k s,
          ))

    unstored :
        (h : String)
        → lookup h l'.store.blocks ≡ none
        → (str_eq b.hash h ≡ false) × (lookup h l.store.blocks ≡ none)
    unstored h e = ground (arith, lookup-insert h b.hash b l.store.blocks, rw w.blocks at e)

    written-IsSound : IsOwn add → IsSound l'
    written-IsSound own = record {
      idle = w.cascade;
      unique =
          rw w.pending
            (without-IsUnique (is_set gone) gone _ (with_added-IsUnique add _ sound.unique));
      bounded = written_bounded;
      unopened = written_unopened;
      sent = λ h e. rw w.pending (
          without-none (is_set gone) gone h _
            (added_sent add h own (unstored h e).0 (unstored h e).1));
      amounts = λ h ps e.
          added_amounts add h ps own (without-some (is_set gone) gone h _ (rw w.pending at e));
    }

  pub send-IsSound : {l' : Ledger} → validate_and_add_send l b ≡ ok l' → IsSound l'
  send-IsSound h =
      written-IsSound (some (pending_of b b.asset)) "" (send_accepted l b sound.idle h).4
        (refl, new.amount)

  pub burn-IsSound : {l' : Ledger} → validate_and_add_burn l b ≡ ok l' → IsSound l'
  burn-IsSound h = written-IsSound none "" (burn_accepted l b sound.idle h).4 tt

  pub receive-IsSound : {l' : Ledger} → validate_and_add_receive l b ≡ ok l' → IsSound l'
  receive-IsSound h = written-IsSound none b.source (receive_accepted l b sound.idle h).6 tt

  pub mint-IsSound :
      (cfg : LedgerConfig) {l' : Ledger} → validate_and_add_mint cfg l b ≡ ok l' → IsSound l'
  mint-IsSound cfg h = written-IsSound none "" (mint_accepted l b sound.idle cfg h).3 tt
