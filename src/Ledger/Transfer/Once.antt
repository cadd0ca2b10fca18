-- ===== src/Ledger/Transfer/Once.antt =====
-- A pending send is received at most once (core/ledger.go, validateAndAddReceive).
use xe.Prelude.{
  String, ◌≡◌, refl, arith, none, some, ok, str_eq, Option, Option-cases, inl, inr, eq_iff,
  if◌then◌else◌, true, false, Bool,
}
use xe.Map.{Map, lookup, lookup-insert, lookup-delete, lookup-delete_self}
use xe.Types.{Block, PendingSend}
use xe.Store.{is_set}
use xe.Ledger.{Ledger, LedgerConfig}
use xe.Ledger.Invariant.{IsSound, IsNew}
use xe.Ledger.Transfer.{validate_and_add_receive, pending_of}
use xe.Ledger.Transfer.Accepted.{
  Written, send_accepted, burn_accepted, receive_accepted, mint_accepted,
}
use xe.Ledger.Transfer.Sound.{with_added, without, receive-IsSound}
use xe.Ledger.Transfer.Run.{Step, Run, Run-IsSound}

-- The send of this hash is stored and no longer pending.
pub record Gone (h : String) (l : Ledger) : Type 0 where
  pub block : Block
  pub stored : lookup h l.store.blocks ≡ some block
  pub taken : lookup h l.store.pending ≡ none

-- What a write adds stands under its own block's hash.
abbrev Own : Block → Option PendingSend → Type 0
Own b none = Unit
Own b (some ps) = ps.send_hash ≡ b.hash

module _ (h : String) where
  added_none :
      (b : Block) (o : Option PendingSend) (p : Map PendingSend)
      → Own b o
      → str_eq b.hash h ≡ false
      → lookup h p ≡ none
      → lookup h (with_added o p) ≡ none
  added_none b none p own ne e = e
  added_none b (some ps) p own ne e = ground (arith, lookup-insert h ps.send_hash ps p, own)

  deleted_none :
      (t : Bool) (id : String) (p : Map PendingSend)
      → lookup h p ≡ none
      → lookup h (without t id p) ≡ none
  deleted_none true id p e = ground (arith, lookup-delete h id p)
  deleted_none false id p e = e

  other_hash : (l : Ledger) (b : Block) → IsNew l b → Gone h l → str_eq b.hash h ≡ false
  other_hash l b new g = ground (arith, eq_iff b.hash h, new.fresh, g.stored)

  Written-Gone :
      (l l' : Ledger) (b : Block) (add : Option PendingSend) (gone : String)
      → IsNew l b
      → Own b add
      → Written l b add gone l'
      → Gone h l
      → Gone h l'
  Written-Gone l l' b add gone new own w g = record {
    block = g.block;
    stored =
        rw w.blocks
          (ground (arith, lookup-insert h b.hash b l.store.blocks, other_hash l b new g, g.stored));
    taken =
        rw w.pending (
          deleted_none (is_set gone) gone _
            (added_none b add _ own (other_hash l b new g) g.taken));
  }

  Step-Gone :
      (cfg : LedgerConfig) {l l' : Ledger} → IsSound l → Step cfg l l' → Gone h l → Gone h l'
  Step-Gone cfg {l} {l'} s (Step.sends b new e) g =
      Written-Gone l l' b (some (pending_of b b.asset)) "" new refl (send_accepted l b s.idle e).4 g
  Step-Gone cfg {l} {l'} s (Step.receives b new e) g =
      Written-Gone l l' b none b.source new tt (receive_accepted l b s.idle e).6 g
  Step-Gone cfg {l} {l'} s (Step.burns b new e) g =
      Written-Gone l l' b none "" new tt (burn_accepted l b s.idle e).4 g
  Step-Gone cfg {l} {l'} s (Step.mints b new e) g =
      Written-Gone l l' b none "" new tt (mint_accepted l b s.idle cfg e).3 g

  Run-Gone : (cfg : LedgerConfig) {l l' : Ledger} → IsSound l → Run cfg l l' → Gone h l → Gone h l'
  Run-Gone cfg s Run.here g = g
  Run-Gone cfg s (Run.next r st) g = Step-Gone cfg (Run-IsSound cfg s r) st (Run-Gone cfg s r g)

module _ (l : Ledger) (b : Block) (sound : IsSound l) (new : IsNew l b) where
  stored_source :
      {ps : PendingSend}
      → lookup b.source l.store.pending ≡ some ps
      → (block : Block) × (lookup b.source l.store.blocks ≡ some block)
  stored_source found = elim (Option-cases (lookup b.source l.store.blocks)) [
    | inl e ↦ (let missing = sound.sent b.source e in cc)
    | inr (block, e) ↦ (block, e)
  ]

  receive-Gone : {m : Ledger} → validate_and_add_receive l b ≡ ok m → Gone b.source m
  receive-Gone {m} h =
      let (ps, found, dest, asset, source, c, w) = receive_accepted l b sound.idle h in
      let (block, stored) = stored_source found in
      record {
        block = if str_eq b.hash b.source then b else block;
        stored =
            rw w.blocks (ground (arith, lookup-insert b.source b.hash b l.store.blocks, stored));
        taken = rw (w.pending, source) (lookup-delete_self b.source l.store.pending);
      }

  -- A pending send is received once: after a receive that a sound ledger accepts, and after any
  -- history of accepted sends, receives, burns and mints that follows it, every block that would
  -- receive the same send is refused.
  pub receive_once :
      (cfg : LedgerConfig) {m n k : Ledger} (again : Block)
      → validate_and_add_receive l b ≡ ok m
      → Run cfg m n
      → again.source ≡ b.source
      → ¬ (validate_and_add_receive n again ≡ ok k)
  receive_once cfg {m} {n} again h r same = λ h'.
      (let s = receive-IsSound l b sound new h in
        let g = Run-Gone b.source cfg s r (receive-Gone h) in
        let (ps, found, d₁, d₂, d₃, d₄, d₅) =
          receive_accepted n again (Run-IsSound cfg s r).idle h' in
        let taken : lookup again.source n.store.pending ≡ none = rw same g.taken in cc)
