-- ===== src/Ledger/Admission/Funds.antt =====
-- The part of a ledger that a refused, a known or a staged block leaves alone (core/ledger.go,
-- addBlock).
use xe.Prelude.{String, ◌≡◌, refl, ◌∙◌}
use xe.Types.{Block}
use xe.Ledger.{Ledger}
use xe.Ledger.Invariant.{IsSound}
use xe.Ledger.Admission.{Node, stage_sibling}
use xe.Ledger.Admission.Refused.{Fills}

-- The funds of a ledger, with the blocks that they rest on, are the same.
pub record KeepsFunds (l l' : Ledger) : Type 0 where
  pub blocks : l'.store.blocks ≡ l.store.blocks
  pub chains : l'.store.chains ≡ l.store.chains
  pub pending : l'.store.pending ≡ l.store.pending
  pub balances : l'.asset_balances ≡ l.asset_balances
  pub cascade : l'.active_cascade ≡ l.active_cascade

abbrev pub KeepsFunds_refl : {l : Ledger} → KeepsFunds l l
KeepsFunds_refl = record {
  blocks = refl;
  chains = refl;
  pending = refl;
  balances = refl;
  cascade = refl;
}

pub KeepsFunds_trans : {l m n : Ledger} → KeepsFunds l m → KeepsFunds m n → KeepsFunds l n
KeepsFunds_trans f g = record {
  blocks = g.blocks ∙ f.blocks;
  chains = g.chains ∙ f.chains;
  pending = g.pending ∙ f.pending;
  balances = g.balances ∙ f.balances;
  cascade = g.cascade ∙ f.cascade;
}

pub fills_funds : {l m : Ledger} → Fills l m → KeepsFunds l m
fills_funds (Fills.filled ks keys) = record {
  blocks = refl;
  chains = refl;
  pending = refl;
  balances = refl;
  cascade = refl;
}

pub KeepsFunds-IsSound : {l l' : Ledger} → KeepsFunds l l' → IsSound l → IsSound l'
KeepsFunds-IsSound f s = record {
  idle = f.cascade ∙ s.idle;
  unique = rw f.pending s.unique;
  bounded = rw f.balances s.bounded;
  unopened = rw (f.balances, f.chains) s.unopened;
  sent = rw (f.blocks, f.pending) s.sent;
  amounts = rw f.pending s.amounts;
}

pub stage_sibling_funds :
    (node : Node) (l : Ledger) (b : Block) (sibling : String)
    → KeepsFunds l (stage_sibling node l b sibling)
unfolding stage_sibling
stage_sibling_funds node l b sibling = record {
  blocks = refl;
  chains = refl;
  pending = refl;
  balances = refl;
  cascade = refl;
}
