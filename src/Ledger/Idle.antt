-- ===== src/Ledger/Idle.antt =====
-- Outside a cascade the overlay reads are the reads of the store and of the balance cache.
use xe.Prelude.{String, ◌≡◌, none, true, Bool-cases, inl, inr, str_eq, eq_iff}
use xe.Map.{lookup}
use xe.Types.{is_valid_asset}
use xe.Ledger.{
  Ledger, overlay_chain, get_account_chain_overlay, get_pending_send_overlay, get_lease_overlay,
  get_asset_balance_overlay, get_asset_balance, asset_or_xe,
}

module _ (l : Ledger) (idle : l.active_cascade ≡ none) where
  pub chain_idle : (a : String) → get_account_chain_overlay l a ≡ lookup a l.store.chains
  unfolding get_account_chain_overlay overlay_chain
  chain_idle a = rw (idle, get_account_chain_overlay, overlay_chain)

  pub balance_idle :
      (a s : String) → get_asset_balance_overlay l a s ≡ get_asset_balance l.asset_balances a s
  unfolding get_asset_balance_overlay overlay_chain
  balance_idle a s = rw (idle, get_asset_balance_overlay, overlay_chain)

  pub pending_idle : (h : String) → get_pending_send_overlay l h ≡ lookup h l.store.pending
  unfolding get_pending_send_overlay
  pending_idle h = rw (idle, get_pending_send_overlay)

  pub lease_idle : (h : String) → get_lease_overlay l h ≡ lookup h l.store.leases
  unfolding get_lease_overlay
  lease_idle h = rw (idle, get_lease_overlay)

pub asset_or_xe_valid : (s : String) → is_valid_asset s ≡ true → asset_or_xe s ≡ s
unfolding is_valid_asset
asset_or_xe_valid s h = elim (Bool-cases (str_eq s "")) [
  | inl e ↦ (let empty : s ≡ "" = (eq_iff s "").0 e in cc (rw empty at h))
  | inr e ↦ rw e
]
