-- ===== src/Ledger/Contract/Refund.antt =====
-- What a cancel pays back, and what it leaves when it is refused (core/ledger.go,
-- validateAndAddLeaseCancel).
use xe.Prelude.{
  ℕ, ◌+◌, ◌<◌, String, ◌≡◌, refl, ◌∙◌, ap, arith, true, false, Bool, some, ok, err, ok_injective,
  >>=-eq-ok, require, fail_if, some_or, str_eq, when_some, drop_last, [], length, leb, ◌==◌,
}
use xe.Map.{lookup, delete}
use xe.Word.{modulus}
use xe.Types.{Block, Lease, LeaseState, PendingSend}
use xe.Store.{is_set, same_state}
use xe.Ledger.{
  Ledger, number_at, get_asset_balance, get_account_chain_overlay, get_pending_send_overlay,
  get_lease_overlay,
}
use xe.Ledger.Commit.{prepare_block_write, commit_block_write}
use xe.Ledger.Effect.{commit-Committed}
use xe.Ledger.Idle.{balance_idle}
use xe.Ledger.Supply.{supply, of_asset, held-set_asset_balance, in_flight-delete, in_flight}
use xe.Ledger.Invariant.{IsSound}
use xe.Ledger.Transfer.{check_extends}
use xe.Ledger.Transfer.Accepted.{require_inv}
use xe.Ledger.Undo.Chain.{shortened, undo-chains}
use xe.Ledger.Contract.Cancel.{
  validate_and_add_lease_cancel, cancel_opened, cancelled_block, make_cancellable, cancel_written,
  cancel_commit, refund_checks, resolve_cancel_wins_over_accept, find_accept,
}

module _ (busy : Bool) (l : Ledger) (b : Block) where
  resolve-chains :
      (lease_hash provider : String) {opened : Ledger}
      → resolve_cancel_wins_over_accept busy l lease_hash provider ≡ ok opened
      → opened.store.chains
        ≡ shortened provider
            (drop_last (when_some (lookup provider l.store.chains) [] (λ ch. ch)))
            l.store.chains
  unfolding resolve_cancel_wins_over_accept
  resolve-chains lease_hash provider h =
      let (found, e₁, h₁) =
        >>=-eq-ok
          (some_or
            (find_accept lease_hash 0 (when_some (lookup provider l.store.chains) [] (λ ch. ch))) _)
          _ h in
      let (u₂, e₂, h₂) =
        >>=-eq-ok
          (require
            (found.0 + 1 == length (when_some (lookup provider l.store.chains) [] (λ ch. ch))) _)
          _ h₁ in
      let (u₃, e₃, h₃) =
        >>=-eq-ok (fail_if (leb (found.0 + 1) (number_at provider l.store.final_height)) _) _ h₂ in
      let (u₄, e₄, h₄) = >>=-eq-ok (fail_if busy _) _ h₃ in undo-chains l provider found.1 h₄

  make-chains :
      (existing : Lease) {opened : Ledger}
      → same_state existing.state LeaseState.accepted ≡ true
      → str_eq existing.provider b.account ≡ false
      → make_cancellable busy l b (some existing) ≡ ok opened
      → resolve_cancel_wins_over_accept busy l b.source existing.provider ≡ ok opened
  unfolding make_cancellable
  make-chains existing running other h = rw (running, other) at h

  -- A lease_cancel that finds its lease accepted by another account, and whose refund is then
  -- refused, returns the error and still leaves the provider's chain without its last block.
  pub refused_cancel_takes_back :
      (lease_block : Block) (opened : Ledger) (existing : Lease) (e : String)
      → cancel_opened busy l b ≡ ok (lease_block, opened)
      → get_lease_overlay l b.source ≡ some existing
      → same_state existing.state LeaseState.accepted ≡ true
      → str_eq existing.provider b.account ≡ false
      → refund_checks opened b lease_block.amount ≡ err e
      → ((validate_and_add_lease_cancel busy l b).1 ≡ err e)
        × ((validate_and_add_lease_cancel busy l b).0.store.chains
            ≡ shortened existing.provider
                (drop_last (when_some (lookup existing.provider l.store.chains) [] (λ ch. ch)))
                l.store.chains)
  unfolding validate_and_add_lease_cancel cancel_written
  refused_cancel_takes_back lease_block opened existing e h found running other refused =
      (rw (h, refused) refl, rw (h, refused) (resolve-chains b.source existing.provider taken_back))
    where
      taken_back : resolve_cancel_wins_over_accept busy l b.source existing.provider ≡ ok opened
      taken_back =
          unfold cancel_opened in
          let (u₁, e₁, h₁) = >>=-eq-ok (require (str_eq b.asset "XUSD") _) _ h in
          let (u₂, e₂, h₂) = >>=-eq-ok (require (is_set b.source) _) _ h₁ in
          let (lb, e₃, h₃) = >>=-eq-ok (cancelled_block l b) _ h₂ in
          let (o, e₄, h₄) =
            >>=-eq-ok (make_cancellable busy l b (get_lease_overlay l b.source)) _ h₃ in
          make-chains existing running other
            (rw found at e₄ ∙ ap (λ r. ok r) (ap (λ p. p.1) (ok_injective h₄)))

module _ (l : Ledger) (b : Block) (sound : IsSound l) where
  refund_exact :
      (amount : ℕ)
      → get_asset_balance l.asset_balances b.account "XUSD" + amount < modulus
      → refund_checks l b amount ≡ ok tt
      → b.balance ≡ get_asset_balance l.asset_balances b.account "XUSD" + amount
  unfolding refund_checks
  refund_exact amount room h =
      let (ps, e₁, h₁) = >>=-eq-ok (some_or (get_pending_send_overlay l b.source) _) _ h in
      let (chain, e₂, h₂) = >>=-eq-ok (some_or (get_account_chain_overlay l b.account) _) _ h₁ in
      let (u₃, e₃, h₃) = >>=-eq-ok (check_extends b chain) _ h₂ in
      let exact = require_inv _ _ h₃ in
      let cached = balance_idle l sound.idle b.account "XUSD" in ground (arith, room, exact, cached)

  -- The write of a cancel, on a sound ledger in which the lease is cancellable and its refund does
  -- not overflow: the escrow leaves what is in flight, and the consumer is credited the amount of
  -- the lease block. The supply is conserved if the two agree, and falls by what renewals have
  -- added to the escrow.
  pub cancel-supply :
      (lease_block : Block) (escrow : PendingSend) (a : String) {l' : Ledger}
      → b.asset ≡ "XUSD"
      → is_set b.source ≡ true
      → lookup b.source l.store.pending ≡ some escrow
      → escrow.asset ≡ "XUSD"
      → get_asset_balance l.asset_balances b.account "XUSD" + lease_block.amount < modulus
      → cancel_written l b lease_block ≡ ok l'
      → supply a l' + of_asset a "XUSD" escrow.amount
        ≡ supply a l + of_asset a "XUSD" lease_block.amount
  unfolding cancel_written cancel_commit prepare_block_write supply
  cancel-supply lease_block escrow a {l'} xusd source found asset room h =
      let (u₁, paid, h₁) = >>=-eq-ok (refund_checks l b lease_block.amount) _ h in
      let (written, w, h₂) =
        >>=-eq-ok (commit_block_write (cancel_commit l b) (prepare_block_write l b).1 l) _ h₁ in
      let k =
        commit-Committed (cancel_commit l b) (prepare_block_write l b).1 l written sound.idle w in
      let gone : in_flight a (delete b.source l.store.pending) + of_asset a "XUSD" escrow.amount
          ≡ in_flight a l.store.pending =
        rw asset at (in_flight-delete a b.source l.store.pending sound.unique found) in
      rw (← ok_injective h₂, k.balances, k.pending, source, xusd)
        (ground (
          arith,
          held-set_asset_balance a b.account "XUSD" b.balance l.asset_balances,
          refund_exact lease_block.amount room paid,
          gone,
        ))
