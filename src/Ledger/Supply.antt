-- ===== src/Ledger/Supply.antt =====
-- The supply of an asset, as the supply audit counts it (core/supply.go, walk): what the accounts
-- hold, and what is in flight in pending sends.
use xe.Prelude.{
  ℕ, ◌+◌, String, ◌≡◌, refl, arith, Option, none, some, [], str_eq, if◌then◌else◌, eq_iff,
}
use xe.Map.{Map, lookup, insert, delete, lookup-insert}
use xe.Map.Sum.{sum, weight, sum-insert, sum-delete}
use xe.Map.Unique.{IsUnique}
use xe.Types.{PendingSend}
use xe.Store.{submap}
use xe.Ledger.{Ledger, number_at, asset_or_xe, get_asset_balance, set_asset_balance}

-- `n`, if the asset is `a`.
abbrev pub of_asset : String → String → ℕ → ℕ
of_asset a asset n = if str_eq asset a then n else 0

unfoldable pub held : String → Map (Map ℕ) → ℕ
held a balances = sum (λ m. number_at a m) balances

unfoldable pub in_flight : String → Map PendingSend → ℕ
in_flight a pending = sum (λ ps. of_asset a (asset_or_xe ps.asset) ps.amount) pending

unfoldable pub supply : String → Ledger → ℕ
supply a l = held a l.asset_balances + in_flight a l.store.pending

or_empty_weight :
    (a : String) (o : Option (Map ℕ))
    → weight (λ m. number_at a m) o ≡ number_at a (elim o [ none ↦ [] | some v ↦ v ])
unfolding lookup
or_empty_weight a none = refl
or_empty_weight a (some v) = refl

weight-submap :
    (a account : String) (m : Map (Map ℕ))
    → weight (λ m. number_at a m) (lookup account m) ≡ number_at a (submap account m)
weight-submap a account m = or_empty_weight a (lookup account m)

pub number_at-insert :
    (a asset : String) (v : ℕ) (m : Map ℕ)
    → number_at a (insert asset v m) ≡ (if str_eq asset a then v else number_at a m)
number_at-insert a asset v m = rw lookup-insert (ground arith)

-- Setting a balance replaces the old one in the total.
pub held-set_asset_balance :
    (a account asset : String) (v : ℕ) (m : Map (Map ℕ))
    → held a (set_asset_balance account asset v m)
        + of_asset a asset (get_asset_balance m account asset)
      ≡ held a m + of_asset a asset v
unfolding held set_asset_balance get_asset_balance
held-set_asset_balance a account asset v m = ground (
  arith,
  sum-insert (λ m. number_at a m) account (insert asset v (submap account m)) m,
  weight-submap a account m,
  number_at-insert a asset v (submap account m),
  eq_iff asset a,
)

pub in_flight-insert :
    (a : String) (ps : PendingSend) (m : Map PendingSend)
    → lookup ps.send_hash m ≡ none
    → in_flight a (insert ps.send_hash ps m)
      ≡ in_flight a m + of_asset a (asset_or_xe ps.asset) ps.amount
unfolding in_flight
in_flight-insert a ps m h =
    ground (arith, sum-insert (λ ps. of_asset a (asset_or_xe ps.asset) ps.amount) ps.send_hash ps m)

pub in_flight-delete :
    (a id : String) {ps : PendingSend} (m : Map PendingSend)
    → IsUnique m
    → lookup id m ≡ some ps
    → in_flight a (delete id m) + of_asset a (asset_or_xe ps.asset) ps.amount ≡ in_flight a m
unfolding in_flight
in_flight-delete a id m u h =
    ground (arith, sum-delete (λ ps. of_asset a (asset_or_xe ps.asset) ps.amount) id m u)
