-- ===== src/Ledger/Height/Spendable.antt =====
-- What may be spent (core/spendable.go, SpendableBalances) is at most what is final.
use xe.Prelude.{
  ℕ, zero, suc, ◌-◌, ◌≤◌, String, ◌≡◌, arith, [], ◌∷◌, str_eq, if◌then◌else◌, ltb, leb, Bool-cases,
  inl, inr, eq_iff,
}
use xe.Map.{Map, lookup, insert}
use xe.Types.{Block, AccountChain}
use xe.Ledger.{Ledger, number_at, asset_or_xe}
use xe.Ledger.Supply.{number_at-insert}
use xe.Ledger.Height.{spend_step, spend_from, spendable_balances, chain_of, final_height}

-- The balance of an asset after the first `n` blocks of a chain, from `bal` before them.
abbrev pub final_balance : ℕ → String → ℕ → AccountChain → ℕ
final_balance zero asset bal chain = bal
final_balance (suc n) asset bal [] = bal
final_balance (suc n) asset bal (b ∷ rest) =
    final_balance n asset (if str_eq (asset_or_xe b.asset) asset then b.balance else bal) rest

-- Lowering the entry of one asset lowers every entry or leaves it.
lowered :
    (a asset : String) (v : ℕ) (out : Map ℕ)
    → v ≤ number_at a out
    → number_at asset (insert a v out) ≤ number_at asset out
lowered a asset v out h = elim (Bool-cases (str_eq a asset)) [
  | inl e ↦
      (let same : a ≡ asset = (eq_iff a asset).0 e in
        rw (number_at-insert asset a v out, e) (rw same at h))
  | inr e ↦ rw (number_at-insert asset a v out, e) (omega arith)
]

spend_step_lem :
    (asset : String) (b : Block) (prev out : Map ℕ)
    → number_at asset (spend_step zero b prev out) ≤ number_at asset out
unfolding spend_step
spend_step_lem asset b prev out =
    let a = asset_or_xe b.asset in
    let outflow = number_at a prev - b.balance in
    let v = if leb outflow (number_at a out) then number_at a out - outflow else 0 in
    let less : number_at asset (insert a v out) ≤ number_at asset out =
      lowered a asset v out (ground arith) in
    elim (Bool-cases (ltb b.balance (number_at a prev))) [
      | inl e ↦ rw e less
      | inr e ↦ rw e (omega arith)
    ]

after_final :
    (asset : String) (chain : AccountChain) (prev out : Map ℕ)
    → number_at asset (spend_from zero chain prev out) ≤ number_at asset out
unfolding spend_from
after_final asset [] prev out = omega arith
after_final asset (b ∷ rest) prev out = omega (
  arith,
  after_final asset rest (insert (asset_or_xe b.asset) b.balance prev) (spend_step zero b prev out),
  spend_step_lem asset b prev out,
)

spend_from_lem :
    (asset : String) (n : ℕ) (chain : AccountChain) (prev out : Map ℕ)
    → number_at asset (spend_from n chain prev out)
      ≤ final_balance n asset (number_at asset out) chain
unfolding spend_from spend_step
spend_from_lem asset zero chain prev out = after_final asset chain prev out
spend_from_lem asset (suc n) [] prev out = omega arith
spend_from_lem asset (suc n) (b ∷ rest) prev out =
    let a = asset_or_xe b.asset in
    rw (number_at-insert asset a b.balance out) at
      (spend_from_lem asset n rest (insert a b.balance prev) (insert a b.balance out))

-- For every account and asset, what may be spent is at most the balance after the blocks of the
-- account that are final, and is 0 where none is.
pub spendable_bound :
    (l : Ledger) (account asset : String)
    → number_at asset (spendable_balances l account)
      ≤ final_balance (final_height l account) asset 0 (chain_of l account)
unfolding spendable_balances lookup
spendable_bound l account asset =
    ground (arith, spend_from_lem asset (final_height l account) (chain_of l account) [] [])
