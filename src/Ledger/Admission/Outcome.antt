-- ===== src/Ledger/Admission/Outcome.antt =====
-- What an admitted transfer does to the funds (core/ledger.go, addBlock of a send, a receive, a
-- burn or a mint).
use xe.Prelude.{
  [], ◌<◌, String, Bool, true, false, Option, none, some, ◌≡◌, refl, Result, ok, err, str_eq,
  if◌then◌else◌, ◌∙◌, ap, fail_if, require, ◌>>◌,
}
use xe.Map.{lookup}
use xe.Word.{modulus}
use xe.Types.{Block, BlockType, is_valid_asset}
use xe.Store.{conflict_key}
use xe.Ledger.{Ledger, LedgerConfig}
use xe.Ledger.Invariant.{IsSound, IsNew}
use xe.Ledger.Transfer.Run.{Step, Run, Run-IsSound}
use xe.Ledger.Admission.Funds.{
  KeepsFunds, KeepsFunds_refl, KeepsFunds_trans, fills_funds, KeepsFunds-IsSound,
  stage_sibling_funds,
}
use xe.Ledger.Height.{chain_of}
use xe.Ledger.Credential.{verify_block_credential}
use xe.Ledger.Staged.{detect_conflict_sibling}
use xe.Ledger.Admission.{
  has_conflict, carries_attestations, Node, and_then, leave, handle, dispatch_validate_and_add,
  add_to_chain, add_sibling, validate_staged_block, add_new, add_unstored, add_admitted, add_block,
  admitted_block, stage_sibling, entry_checks, sibling_checks, chain_checks, asset_checks,
  sibling_parent_balance, normalize_block_hex,
}
use xe.Ledger.Admission.Refused.{credential_fills, staged_fills, and_then_cases, admitted_type}

-- A call either keeps the funds, or takes one step of the histories of transfers.
pub data Outcome (cfg : LedgerConfig) (l l' : Ledger) : Type 0 where
  keeps : KeepsFunds l l' → Outcome cfg l l'
  steps : {m : Ledger} → KeepsFunds l m → Step cfg m l' → Outcome cfg l l'

after_funds :
    {cfg : LedgerConfig} {l m n : Ledger} → KeepsFunds l m → Outcome cfg m n → Outcome cfg l n
after_funds f (Outcome.keeps g) = Outcome.keeps (KeepsFunds_trans f g)
after_funds f (Outcome.steps g st) = Outcome.steps (KeepsFunds_trans f g) st

Outcome-IsSound : {cfg : LedgerConfig} {l l' : Ledger} → Outcome cfg l l' → IsSound l → IsSound l'
Outcome-IsSound (Outcome.keeps f) s = KeepsFunds-IsSound f s
Outcome-IsSound {cfg} (Outcome.steps f st) s =
    Run-IsSound cfg (KeepsFunds-IsSound f s) (Run.next Run.here st)

abbrev pub is_transfer : BlockType → Bool
is_transfer BlockType.send = true
is_transfer BlockType.receive = true
is_transfer BlockType.burn = true
is_transfer BlockType.mint = true
is_transfer _ = false

-- Two calls in a row, of which the first keeps the funds.
and_then-Outcome :
    {cfg : LedgerConfig} (l : Ledger) (p : Ledger × Result (Unit {0}))
    (after : Ledger → Ledger × Result (Unit {0}))
    → KeepsFunds l p.0
    → (p.1 ≡ ok tt → Outcome cfg p.0 (after p.0).0)
    → Outcome cfg l (and_then p after).0
and_then-Outcome {cfg} l p after f goes =
    and_then_cases (λ r. Outcome cfg l r.0) p after (λ e h. Outcome.keeps f)
      (λ h. after_funds f (goes h))

leave-Outcome :
    {cfg : LedgerConfig} (l : Ledger) (r : Result Ledger)
    → ((m : Ledger) → r ≡ ok m → Step cfg l m)
    → Outcome cfg l (leave l r).0
leave-Outcome l (err e) step = Outcome.keeps KeepsFunds_refl
leave-Outcome l (ok m) step = Outcome.steps KeepsFunds_refl (step m refl)

module _ (node : Node) (b : Block) (skip : Bool) where
  handle-Outcome :
      (l : Ledger)
      → IsNew l b
      → (type : BlockType) → is_transfer type ≡ true
      → Outcome node.config l (handle node l b skip type).0
  unfolding handle
  handle-Outcome l new BlockType.send t = leave-Outcome l _ (λ m. Step.sends b new)
  handle-Outcome l new BlockType.receive t = leave-Outcome l _ (λ m. Step.receives b new)
  handle-Outcome l new BlockType.burn t = leave-Outcome l _ (λ m. Step.burns b new)
  handle-Outcome l new BlockType.mint t = leave-Outcome l _ (λ m. Step.mints b new)
  handle-Outcome l new BlockType.genesis t = cc
  handle-Outcome l new BlockType.lease t = cc
  handle-Outcome l new BlockType.lease_accept t = cc
  handle-Outcome l new BlockType.lease_settle t = cc
  handle-Outcome l new BlockType.lease_cancel t = cc
  handle-Outcome l new BlockType.lease_force_settle t = cc
  handle-Outcome l new BlockType.lease_renew t = cc
  handle-Outcome l new BlockType.multisig_open t = cc
  handle-Outcome l new BlockType.multisig_update t = cc
  handle-Outcome l new (BlockType.other name) t = cc

last_required :
    (p q v : Bool) (e f g : String)
    → (fail_if p e >> (fail_if q f >> require v g)) ≡ ok tt
    → v ≡ true
last_required true q v e f g h = cc
last_required false true v e f g h = cc
last_required false false true e f g h = refl
last_required false false false e f g h = cc

checked_asset : (l : Ledger) (b : Block) → chain_checks l b ≡ ok tt → is_valid_asset b.asset ≡ true
unfolding chain_checks asset_checks
checked_asset l b h =
    last_required (has_conflict (conflict_key b.account "") l.store.conflicts) (str_eq b.asset "")
      (is_valid_asset b.asset) "account has unresolved conflict — block rejected pending resolution"
      "block must have an asset" "unsupported asset: %q" h

module _ (node : Node) (b : Block) (skip : Bool) (balance : b.balance < modulus)
    (amount : b.amount < modulus) (transfer : is_transfer b.type ≡ true) where
  add_to_chain-Outcome :
      (l : Ledger)
      → lookup b.hash l.store.blocks ≡ none
      → Outcome node.config l (add_to_chain node l b skip).0
  unfolding add_to_chain dispatch_validate_and_add
  add_to_chain-Outcome l fresh =
      and_then-Outcome l (l, chain_checks l b) (λ m. dispatch_validate_and_add node m b skip)
        KeepsFunds_refl
        (λ passed.
          let f = fills_funds (credential_fills node.host l b) in
          and_then-Outcome l (verify_block_credential node.host l b)
            (λ m. handle node m b skip b.type) f
            (λ h.
              handle-Outcome node b skip (verify_block_credential node.host l b).0
                (record {
                  balance = balance;
                  amount = amount;
                  asset = checked_asset l b passed;
                  fresh = ap (lookup b.hash) f.blocks ∙ fresh;
                })
                b.type transfer))

  add_sibling-Outcome :
      (l : Ledger) (sibling : String) → Outcome node.config l (add_sibling node l b sibling).0
  unfolding add_sibling
  add_sibling-Outcome l sibling =
      and_then-Outcome l (l, sibling_checks l b sibling)
        (λ m.
          and_then (validate_staged_block node m b (sibling_parent_balance m b))
            (λ n. (stage_sibling node n b sibling, ok tt)))
        KeepsFunds_refl
        (λ passed.
          and_then-Outcome l (validate_staged_block node l b (sibling_parent_balance l b))
            (λ n. (stage_sibling node n b sibling, ok tt))
            (fills_funds (staged_fills node l b (sibling_parent_balance l b)))
            (λ h. Outcome.keeps (stage_sibling_funds node _ b sibling)))

  add_new-Outcome :
      (l : Ledger) (sibling : String)
      → lookup b.hash l.store.blocks ≡ none
      → Outcome node.config l (add_new node l b skip sibling).0
  unfolding add_new
  add_new-Outcome l sibling fresh =
      elim (str_eq sibling "")
        as (λ c.
          Outcome node.config l
            (if c then add_to_chain node l b skip else add_sibling node l b sibling).0) [
              | true ↦ add_to_chain-Outcome l fresh
              | false ↦ add_sibling-Outcome l sibling
            ]

  add_unstored-Outcome :
      (l : Ledger) (stored : Option Block)
      → lookup b.hash l.store.blocks ≡ stored
      → Outcome node.config l (add_unstored node l b skip stored).0
  unfolding add_unstored
  add_unstored-Outcome l (some existing) e = Outcome.keeps KeepsFunds_refl
  add_unstored-Outcome l none e =
      let f = fills_funds (credential_fills node.host l b) in
      and_then-Outcome l (verify_block_credential node.host l b)
        (λ m. add_new node m b skip (detect_conflict_sibling (chain_of m b.account) b)) f
        (λ h. add_new-Outcome _ _ (ap (lookup b.hash) f.blocks ∙ e))

  add_admitted-Outcome : (l : Ledger) → Outcome node.config l (add_admitted node l b skip).0
  unfolding add_admitted
  add_admitted-Outcome l =
      and_then-Outcome l (l, entry_checks node b skip)
        (λ m. add_unstored node m b skip (lookup b.hash m.store.blocks)) KeepsFunds_refl
        (λ h. add_unstored-Outcome l (lookup b.hash l.store.blocks) refl)

kept_amounts :
    (c : Bool) (n : Block)
    → ((if c then n else record n { attestations = [] }).balance ≡ n.balance)
      × ((if c then n else record n { attestations = [] }).amount ≡ n.amount)
kept_amounts true n = (refl, refl)
kept_amounts false n = (refl, refl)

admitted_amounts :
    (b : Block) → ((admitted_block b).balance ≡ b.balance) × ((admitted_block b).amount ≡ b.amount)
unfolding admitted_block normalize_block_hex
admitted_amounts b = kept_amounts (carries_attestations b.type) (normalize_block_hex b)

-- For a send, a receive, a burn or a mint whose balance and amount are uint64, whatever AddBlock or
-- AddSyncedBlock answers: either the blocks, chains, pending sends and balances stay as they were,
-- or they are taken by exactly one step of the histories of accepted transfers.
pub add_block-Outcome :
    (node : Node) (l : Ledger) (b : Block) (skip : Bool)
    → b.balance < modulus
    → b.amount < modulus
    → is_transfer b.type ≡ true
    → Outcome node.config l (add_block node l b skip).0
unfolding add_block
add_block-Outcome node l b skip balance amount transfer =
    let (same_balance, same_amount) = admitted_amounts b in
    add_admitted-Outcome node (admitted_block b) skip (rw same_balance balance)
      (rw same_amount amount) (rw (admitted_type b) transfer) l

-- AddBlock and AddSyncedBlock keep a sound ledger sound, whatever they answer, for every send,
-- receive, burn and mint whose balance and amount are uint64.
pub add_block-IsSound :
    (node : Node) (l : Ledger) (b : Block) (skip : Bool)
    → b.balance < modulus
    → b.amount < modulus
    → is_transfer b.type ≡ true
    → IsSound l
    → IsSound (add_block node l b skip).0
add_block-IsSound node l b skip balance amount transfer s =
    Outcome-IsSound (add_block-Outcome node l b skip balance amount transfer) s
