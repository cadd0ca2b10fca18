-- ===== src/Ledger/Admission/Refused.antt =====
-- What a refused block leaves behind (core/ledger.go, addBlock and the errors it returns).
use xe.Prelude.{
  ℕ, [], String, Bool, true, false, Option, none, some, ◌≡◌, refl, Result, ok, err, str_eq,
  if◌then◌else◌, not, when_some,
}
use xe.Map.{Map, lookup, insert}
use xe.Types.{Block, BlockType, Keyset}
use xe.Multisig.{is_empty}
use xe.Store.{is_set}
use xe.Ledger.{Ledger}
use xe.Ledger.Credential.{
  Host, verify_block_credential, after_declaration, multisig_credential, single_credential,
  get_account_key, resolve_missing_keyset, cache_keyset, declared_key, known_keyset, is_some,
  validate_pub_key_declaration,
}
use xe.Ledger.Height.{chain_of}
use xe.Ledger.Staged.{staged_checks, detect_conflict_sibling}
use xe.Ledger.Admission.{
  stage_sibling, entry_checks, sibling_checks, chain_checks, sibling_parent_balance, Node, and_then,
  leave, handle, dispatch_validate_and_add, add_to_chain, add_sibling, validate_staged_block,
  add_new, add_unstored, add_admitted, add_block, admitted_block, carries_attestations,
  normalize_block_hex,
}

-- The ledger differs at most in the caches of keysets and of account keys.
pub data Fills (l : Ledger) : Ledger → Type 0 where
  filled :
      (keysets : Map Keyset) (keys : Map String)
      → Fills l (record l { keysets = keysets; account_keys = keys })

abbrev pub Fills_refl : {l : Ledger} → Fills l l
Fills_refl {l} = Fills.filled l.keysets l.account_keys

pub Fills_trans : {l m n : Ledger} → Fills l m → Fills m n → Fills l n
Fills_trans (Fills.filled ks keys) (Fills.filled ks' keys') = Fills.filled ks' keys'

-- The two ways on from a call.
pub and_then_cases :
    (Q : Ledger × Result (Unit {0}) → Type 0) (p : Ledger × Result (Unit {0}))
    (after : Ledger → Ledger × Result (Unit {0}))
    → ((e : String) → p.1 ≡ err e → Q (p.0, err e))
    → (p.1 ≡ ok tt → Q (after p.0))
    → Q (and_then p after)
and_then_cases Q (l, ok tt) after stops goes = goes refl
and_then_cases Q (l, err e) after stops goes = stops e refl

abbrev if_fills :
    {l : Ledger} {R : Type 0} (c : Bool) (x y : Ledger × R)
    → Fills l x.0
    → Fills l y.0
    → Fills l (if c then x else y).0
if_fills true x y f g = f
if_fills false x y f g = g

cache_fills :
    (account : String) (l : Ledger) (found : Result Keyset) → Fills l (cache_keyset account found l)
cache_fills account l (ok ks) = Fills.filled (insert account ks l.keysets) l.account_keys
cache_fills account l (err e) = Fills_refl

module _ (host : Host) (l : Ledger) (b : Block) where
  key_fills : (account : String) → Fills l (get_account_key l account).0
  unfolding get_account_key
  key_fills account =
      let found = when_some (lookup account l.store.chains) "" (λ chain. declared_key "" chain) in
      elim (lookup account l.account_keys)
        as (λ k.
          Fills l
            (elim k as (λ x. Ledger × String) [
              | some key ↦ (l, key)
              | none ↦
                  if is_set found
                  then (record l { account_keys = insert account found l.account_keys }, found)
                  else (l, "")
            ]).0) [
              | some key ↦ Fills_refl
              | none ↦
                  if_fills (is_set found) _ _
                    (Fills.filled l.keysets (insert account found l.account_keys)) Fills_refl
            ]

  multisig_fills : (found : Option Keyset) → Fills l (multisig_credential host l b found).0
  unfolding multisig_credential
  multisig_fills (some ks) = Fills_refl
  multisig_fills none = cache_fills b.account l (resolve_missing_keyset l b.account)

  single_fills : Fills l (single_credential host l b).0
  unfolding single_credential
  single_fills = if_fills (str_eq b.previous "0") _ _ Fills_refl (key_fills b.account)

  declaration_fills : (r : Result (Unit {0})) → Fills l (after_declaration host l b r).0
  declaration_fills (err e) = Fills_refl
  declaration_fills (ok u) =
      if_fills (not (is_empty b.signatures)) _ _ (multisig_fills (known_keyset l b))
        (if_fills (is_some (lookup b.account l.keysets)) _ _ Fills_refl single_fills)

  -- A check of the credential changes the two caches at most.
  pub credential_fills : Fills l (verify_block_credential host l b).0
  unfolding verify_block_credential
  credential_fills = declaration_fills (validate_pub_key_declaration host b)

-- An error leaves the two caches changed at most.
abbrev pub KeepsOnError : Ledger → Ledger × Result (Unit {0}) → Type 0
KeepsOnError l r = (e : String) → r.1 ≡ err e → Fills l r.0

leave-KeepsOnError : (l : Ledger) (r : Result Ledger) → KeepsOnError l (leave l r)
leave-KeepsOnError l (err why) e h = Fills_refl
leave-KeepsOnError l (ok m) e h = cc

abbrev pub is_cancel : BlockType → Bool
is_cancel BlockType.lease_cancel = true
is_cancel _ = false

-- What follows a call that fills caches at most.
and_then-KeepsOnError :
    (l : Ledger) (p : Ledger × Result (Unit {0})) (after : Ledger → Ledger × Result (Unit {0}))
    → Fills l p.0
    → KeepsOnError p.0 (after p.0)
    → KeepsOnError l (and_then p after)
and_then-KeepsOnError l p after fills goes =
    and_then_cases (KeepsOnError l) p after (λ why h e same. fills)
      (λ h e same. Fills_trans fills (goes e same))

module _ (node : Node) (l : Ledger) (b : Block) (skip : Bool) where
  handle-KeepsOnError :
      (type : BlockType) → is_cancel type ≡ false → KeepsOnError l (handle node l b skip type)
  unfolding handle
  handle-KeepsOnError BlockType.send never = leave-KeepsOnError l _
  handle-KeepsOnError BlockType.receive never = leave-KeepsOnError l _
  handle-KeepsOnError BlockType.genesis never = leave-KeepsOnError l _
  handle-KeepsOnError BlockType.lease never = leave-KeepsOnError l _
  handle-KeepsOnError BlockType.lease_accept never = leave-KeepsOnError l _
  handle-KeepsOnError BlockType.lease_settle never = leave-KeepsOnError l _
  handle-KeepsOnError BlockType.lease_cancel never = cc
  handle-KeepsOnError BlockType.lease_force_settle never = leave-KeepsOnError l _
  handle-KeepsOnError BlockType.lease_renew never = leave-KeepsOnError l _
  handle-KeepsOnError BlockType.multisig_open never = leave-KeepsOnError l _
  handle-KeepsOnError BlockType.multisig_update never = leave-KeepsOnError l _
  handle-KeepsOnError BlockType.burn never = leave-KeepsOnError l _
  handle-KeepsOnError BlockType.mint never = leave-KeepsOnError l _
  handle-KeepsOnError (BlockType.other name) never = λ e h. Fills_refl

pub staged_fills :
    (node : Node) (l : Ledger) (b : Block) (parent : ℕ)
    → Fills l (validate_staged_block node l b parent).0
unfolding validate_staged_block
staged_fills node l b parent =
    and_then_cases (λ r. Fills l r.0) (verify_block_credential node.host l b)
      (λ m. (m, staged_checks node.config m b parent b.type))
      (λ why h. credential_fills node.host l b) (λ h. credential_fills node.host l b)

module _ (node : Node) (b : Block) (skip : Bool) (never : is_cancel b.type ≡ false) where
  pub dispatch-KeepsOnError :
      (l : Ledger) → KeepsOnError l (dispatch_validate_and_add node l b skip)
  unfolding dispatch_validate_and_add
  dispatch-KeepsOnError l =
      and_then-KeepsOnError l (verify_block_credential node.host l b)
        (λ m. handle node m b skip b.type) (credential_fills node.host l b)
        (handle-KeepsOnError node _ b skip b.type never)

  add_to_chain-KeepsOnError : (l : Ledger) → KeepsOnError l (add_to_chain node l b skip)
  unfolding add_to_chain
  add_to_chain-KeepsOnError l =
      and_then-KeepsOnError l (l, chain_checks l b) (λ m. dispatch_validate_and_add node m b skip)
        Fills_refl (dispatch-KeepsOnError l)

  add_sibling-KeepsOnError :
      (l : Ledger) (sibling : String) → KeepsOnError l (add_sibling node l b sibling)
  unfolding add_sibling validate_staged_block
  add_sibling-KeepsOnError l sibling =
      and_then-KeepsOnError l (l, sibling_checks l b sibling)
        (λ m.
          and_then (validate_staged_block node m b (sibling_parent_balance m b))
            (λ n. (stage_sibling node n b sibling, ok tt)))
        Fills_refl
        (and_then-KeepsOnError l (validate_staged_block node l b (sibling_parent_balance l b))
          (λ n. (stage_sibling node n b sibling, ok tt))
          (staged_fills node l b (sibling_parent_balance l b)) (λ e h. cc))

  add_new-KeepsOnError :
      (l : Ledger) (sibling : String) → KeepsOnError l (add_new node l b skip sibling)
  unfolding add_new
  add_new-KeepsOnError l sibling =
      elim (str_eq sibling "")
        as (λ c.
          KeepsOnError l (if c then add_to_chain node l b skip else add_sibling node l b sibling)) [
            | true ↦ add_to_chain-KeepsOnError l
            | false ↦ add_sibling-KeepsOnError l sibling
          ]

  add_unstored-KeepsOnError :
      (l : Ledger) (stored : Option Block) → KeepsOnError l (add_unstored node l b skip stored)
  unfolding add_unstored
  add_unstored-KeepsOnError l (some existing) = λ e h. Fills_refl
  add_unstored-KeepsOnError l none =
      and_then-KeepsOnError l (verify_block_credential node.host l b)
        (λ m. add_new node m b skip (detect_conflict_sibling (chain_of m b.account) b))
        (credential_fills node.host l b) (add_new-KeepsOnError _ _)

  add_admitted-KeepsOnError : (l : Ledger) → KeepsOnError l (add_admitted node l b skip)
  unfolding add_admitted
  add_admitted-KeepsOnError l =
      and_then-KeepsOnError l (l, entry_checks node b skip)
        (λ m. add_unstored node m b skip (lookup b.hash m.store.blocks)) Fills_refl
        (add_unstored-KeepsOnError l _)

stripped_type :
    (c : Bool) (n : Block) → (if c then n else record n { attestations = [] }).type ≡ n.type
stripped_type true n = refl
stripped_type false n = refl

pub admitted_type : (b : Block) → (admitted_block b).type ≡ b.type
unfolding admitted_block normalize_block_hex
admitted_type b = stripped_type (carries_attestations b.type) (normalize_block_hex b)

-- A block of any type but lease_cancel that is refused, at whichever check, leaves the whole ledger
-- as it was, the store included, but for keysets and account keys that were read into their caches.
pub refused_keeps :
    (node : Node) (l : Ledger) (b : Block) (skip : Bool) (e : String)
    → is_cancel b.type ≡ false
    → (add_block node l b skip).1 ≡ err e
    → Fills l (add_block node l b skip).0
unfolding add_block
refused_keeps node l b skip e never =
    add_admitted-KeepsOnError node (admitted_block b) skip (rw (admitted_type b) never) l e
