-- ===== src/Ledger/Admission.antt =====
-- How a block enters the ledger: core/ledger.go (normalizeBlockHex, addBlock,
-- dispatchValidateAndAdd, the credential of ValidateStagedBlock).
-- A step that a failing call may still leave behind gives the ledger with its result.
pub mod Refused
pub mod Funds
pub mod Outcome
use Prim.Native.Char.{Char, code}
use Prim.Native.String.{char_at}
use xe.Prelude.{
  ℕ, ◌+◌, ◌-◌, String, Bool, true, false, not, ◌&&◌, ◌||◌, Option, none, some, List, [], ◌∷◌, map,
  Result, ok, err, ◌>>◌, ◌>>=◌, require, fail_if, some_or, when_some, ltb, leb, ◌==◌, str_eq,
  if◌then◌else◌, length,
}
use xe.Prelude.Int.{ℤ, pos, ltb_ℤ, sub_64}
use xe.Hex.{decode_hex}
use xe.Map.{Map, lookup, insert}
use xe.Types.{Block, BlockType, AccountChain, Conflict, Keyset, BlockSignature, is_valid_asset}
use xe.Attestation.{contains}
use xe.Store.{conflict_key}
use xe.Ledger.{Ledger, LedgerConfig}
use xe.Ledger.Height.{chain_of, is_finalized}
use xe.Ledger.Weights.{RepresentativeConfig, snapshot_weights, snapshot_total}
use xe.Ledger.Credential.{Host, verify_block, verify_block_credential}
use xe.Ledger.Staged.{staged_checks, detect_conflict_sibling, record_conflict}
use xe.Ledger.Account.{
  validate_and_add_genesis, validate_and_add_multisig_open, validate_and_add_multisig_update,
}
use xe.Ledger.Transfer.{
  validate_and_add_send, validate_and_add_receive, validate_and_add_burn, validate_and_add_mint,
}
use xe.Ledger.Contract.{validate_and_add_lease}
use xe.Ledger.Contract.Accept.{validate_and_add_lease_accept}
use xe.Ledger.Contract.Renew.{validate_and_add_lease_renew}
use xe.Ledger.Contract.Close.{validate_and_add_lease_settle, validate_and_add_lease_force_settle}
use xe.Ledger.Contract.Cancel.{validate_and_add_lease_cancel}

-- The package variables and callbacks that admission reads; `busy` tells that the lock which a
-- lease_cancel tries to take is held.
pub record Node : Type 0 where
  pub host : Host
  pub config : LedgerConfig
  pub representatives : Option RepresentativeConfig
  pub genesis_supply : ℕ
  pub busy : Bool

-- `strings.ToLower` on ASCII.
abbrev lower_char : Char → Char
lower_char c =
    if leb b'A' (code c) && leb (code c) b'Z'
    then char_at "abcdefghijklmnopqrstuvwxyz" (code c - b'A')
    else c

unfoldable pub to_lower : String → String
to_lower String.[] = String.[]
to_lower (String.◌∷◌ c s) = String.◌∷◌ (lower_char c) (to_lower s)

abbrev lower_signature : BlockSignature → BlockSignature
lower_signature s = record { public_key = to_lower s.public_key; sig = to_lower s.sig }

abbrev lower_keyset : Keyset → Keyset
lower_keyset ks = record ks { keys = map to_lower ks.keys }

unfoldable pub normalize_block_hex : Block → Block
normalize_block_hex b = record b {
  account = to_lower b.account;
  previous = to_lower b.previous;
  hash = to_lower b.hash;
  signature = to_lower b.signature;
  destination = to_lower b.destination;
  source = to_lower b.source;
  representative = to_lower b.representative;
  pub_key = to_lower b.pub_key;
  signatures = map lower_signature b.signatures;
  ms_keyset = when_some b.ms_keyset none (λ ks. some (lower_keyset ks));
}

abbrev pub carries_attestations : BlockType → Bool
carries_attestations BlockType.lease_accept = true
carries_attestations BlockType.lease_settle = true
carries_attestations BlockType.lease_force_settle = true
carries_attestations BlockType.lease_renew = true
carries_attestations _ = false

-- The block that `addBlock` works on.
unfoldable pub admitted_block : Block → Block
admitted_block b =
    let n = normalize_block_hex b in
    if carries_attestations n.type then n else record n { attestations = [] }

abbrev max_attestations_per_block : ℕ
max_attestations_per_block = 20

unfoldable pub check_pow : Host → Block → Result (Unit {0})
check_pow host b = if host.difficulty == 0 then ok tt else (do
  hash_bytes ← some_or (decode_hex b.hash) "decode hash"
  require (leb host.difficulty (host.pow_hash b.pow_nonce hash_bytes)) "invalid proof-of-work")

unfoldable pub check_window : ℤ → ℤ → Block → Result (Unit {0})
check_window window now b = if not (ltb_ℤ (pos 0) window) then ok tt else (do
  fail_if (ltb_ℤ b.timestamp (pos 0)) "block timestamp must not be negative"
  let delta = if ltb_ℤ now b.timestamp then sub_64 b.timestamp now else sub_64 now b.timestamp
  fail_if (ltb_ℤ window delta) "block timestamp out of range: delta=%v")

-- The checks before a lock is taken.
unfoldable pub entry_checks : Node → Block → Bool → Result (Unit {0})
entry_checks node b skip_timestamp = do
  fail_if (ltb max_attestations_per_block (length b.attestations))
      "too many attestations: %d exceeds max %d"
  verify_block node.host b
  check_pow node.host b
  if skip_timestamp then ok tt else check_window node.host.timestamp_window node.config.now b

unfoldable pub asset_checks : Block → String → String → Result (Unit {0})
asset_checks b missing unsupported = do
  fail_if (str_eq b.asset "") missing
  require (is_valid_asset b.asset) unsupported

-- Whether a text starts with another, and whether a record's key does.
unfoldable pub has_prefix : String → String → Bool
has_prefix s String.[] = true
has_prefix String.[] (String.◌∷◌ d t) = false
has_prefix (String.◌∷◌ c s) (String.◌∷◌ d t) = (code c == code d) && has_prefix s t

unfoldable pub has_conflict : String → Map Conflict → Bool
has_conflict prefix [] = false
has_conflict prefix ((k, r) ∷ rest) = has_prefix k prefix || has_conflict prefix rest

-- The loop over the chain up to the previous block.
unfoldable pub parent_balance_from : Block → ℕ → AccountChain → ℕ
parent_balance_from b found [] = found
parent_balance_from b found (c ∷ rest) =
    let here = if str_eq c.asset b.asset then c.balance else found in
    let later = parent_balance_from b here rest in if str_eq c.hash b.previous then here else later

abbrev with_snapshot : Node → Ledger → Bool → Conflict → Conflict
with_snapshot node l false r = r
with_snapshot node l true r =
    let snapshot = snapshot_weights node.representatives l in
    record r { weight_snapshot = snapshot; total_weight = snapshot_total 0 snapshot }

-- The record of the fork and, where it lists the block, the block's body.
unfoldable pub stage_sibling : Node → Ledger → Block → String → Ledger
stage_sibling node l b sibling =
    let key = conflict_key b.account b.previous in
    let (saved, is_new) =
      record_conflict node.config.now b.account b.previous sibling b.hash
        (lookup key l.store.conflicts) in
    let conflicts =
      when_some saved l.store.conflicts
        (λ r. insert key (with_snapshot node l is_new r) l.store.conflicts) in
    let listed = when_some (lookup key conflicts) false (λ r. contains b.hash r.block_hashes) in
    record l {
      store = record l.store {
        conflicts = conflicts;
        staged = if listed then insert b.hash b l.store.staged else l.store.staged;
      };
    }

-- What follows a call, on the ledger that the call leaves.
abbrev pub and_then :
    Ledger × Result (Unit {0}) → (Ledger → Ledger × Result (Unit {0})) → Ledger × Result (Unit {0})
and_then (l, ok u) after = after l
and_then (l, err e) after = (l, err e)

abbrev pub leave : Ledger → Result Ledger → Ledger × Result (Unit {0})
leave l (ok written) = (written, ok tt)
leave l (err e) = (l, err e)

unfoldable pub validate_staged_block : Node → Ledger → Block → ℕ → Ledger × Result (Unit {0})
validate_staged_block node l b parent =
    and_then (verify_block_credential node.host l b)
      (λ m. (m, staged_checks node.config m b parent b.type))

-- The checks of a block beside a sibling, and of a block without one.
unfoldable pub sibling_checks : Ledger → Block → String → Result (Unit {0})
sibling_checks l b sibling = do
  fail_if (is_finalized l b.account sibling) "block conflicts with finalized block %s — rejected"
  asset_checks b "conflict block must have an asset" "conflict block: unsupported asset: %q"

unfoldable pub chain_checks : Ledger → Block → Result (Unit {0})
chain_checks l b = do
  fail_if (has_conflict (conflict_key b.account "") l.store.conflicts)
      "account has unresolved conflict — block rejected pending resolution"
  asset_checks b "block must have an asset" "unsupported asset: %q"

unfoldable pub sibling_parent_balance : Ledger → Block → ℕ
sibling_parent_balance l b =
    if str_eq b.previous "0" then 0 else parent_balance_from b 0 (chain_of l b.account)

unfoldable pub add_sibling : Node → Ledger → Block → String → Ledger × Result (Unit {0})
add_sibling node l b sibling =
    and_then (l, sibling_checks l b sibling)
      (λ m.
        and_then (validate_staged_block node m b (sibling_parent_balance m b))
          (λ n. (stage_sibling node n b sibling, ok tt)))

-- The handler of a block, by its type; no dark validator is registered.
unfoldable pub handle : Node → Ledger → Block → Bool → BlockType → Ledger × Result (Unit {0})
handle node l b skip BlockType.send = leave l (validate_and_add_send l b)
handle node l b skip BlockType.receive = leave l (validate_and_add_receive l b)
handle node l b skip BlockType.genesis =
    leave l (validate_and_add_genesis node.host node.genesis_supply l b)
handle node l b skip BlockType.lease = leave l (validate_and_add_lease node.config l b)
handle node l b skip BlockType.lease_accept =
    leave l (validate_and_add_lease_accept node.config l b skip)
handle node l b skip BlockType.lease_settle =
    leave l (validate_and_add_lease_settle node.config l b skip)
handle node l b skip BlockType.lease_cancel = validate_and_add_lease_cancel node.busy l b
handle node l b skip BlockType.lease_force_settle =
    leave l (validate_and_add_lease_force_settle node.config l b skip)
handle node l b skip BlockType.lease_renew =
    leave l (validate_and_add_lease_renew node.config l b skip)
handle node l b skip BlockType.multisig_open =
    leave l (validate_and_add_multisig_open node.host l b)
handle node l b skip BlockType.multisig_update = leave l (validate_and_add_multisig_update l b)
handle node l b skip BlockType.burn = leave l (validate_and_add_burn l b)
handle node l b skip BlockType.mint = leave l (validate_and_add_mint node.config l b)
handle node l b skip (BlockType.other name) = (l, err "unknown block type: %s")

unfoldable pub dispatch_validate_and_add : Node → Ledger → Block → Bool → Ledger × Result (Unit {0})
dispatch_validate_and_add node l b skip =
    and_then (verify_block_credential node.host l b) (λ m. handle node m b skip b.type)

unfoldable pub add_to_chain : Node → Ledger → Block → Bool → Ledger × Result (Unit {0})
add_to_chain node l b skip =
    and_then (l, chain_checks l b) (λ m. dispatch_validate_and_add node m b skip)

-- A block whose hash is not stored, with its credential checked.
unfoldable pub add_new : Node → Ledger → Block → Bool → String → Ledger × Result (Unit {0})
add_new node l b skip sibling =
    if str_eq sibling "" then add_to_chain node l b skip else add_sibling node l b sibling

-- A block whose hash is stored is accepted without effect.
unfoldable pub add_unstored :
    Node → Ledger → Block → Bool → Option Block → Ledger × Result (Unit {0})
add_unstored node l b skip (some existing) = (l, ok tt)
add_unstored node l b skip none =
    and_then (verify_block_credential node.host l b)
      (λ m. add_new node m b skip (detect_conflict_sibling (chain_of m b.account) b))

-- `addBlock` of the block that `admitted_block` gives.
unfoldable pub add_admitted : Node → Ledger → Block → Bool → Ledger × Result (Unit {0})
add_admitted node l b skip =
    and_then (l, entry_checks node b skip)
      (λ m. add_unstored node m b skip (lookup b.hash m.store.blocks))

unfoldable pub add_block : Node → Ledger → Block → Bool → Ledger × Result (Unit {0})
add_block node l b skip = add_admitted node l (admitted_block b) skip
