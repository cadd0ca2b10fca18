-- ===== src/Ledger/Credential.antt =====
-- Who may write a block (core/crypto.go: ValidatePubKeyDeclaration, VerifyBlock,
-- VerifyBlockSignatureWith; core/ledger.go: verifyBlockCredential, resolveMissingKeyset,
-- GetAccountKey). A check that fills a cache gives the ledger that it leaves with its result.
use xe.Prelude.{
  ℕ, String, Bool, true, false, not, ◌||◌, Option, none, some, List, [], ◌∷◌, Result, ok, err,
  ◌>>=◌, ◌>>◌, require, fail_if, some_or, when_some, str_eq, if◌then◌else◌,
}
use xe.Prelude.Int.{ℤ}
use xe.Map.{lookup, insert}
use xe.Types.{Block, BlockType, AccountChain, Keyset}
use xe.Multisig.{
  Verifier, decode_hash, verify_hex_signature, verify_multisig, verify_multisig_any, is_spending_op,
  is_empty,
}
use xe.Store.{is_set}
use xe.Ledger.{Ledger}

-- The cryptography and the constants of a node: ed25519, the block hash (core/encoding.go over
-- SHA-256), the address of a key and of a keyset (SHA-256), the BLAKE2b value of a nonce, the
-- difficulty, the timestamp window and the embedded genesis block.
pub record Host : Type 0 where
  pub verify : Verifier
  pub hash_block : Block → Result String
  pub derive_address : String → Result String
  pub derive_multisig_address : Keyset → Result String
  pub pow_hash : ℕ → List ℕ → ℕ
  pub difficulty : ℕ
  pub timestamp_window : ℤ
  pub genesis : Result Block

unfoldable pub validate_pub_key_declaration : Host → Block → Result (Unit {0})
validate_pub_key_declaration host b =
    if not (is_empty b.signatures)
    then fail_if (is_set b.pub_key) "multisig block must not declare pub_key"
    else if str_eq b.previous "0"
    then (do
      require (is_set b.pub_key) "open block must declare pub_key"
      derived ← host.derive_address b.pub_key
      require (str_eq derived b.account)
          "pub_key does not derive account address: derived %s, account %s")
    else fail_if (is_set b.pub_key) "non-open block must not declare pub_key"

unfoldable pub verify_block_signature_with : Host → Block → String → Result (Unit {0})
verify_block_signature_with host b key = do
  message ← decode_hash b.hash
  verify_hex_signature host.verify key b.signature message

unfoldable pub verify_block : Host → Block → Result (Unit {0})
verify_block host b = do
  expected ← host.hash_block b
  require (str_eq b.hash expected) "hash mismatch: got %s, want %s"
  validate_pub_key_declaration host b
  if not (is_empty b.signatures) || not (str_eq b.previous "0")
      then ok tt
      else verify_block_signature_with host b b.pub_key

abbrev sets_keyset : BlockType → Bool
sets_keyset BlockType.multisig_open = true
sets_keyset BlockType.multisig_update = true
sets_keyset _ = false

-- The last keyset that a chain declares.
unfoldable pub declared_keyset : Option Keyset → AccountChain → Option Keyset
declared_keyset found [] = found
declared_keyset found (b ∷ rest) =
    declared_keyset
      (if sets_keyset b.type then when_some b.ms_keyset found (λ ks. some ks) else found) rest

-- The last key that a chain declares.
unfoldable pub declared_key : String → AccountChain → String
declared_key found [] = found
declared_key found (b ∷ rest) = declared_key (if is_set b.pub_key then b.pub_key else found) rest

unfoldable pub resolve_missing_keyset : Ledger → String → Result Keyset
resolve_missing_keyset l account = do
  chain ←
      some_or (lookup account l.store.chains)
        "block has signatures but multisig keyset is not known: unopened account %s (multisig_open not yet synced)"
  some_or (declared_keyset none chain) "block has signatures but account is not multisig"

-- `setKeyset` of a keyset that was found.
abbrev pub cache_keyset : String → Result Keyset → Ledger → Ledger
cache_keyset account (ok ks) l = record l { keysets = insert account ks l.keysets }
cache_keyset account (err e) l = l

-- The signatures of a block, against the keyset that was found.
unfoldable pub check_signatures : Host → Block → Result Keyset → Result (Unit {0})
check_signatures host b found = do
  ks ← found
  if is_spending_op b.type
      then verify_multisig host.verify b.hash b.signatures ks
      else verify_multisig_any host.verify b.hash b.signatures ks

abbrev is_multisig_open : BlockType → Bool
is_multisig_open BlockType.multisig_open = true
is_multisig_open _ = false

abbrev pub known_keyset : Ledger → Block → Option Keyset
known_keyset l b = if is_multisig_open b.type then b.ms_keyset else lookup b.account l.keysets

-- A block with signatures: the keyset that is known, or else the one of the chain, which is cached.
unfoldable pub multisig_credential :
    Host → Ledger → Block → Option Keyset → Ledger × Result (Unit {0})
multisig_credential host l b (some ks) = (l, check_signatures host b (ok ks))
multisig_credential host l b none = (
  cache_keyset b.account (resolve_missing_keyset l b.account) l,
  check_signatures host b (resolve_missing_keyset l b.account),
)

-- `GetAccountKey`, and the ledger with the key that it caches.
unfoldable pub get_account_key : Ledger → String → Ledger × String
get_account_key l account = elim (lookup account l.account_keys) [
  | some key ↦ (l, key)
  | none ↦
      let found = when_some (lookup account l.store.chains) "" (λ chain. declared_key "" chain) in
      if is_set found
      then (record l { account_keys = insert account found l.account_keys }, found)
      else (l, "")
]

unfoldable pub single_credential : Host → Ledger → Block → Ledger × Result (Unit {0})
single_credential host l b =
    if str_eq b.previous "0"
    then (l, verify_block_signature_with host b b.pub_key)
    else let (l', key) = get_account_key l b.account in
      (
        l',
        (do
          require (is_set key) "signature: unopened account %s has no declared public key"
          verify_block_signature_with host b key),
      )

abbrev pub is_some : Option Keyset → Bool
is_some none = false
is_some (some ks) = true

abbrev pub after_declaration :
    Host → Ledger → Block → Result (Unit {0}) → Ledger × Result (Unit {0})
after_declaration host l b (err e) = (l, err e)
after_declaration host l b (ok u) =
    if not (is_empty b.signatures)
    then multisig_credential host l b (known_keyset l b)
    else if is_some (lookup b.account l.keysets)
    then (l, err "multisig account requires signatures")
    else single_credential host l b

unfoldable pub verify_block_credential : Host → Ledger → Block → Ledger × Result (Unit {0})
verify_block_credential host l b = after_declaration host l b (validate_pub_key_declaration host b)
