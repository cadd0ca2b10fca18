-- ===== src/Lib.antt =====
-- The ledger core of the xe node: a block lattice, one chain of blocks for each account, with two
-- assets (XE and XUSD), pending sends, compute leases that are paid in XUSD and settle in newly
-- emitted XE, and reputation counters that follow the leases.
--
-- Parts, and how they interact. addBlock checks a block's hash, proof of work, time and credential,
-- looks for a block with the same previous one, and either stages the two as a fork or hands the
-- block to the handler of its type; votes on a fork are tallied by core/quorum.go. A handler of
-- core/ledger.go or core/mint.go checks a block against the account's chain, the cached
-- balances and the pending sends, prepares a BlockCommit, and hands
-- it to commitBlockWrite, which writes the store (store/mem_store.go) in one step and then updates
-- the caches (balances, delegation weights, account keys). While a fork is resolved a cascade of
-- undos is active, and the handlers read through an overlay (core/cascade_commit.go) until the
-- winner's write commits undos and block together.
--
-- Files:
--   Prelude, Map       shared names, Boolean tests, results, int64, Go maps as association lists
--   Word               core/ledger.go safeMul, safeAdd, ceilDiv; core/amount.go mul64, addOverflow64;
--                      core/supply.go sumU64, signedDelta
--   Amount             core/amount.go ParseAmount, FormatAmount, FormatAmountFixed, AssetByName
--   Types              the data of core/types.go, core/store.go and core/quorum.go
--   Lease              core/ledger.go LeaseCost, LeaseStake, ValidateLeaseDimensions,
--                      ApplyGenesisLeaseTiming, CapR, LeaseEmissionChecked, LeaseTotalEmission;
--                      core/types.go EffectiveExpiry
--   Reputation         core/reputation.go
--   Attestation        core/attestation.go ValidateAttestations; Attestation/Median is where a time
--                      comes from
--   Memo               core/memo.go
--   Hex, Multisig      core/crypto.go DecodePublicKey, DecodeSignature, DecodeHash, VerifyHexSignature;
--                      core/multisig.go ValidateKeyset, VerifyMultisig, VerifyMultisigAny, IsSpendingOp;
--                      Multisig/Threshold is what a multisig check has checked, Multisig/Panic when it
--                      panics
--   Store              store/mem_store.go: the state, applyCommitLocked, applyUndoLocked, CommitCascade
--   Ledger             core/ledger.go type Ledger and its balance caches, core/cascade_commit.go,
--                      core/rollback.go assetBalanceOnChain, xusdBalanceOnChain
--   Ledger/Commit      prepareBlockWrite, commitBlockWrite, updateDelegation and the in-memory half of
--                      an undo; Ledger/Effect says what an accepted write changes
--   Ledger/Attest      validateLockedEmissionAt and the attested time of the lease handlers
--   Ledger/Transfer    validateAndAddSend, validateAndAddReceive, validateAndAddBurn,
--                      validateAndAddMint; its children are their theorems
--   Ledger/Contract    validateAndAddLease, validateAndAddLeaseAccept, validateAndAddLeaseSettle,
--                      validateAndAddLeaseForceSettle, validateAndAddLeaseCancel with
--                      resolveCancelWinsOverAccept, and validateAndAddLeaseRenew of
--                      core/lease_renew.go; Ledger/Contract/Lifecycle is the states of a record, and
--                      Ledger/Contract/Refund what a cancel pays back
--   Ledger/Undo        core/rollback.go buildBlockUndo, undoBlockApply, priorLease, escrowPendingOf,
--                      priorLeasePopRenewal; Ledger/Undo/Send is the round trip of a send
--   Ledger/Cascade     core/rollback.go planCascade, planRollbackOfSend, planRollbackFrom;
--                      Ledger/Cascade/Swap is SwapBlock with core/cascade_commit.go addUndo,
--                      activateCascade and deactivateCascade; Ledger/Cascade/Ends is about the fuel,
--                      Ledger/Cascade/Swap/Above and Kept about what is taken back and kept
--   Ledger/Weights     core/repeligibility.go and snapshotWeights, GetTotalDelegatedWeight
--   Ledger/Height      GetAssetBalanceAtBlock, GetBlockHeight, FinalHeight, IsFinalized and
--                      core/spendable.go
--   Ledger/Credential  ValidatePubKeyDeclaration, VerifyBlock, VerifyBlockSignatureWith of
--                      core/crypto.go; verifyBlockCredential, resolveMissingKeyset, GetAccountKey
--   Ledger/Staged      ValidateStagedBlock, and core/conflict.go
--   Ledger/Account     validateAndAddGenesis, validateAndAddMultisigOpen, validateAndAddMultisigUpdate
--                      and core/genesis.go ValidateGenesisBlock
--   Ledger/Admission   normalizeBlockHex, addBlock, dispatchValidateAndAdd; Ledger/Admission/Refused is
--                      what an error leaves, Ledger/Admission/Outcome what an answer does to funds
--   Ledger/Supply, Ledger/Invariant   the supply of an asset and the well-formed ledgers
--   Quorum             core/quorum.go finalTally, promotable, buildResultFrom; Quorum/Voting is the
--                      checks of a vote in core/vote.go; Quorum/Unique and Quorum/Winner are
--                      about the quorum behind a winner
--   Bytes, Encoding    core/encoding.go and core/crypto.go HashBlock: MarshalBlockCanonical and
--                      MarshalBlock (Encoding), MarshalBlockAux (Encoding/Hash), UnmarshalBlock
--                      (Encoding/Decode), EncodeVote and DecodeVote (Encoding/Vote);
--                      Encoding/RoundTrip and Encoding/Vote/RoundTrip read the bytes back
--   Tests              the concrete blocks and ledgers that the theorems are run on
--
-- Conventions. A uint64 is a native number with `% 2 ^ 64` written where the source may wrap, an
-- int64 an integer whose sums wrap. A Go map is an association list; the locks that a call holds
-- make a call one step from state to state. An error is the literal format string of the source.
-- Loops are structural recursions over the lists they walk. Only planRollbackOfSend, which calls itself
-- through the chains of other accounts, is given fuel: one more than the blocks of all chains, since each
-- nested call has put the hash of one more block into the plan.
--
-- Where the source would panic (a slice past the end of a text), the model gives an error of its own.
-- A call that may change the state and still fail gives the ledger that it leaves with its result;
-- any other handler gives the new ledger or the error. An error that wraps another is that other one.
--
-- Parameters. Callbacks of LedgerConfig, the clock and the signature check of an attestation are
-- fields of the model's LedgerConfig. ed25519, the block hash, the
-- addresses of keys and keysets (SHA-256), the BLAKE2b value of core/pow.go, the difficulty, the
-- timestamp window and the embedded genesis block are fields of the model's Host; the rest of what
-- admission reads is its Node. No theorem assumes anything of them.
--
-- Not modelled: casting votes and the retries of a tally's winner (confirmConflict), making keys and
-- signatures, the statechain, the disk store, and everything that is
-- I/O (network, node, machines, pages, tools). Callbacks to subscribers and log lines have no effect on the ledger and are left
-- out; so is that admission lowers the letters of a caller's keyset and signatures in place.
-- strings.EqualFold and strings.ToLower are modelled for ASCII letters only, the alphabet of the
-- addresses and hashes they are used on;
-- string(bytes) is modelled for printable ASCII, and gives U+0000 for any other byte of an asset.
-- Attestations with the same key keep their order where sort.Slice may change it. MemStore never fails a read, so the error branches after a
-- read of the store are left out. No block type waits for a feature at this commit.
pub mod Prelude
pub mod Map
pub mod Hex
pub mod Bytes
pub mod Word
pub mod Amount
pub mod Types
pub mod Lease
pub mod Reputation
pub mod Memo
pub mod Attestation
pub mod Encoding
pub mod Multisig
pub mod Quorum
pub mod Store
pub mod Ledger
pub mod Tests
