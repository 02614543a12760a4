-- ===== src/Lib.antt =====
-- Shared Deposit on Monad: the browser client and the escrow contract that it writes to.
--
-- The program has three parts. The client (frontend/src) shows drafts and agreements, derives from direct
-- contract reads what a wallet may do, sends contract writes through the wallet, and follows each one until
-- its effect is verified. The backend (backend/app) keeps drafts, sessions and a record of sent
-- transactions; the client calls it, and here its answers are arguments. The contract
-- (contracts/contracts/SharedDepositEscrow.sol) holds the deposits.
--
-- Which file models what (paths from the repository's root):
--   Tx          frontend/src/app/TxContext.tsx: the transaction list, its operations track, update, remove,
--               hide and clear, its persistence, and the lock isActionLocked. Tx.Locks and Tx.Sessions prove
--               what each operation and each sequence of them does to a lock.
--   ContractTx  frontend/src/hooks/useContractTx.ts: Provider is inspectOnce, Propagation is
--               confirmPropagation, Polling is pollClassify, Send is send, applyClassification and
--               retryReceipt. What viem, wagmi and the wallet answer is in a World; the calls of the
--               transaction context and of the backend are a list of effects in their order.
--   Diagnostics frontend/src/lib/diagnostics.ts: evaluateHealth and classifyPropagation.
--   Readings    frontend/src/hooks/useWalletNetworkDiagnostics.ts: the readings of both providers.
--   Role        frontend/src/hooks/useAgreementRole.ts, and in Role.Snapshots what
--               frontend/src/pages/AgreementDetail.tsx hands to it. Role.Contract sets the permissions
--               against the guards of the contract.
--   Actions     frontend/src/components/AgreementActions.tsx: cards, gates and handlers.
--   Api         frontend/src/lib/api.ts: requests, the CSRF header, errors.
--   Stored      frontend/src/lib/txPersistence.ts: request bodies and the merge of stored rows.
--   Recovery    frontend/src/lib/txRecovery.ts, frontend/src/components/TxRecovery.tsx and
--               frontend/src/hooks/useAgreementCacheSync.ts.
--   Auth        frontend/src/app/AuthContext.tsx: the session of the client.
--   Format      frontend/src/lib/format.ts. Wizard: frontend/src/pages/NewAgreement.tsx, and in
--               Wizard.Submit the draft that it posts. Canonical: frontend/src/lib/canonical.ts.
--   Detail      frontend/src/pages/AgreementDetail.tsx: what the page counts and shows of its reads.
--   Activity    frontend/src/lib/activity.ts. Drawer: the transaction drawer and the wallet picker.
--   Drafts      frontend/src/pages/DraftDetail.tsx and frontend/src/pages/InvitationReview.tsx.
--   Escrow      the contract, on the storage of one agreement: Types and Storage, Creation
--               (createAgreement), Funding (acceptance, deposits, cancellation), Claims (submitClaim,
--               withdrawPendingClaim, voteClaim, finalizePendingClaim), Settlement (the loops of
--               _computeSettlement) and Finalization (finalizeAgreement and the payouts). Solvency puts all
--               calls together, with the balance that each of them changes; Votes is about the counts and
--               the outcome of votes, Closing about the counters of claims and the end of an agreement.
--   Base        shared names and helpers. Examples: the theorems at concrete inputs.
--
-- Conventions. Text is a list of code points, and lower case is that of ASCII. A number is a natural; a
-- difference of bigints that may be negative is an integer; a uint128 is checked against 2 ^ 128. A missing
-- value (null, undefined) is none. Loops over time run on fuel: confirmPropagation on 21 rounds and
-- pollClassify on 42, which is enough because each round waits 1.5 seconds and the windows are 30 and 60
-- seconds; the totality theorems say so. All other loops are structural.
--
-- Not modelled: rendering, styles and routing, which hold no state of their own; the backend, a service;
-- the generated ABI; viem, wagmi and React, whose answers and scheduling are arguments. The views
-- of the contract, which change no state, are left out.
pub mod Base
pub mod Tx
pub mod Diagnostics
pub mod ContractTx
pub mod Escrow
pub mod Role
pub mod Api
pub mod Stored
pub mod Recovery
pub mod Auth
pub mod Format
pub mod Wizard
pub mod Actions
pub mod Drawer
pub mod Activity
pub mod Readings
pub mod Drafts
pub mod Canonical
pub mod Detail
pub mod Examples
