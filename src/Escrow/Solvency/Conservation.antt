-- ===== src/Escrow/Solvency/Conservation.antt =====
-- The balance of the agreements of contracts/contracts/SharedDepositEscrow.sol over all calls.
use shared_deposit_monad.Base.{ℕ, ◌≡◌, refl, List, [], ◌∷◌, arith}
use shared_deposit_monad.Escrow.Storage.{State, Msg, Call, ok, reverted, Done}
use shared_deposit_monad.Escrow.Solvency.{
  EscrowCall, accepting_tenant, accepting_recipient, depositing, cancelling, finalizing,
  withdrawing, refunding, paying_refund, paying_recipient, submitting, withdrawing_claim,
  finalizing_claim, voting, perform, paid, held, IsAccounted, Conserves, ledger, run_ledger,
}
use shared_deposit_monad.Escrow.Solvency.Quiet.{
  accepting_tenant-Conserves, accepting_recipient-Conserves, depositing-Conserves,
  cancelling-Conserves, withdrawing-Conserves, refunding-Conserves,
}
use shared_deposit_monad.Escrow.Solvency.Claims.Conservation.{
  submitting-Conserves, withdrawing_claim-Conserves, finalizing_claim-Conserves, voting-Conserves,
}
use shared_deposit_monad.Escrow.Solvency.Payouts.Conservation.{
  finalizing-Conserves, paying_refund-Conserves, paying_recipient-Conserves,
}

-- Every call that does not revert keeps the accounting, and moves exactly its money: what the contract
-- has to hold for the agreement afterwards, with what is sent to the caller, is what it had to hold
-- before, with what the caller pays in.
pub perform-Conserves :
    (call : EscrowCall) (msg : Msg) (s : State) (d : Done)
    → IsAccounted s
    → perform call msg s ≡ ok d
    → Conserves s (paid call msg) d
unfolding perform paid
perform-Conserves (accepting_tenant hash) msg s d kept h =
    accepting_tenant-Conserves msg hash s d kept h
perform-Conserves (accepting_recipient hash) msg s d kept h =
    accepting_recipient-Conserves msg hash s d kept h
perform-Conserves depositing msg s d kept h = depositing-Conserves msg s d kept h
perform-Conserves cancelling msg s d kept h = cancelling-Conserves msg s d kept h
perform-Conserves finalizing msg s d kept h = finalizing-Conserves msg s d kept h
perform-Conserves (withdrawing accepts amount) msg s d kept h =
    withdrawing-Conserves msg accepts amount s d kept h
perform-Conserves (refunding accepts) msg s d kept h = refunding-Conserves msg accepts s d kept h
perform-Conserves (paying_refund accepts) msg s d kept h =
    paying_refund-Conserves msg accepts s d kept h
perform-Conserves (paying_recipient accepts) msg s d kept h =
    paying_recipient-Conserves msg accepts s d kept h
perform-Conserves (submitting kind liable amount reason evidence) msg s d kept h =
    submitting-Conserves msg kind liable amount reason evidence s d kept h
perform-Conserves (withdrawing_claim id) msg s d kept h =
    withdrawing_claim-Conserves msg id s d kept h
perform-Conserves (finalizing_claim id) msg s d kept h =
    finalizing_claim-Conserves msg id s d kept h
perform-Conserves (voting id support) msg s d kept h = voting-Conserves msg id support s d kept h

-- What every call that does not revert keeps holds after any calls, reverted ones among them.
module _ {ℓ} (P : State → Type ℓ)
    (step : (call : EscrowCall) (msg : Msg) (s : State) (d : Done)
      → P s
      → perform call msg s ≡ ok d
      → P d.state) where
  ledger_keeps :
      (c : EscrowCall × Msg) (s : State) (balance : ℕ) → P s → P (ledger c (s, balance)).0
  unfolding ledger
  ledger_keeps (call, msg) s balance h = go (perform call msg s) refl
    where
      go : (r : Call Done) → perform call msg s ≡ r → P (ledger (call, msg) (s, balance)).0
      go (ok d) e = rw (e, ledger) (step call msg s d h e)
      go (reverted x) e = rw (e, ledger) h

  pub run_ledger_keeps :
      (cs : List (EscrowCall × Msg)) (s : State) (balance : ℕ)
      → P s
      → P (run_ledger cs (s, balance)).0
  unfolding run_ledger
  run_ledger_keeps [] s balance h = h
  run_ledger_keeps (c ∷ cs) s balance h =
      run_ledger_keeps cs (ledger c (s, balance)).0 (ledger c (s, balance)).1
        (ledger_keeps c s balance h)

ledger-balance :
    (c : EscrowCall × Msg) (s : State) (balance : ℕ)
    → IsAccounted s
    → balance ≡ held s
    → IsAccounted (ledger c (s, balance)).0
      × ((ledger c (s, balance)).1 ≡ held (ledger c (s, balance)).0)
unfolding ledger
ledger-balance (call, msg) s balance sound h = go (perform call msg s) refl
  where
    go :
        (r : Call Done)
        → perform call msg s ≡ r
        → IsAccounted (ledger (call, msg) (s, balance)).0
          × ((ledger (call, msg) (s, balance)).1 ≡ held (ledger (call, msg) (s, balance)).0)
    go (ok d) e =
        let (sound2, conserved) = perform-Conserves call msg s d sound e in
        rw (e, ledger) (sound2, omega arith)
    go (reverted x) e = rw (e, ledger) (sound, h)

-- After any calls on accounted storage, reverted ones among them, the storage is accounted and the
-- contract holds exactly what it has to hold for the agreement, if it did before.
pub run_ledger-balance :
    (cs : List (EscrowCall × Msg)) (s : State) (balance : ℕ)
    → IsAccounted s
    → balance ≡ held s
    → IsAccounted (run_ledger cs (s, balance)).0
      × ((run_ledger cs (s, balance)).1 ≡ held (run_ledger cs (s, balance)).0)
unfolding run_ledger
run_ledger-balance [] s balance sound h = (sound, h)
run_ledger-balance (c ∷ cs) s balance sound h =
    let (sound2, h2) = ledger-balance c s balance sound h in
    run_ledger-balance cs (ledger c (s, balance)).0 (ledger c (s, balance)).1 sound2 h2
