-- ===== src/Examples/Escrow.antt =====
-- The balance of the escrow contract at concrete inputs.
use shared_deposit_monad.Base.{
  ℕ, ◌+◌, ◌≤◌, ◌<◌, ◌≡◌, refl, sym, ◌↔◌, true, List, [], ◌∷◌, ◌++◌, arith, All,
}
use shared_deposit_monad.Escrow.Types.{shared, is_active}
use shared_deposit_monad.Escrow.Storage.{State, Msg, ok, Done, u128, put, set_tenant}
use shared_deposit_monad.Escrow.Creation.{
  Terms, create_agreement, register_one, register_tenants, check_terms, new_agreement, blank_state,
}
use shared_deposit_monad.Escrow.Funding.{check_and_activate, accept_as_tenant, deposit, set_funded}
use shared_deposit_monad.Escrow.Finalization.{finalize_agreement}
use shared_deposit_monad.Escrow.Sums.{tenant_sum}
use shared_deposit_monad.Escrow.Solvency.{
  held, claimed, EscrowCall, accepting_tenant, accepting_recipient, depositing, submitting, voting,
  finalizing, paying_recipient, paying_refund, perform, run_ledger, IsAccounted, Conserves, paid,
}
use shared_deposit_monad.Escrow.Solvency.Conservation.{perform-Conserves, run_ledger-balance}
use shared_deposit_monad.Escrow.Solvency.Payouts.{finalize_agreement_iff}
use shared_deposit_monad.Escrow.Solvency.Fresh.{IsFresh-IsAccounted}
use shared_deposit_monad.Escrow.Solvency.Start.{created-balance, create_agreement-IsFresh}

abbrev pub msg : Msg
msg = record { sender = 1; value = 3; timestamp = 50 }

abbrev pub terms : Terms
terms = record {
  recipient = 7;
  terms_hash = 5;
  lease_start = 100;
  lease_end = 200;
  funding_deadline = 90;
  claim_deadline = 300;
  settlement_deadline = 400;
  tenant_addresses = 1 ∷ 2 ∷ [];
  required_amounts = 10 ∷ 20 ∷ [];
}

abbrev registered : State
registered =
    register_one 2 20 1
      (register_one 1 10 0 (record (blank_state) { agreement = new_agreement msg terms }))

abbrev pub created : State
created = record registered { agreement = record (registered.agreement) { total_required = 30 } }

pub is_created : create_agreement msg terms ≡ ok created
unfolding create_agreement register_tenants register_one check_terms new_agreement put
is_created = refl

pub small : All (λ n. n < u128) terms.required_amounts
small = (omega arith, (omega arith, tt))

-- A whole life: acceptance, deposits, a claim with its votes, the finalization and the payouts.
abbrev pub call : ℕ → ℕ → ℕ → EscrowCall → EscrowCall × Msg
call sender value timestamp c =
    (c, record { sender = sender; value = value; timestamp = timestamp })

abbrev pub funding : List (EscrowCall × Msg)
funding =
    call 1 0 50 (accepting_tenant 5)
    ∷ call 2 0 50 (accepting_tenant 5)
    ∷ call 7 0 50 (accepting_recipient 5)
    ∷ call 1 10 60 depositing
    ∷ call 2 20 60 depositing
    ∷ []

abbrev calls : List (EscrowCall × Msg)
calls =
    funding
    ++ (call 7 0 250 (submitting shared 0 7 1 1)
        ∷ call 1 0 260 (voting 1 true)
        ∷ call 2 0 260 (voting 1 true)
        ∷ call 9 0 500 finalizing
        ∷ call 7 0 501 (paying_recipient true)
        ∷ call 1 0 501 (paying_refund true)
        ∷ [])

created-balance_example :
    ((run_ledger calls (created, 0)).1 ≡ held (run_ledger calls (created, 0)).0)
    × ((run_ledger calls (created, 0)).0.agreement.total_cancelled_funding_withdrawn
        ≤ (run_ledger calls (created, 0)).0.agreement.total_funded)
    × (claimed (run_ledger calls (created, 0)).0.agreement
        ≤ (run_ledger calls (created, 0)).0.agreement.total_funded)
created-balance_example = created-balance msg terms created calls small is_created

created-IsAccounted : IsAccounted created
created-IsAccounted =
    (IsFresh-IsAccounted created (create_agreement-IsFresh msg terms created small is_created)).0

created_nothing : held created ≡ 0
created_nothing =
    (IsFresh-IsAccounted created (create_agreement-IsFresh msg terms created small is_created)).1

abbrev funded : State
funded = (run_ledger funding (created, 0)).0

funded-IsAccounted : IsAccounted funded
funded-IsAccounted =
    (run_ledger-balance funding created 0 created-IsAccounted (sym created_nothing)).0

finalize_agreement_iff_example :
    ((d : Done) × (finalize_agreement (record msg { timestamp = 500 }) funded ≡ ok d)
      × (tenant_sum (λ t. t.refund_amount) d.state.tenants d.state.tenant_list
            + d.state.agreement.total_approved_claims
          ≡ funded.agreement.total_funded))
    ↔ ((is_active funded.agreement.status ≡ true)
        × (funded.agreement.settlement_deadline < 500)
        × (funded.agreement.unresolved_claim_count ≡ 0))
finalize_agreement_iff_example =
    finalize_agreement_iff (record msg { timestamp = 500 }) funded funded-IsAccounted

abbrev accepted : Done
accepted = record {
  state =
      check_and_activate (set_tenant 1 (record (created.tenants 1) { accepted = true }) created);
  sent = 0;
}

is_accepted : perform (accepting_tenant 5) msg created ≡ ok accepted
unfolding perform accept_as_tenant register_one new_agreement put
is_accepted = refl

accepted-IsAccounted : IsAccounted accepted.state
accepted-IsAccounted =
    (perform-Conserves (accepting_tenant 5) msg created accepted created-IsAccounted is_accepted).0

abbrev deposited : Done
deposited = record { state = check_and_activate (set_funded 1 3 3 accepted.state); sent = 0 }

is_deposited : perform depositing msg accepted.state ≡ ok deposited
unfolding perform deposit register_one new_agreement check_and_activate set_tenant put
is_deposited = refl

perform-Conserves_example : Conserves accepted.state 3 deposited
unfolding paid
perform-Conserves_example =
    perform-Conserves depositing msg accepted.state deposited accepted-IsAccounted is_deposited
