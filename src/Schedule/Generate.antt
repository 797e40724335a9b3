-- ===== src/Schedule/Generate.antt =====
-- `generateInstalmentSchedule` and `generateInstalmentScheduleTx` of
-- src/modules/financial/financial.service.ts.
use infraco_os.Common.{ℕ, suc, ◌+◌, ◌*◌, not, List, [], ◌∷◌, exists, if◌then◌else◌}
use infraco_os.Common.Int.{ℤ, pos, ltb_ℤ, leb_ℤ}
use infraco_os.Common.Result.{Result, ok, err}
use infraco_os.Database.Enums.{
  Error, check_violation, unique_violation, foreign_key_violation, CurrencyCode, instalment, draft,
}
use infraco_os.Database.Transaction.{
  Action, Tx, ◌>>=◌, ◌>>◌, pure, lift, statement, with_actor, zoom,
}
use infraco_os.Ledger.{has_account}
use infraco_os.Ledger.Tables.{Invoice}
use infraco_os.Office.{Reference, instalment_ref, uuid_head, Office}
use infraco_os.Lease.Billing.{uses_reference, add_invoice, new_invoice}
use infraco_os.Schedule.{GenerateSchedule, Plan, Desk, Computed, compute_schedule, due_day}

abbrev pub draft_row : ℕ → ℕ → ℤ → CurrencyCode → ℕ → Office → Invoice
draft_row account reference amount currency due o =
    record (new_invoice account instalment reference amount currency due o) { status = draft }

-- `INSERT INTO fin.invoice … 'instalment' … 'draft'` fails for an amount below 0, a reference that is
-- taken, or no such account.
abbrev pub store_draft : ℕ → ℕ → ℤ → CurrencyCode → ℕ → Office → Result Error (ℕ × Office)
store_draft account reference amount currency due o =
    if ltb_ℤ amount (pos 0)
    then err check_violation
    else if exists (uses_reference reference) o.fin.invoices
    then err unique_violation
    else if not (has_account account o.fin)
    then err foreign_key_violation
    else ok (o.next_invoice_id, add_invoice (draft_row account reference amount currency due o) o)

unfoldable pub insert_draft : ℕ → ℕ → ℤ → CurrencyCode → ℕ → Tx Office ℕ
insert_draft account reference amount currency due =
    statement (store_draft account reference amount currency due)

abbrev pub new_plan : ℕ → GenerateSchedule → Computed → Plan
new_plan account p c = record {
  account_id = account;
  total_price = p.total_price;
  deposit = p.deposit;
  num_instalments = p.num_instalments;
  frequency = p.frequency;
  structure = p.structure;
  start_date = due_day p.start_date 0;
  currency = c.currency;
}

-- INSERT INTO fin.instalment_plan
abbrev pub store_plan : ℕ → GenerateSchedule → Computed → Desk → Result Error (Unit {0} × Desk)
store_plan account p c d =
    if leb_ℤ p.num_instalments (pos 0)
    then err check_violation
    else if not (has_account account d.office.fin)
    then err foreign_key_violation
    else ok (tt, record d { plans = new_plan account p c ∷ d.plans })

unfoldable pub insert_plan : ℕ → GenerateSchedule → Computed → Tx Desk (Unit {0})
unfolding due_day
insert_plan account p c = statement (store_plan account p c)

-- INV-<account>-<i + 1>
abbrev pub draft_reference : (Reference → ℕ) → ℕ → ℕ → ℕ
draft_reference code account i = code (instalment_ref (uuid_head account) (i + 1))

-- The loop from `i`, over the amounts that are left.
unfoldable pub insert_drafts :
    (Reference → ℕ) → ℕ → GenerateSchedule → Computed → ℕ → List ℤ → Tx Office (List ℕ)
unfolding insert_draft due_day
insert_drafts code account p c i [] = pure []
insert_drafts code account p c i (amount ∷ amounts) = do
  id ←
      insert_draft account (draft_reference code account i) amount c.currency
        (due_day p.start_date (c.months_per_step * (i + 1)))
  ids ← insert_drafts code account p c (suc i) amounts
  pure (id ∷ ids)

abbrev pub on_office : {A : Type 0} → Tx Office A → Tx Desk A
on_office = zoom (λ d. d.office) (λ o d. record d { office = o })

pub record Schedule : Type 0 where
  pub invoice_ids : List ℕ
  pub amounts : List ℤ
  pub currency : CurrencyCode

unfoldable pub insert_schedule :
    (Reference → ℕ) → ℕ → GenerateSchedule → Computed → Tx Desk Schedule
unfolding insert_plan insert_drafts
insert_schedule code account p c = do
  insert_plan account p c
  ids ← on_office (insert_drafts code account p c 0 c.amounts)
  pure (record { invoice_ids = ids; amounts = c.amounts; currency = c.currency })

-- `generateInstalmentScheduleTx(tx, params)`
unfoldable pub generate_schedule_tx : (Reference → ℕ) → ℕ → GenerateSchedule → Tx Desk Schedule
unfolding compute_schedule insert_schedule
generate_schedule_tx code account p = do
  c ← lift (compute_schedule p)
  insert_schedule code account p c

-- `generateInstalmentSchedule(params)`, which checks the request before it opens a transaction.
unfoldable pub generate_schedule : (Reference → ℕ) → ℕ → GenerateSchedule → Action Desk Schedule
unfolding compute_schedule generate_schedule_tx
generate_schedule code account p = do
  lift (compute_schedule p)
  with_actor (generate_schedule_tx code account p)
