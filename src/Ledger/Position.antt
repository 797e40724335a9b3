-- ===== src/Ledger/Position.antt =====
-- The position of an account: `recomputeAccount` of src/modules/financial/ledger.service.ts.
use infraco_os.Common.{
  ℕ, ◌-◌, Bool, true, false, not, ◌&&◌, Option, none, some, List, [], ◌∷◌, ltb, ◌==◌, if◌then◌else◌,
  update_where,
}
use infraco_os.Common.Int.{ℤ, pos, ◌+ℤ◌, ◌-ℤ◌, ltb_ℤ}
use infraco_os.Database.Enums.{
  not_found, InvoiceStatus, issued, partially_paid, paid, overdue, cancelled,
}
use infraco_os.Database.Transaction.{
  Action, Tx, ◌>>=◌, ◌>>◌, pure, throw_if, query, modify, with_actor,
}
use infraco_os.Instalment.{arrears_bucket}
use infraco_os.Ledger.Tables.{Invoice, Fin, AccountPosition}
use infraco_os.Ledger.{has_account}

-- status IN ('issued','partially_paid','overdue')
abbrev pub is_raised : InvoiceStatus → Bool
is_raised issued = true
is_raised partially_paid = true
is_raised overdue = true
is_raised _ = false

-- status IN ('issued','partially_paid')
abbrev pub may_fall_overdue : InvoiceStatus → Bool
may_fall_overdue issued = true
may_fall_overdue partially_paid = true
may_fall_overdue _ = false

-- status NOT IN ('paid','cancelled')
abbrev pub is_live : InvoiceStatus → Bool
is_live paid = false
is_live cancelled = false
is_live _ = true

abbrev pub of_account : ℕ → Invoice → Bool
of_account id i = i.account_id == id

-- amount_paid < amount AND due_date < $2
abbrev pub past_due : ℕ → Invoice → Bool
past_due as_of i = ltb_ℤ i.amount_paid i.amount && ltb i.due_date as_of

-- The rows that the transition to 'overdue' takes.
abbrev pub falls_overdue : ℕ → ℕ → Invoice → Bool
falls_overdue account as_of i =
    of_account account i && may_fall_overdue i.status && past_due as_of i

abbrev pub set_overdue : Invoice → Invoice
set_overdue i = record i { status = overdue }

unfoldable pub mark_overdue : ℕ → ℕ → List Invoice → List Invoice
mark_overdue account as_of = update_where (falls_overdue account as_of) set_overdue

-- COALESCE(SUM(CASE WHEN p THEN v ELSE 0 END), 0)
unfoldable pub sum_where : (Invoice → Bool) → (Invoice → ℤ) → List Invoice → ℤ
sum_where p v [] = pos 0
sum_where p v (i ∷ is) = if p i then v i +ℤ sum_where p v is else sum_where p v is

abbrev pub min_option : ℕ → Option ℕ → ℕ
min_option d none = d
min_option d (some e) = if ltb d e then d else e

-- MIN(CASE WHEN p THEN due_date END)
unfoldable pub min_due : (Invoice → Bool) → List Invoice → Option ℕ
min_due p [] = none
min_due p (i ∷ is) = if p i then some (min_option i.due_date (min_due p is)) else min_due p is

abbrev pub unpaid : Invoice → ℤ
unpaid i = i.amount -ℤ i.amount_paid

-- An invoice of the account that is raised, unpaid and past due.
abbrev pub in_arrears : ℕ → ℕ → Invoice → Bool
in_arrears account as_of i = of_account account i && is_raised i.status && past_due as_of i

-- `agg.days_overdue`, 0 where it is null.
abbrev pub days_since : ℕ → Option ℕ → ℕ
days_since as_of none = 0
days_since as_of (some d) = as_of - d

unfoldable pub days_in_arrears : ℕ → ℕ → List Invoice → ℕ
unfolding min_due
days_in_arrears account as_of is = days_since as_of (min_due (in_arrears account as_of) is)

-- The aggregate query and the numbers read from it.
unfoldable pub position_of : ℕ → ℕ → List Invoice → AccountPosition
unfolding sum_where min_due days_in_arrears
position_of account as_of is = record {
  balance = sum_where (λ i. of_account account i && is_raised i.status) unpaid is;
  total_paid = sum_where (of_account account) (λ i. i.amount_paid) is;
  arrears_outstanding = sum_where (in_arrears account as_of) unpaid is;
  days_overdue = days_in_arrears account as_of is;
  risk_category = arrears_bucket (pos (days_in_arrears account as_of is));
  next_due =
      min_due (λ i. of_account account i && is_live i.status && ltb_ℤ i.amount_paid i.amount) is;
}

-- The two writes: the balance of the account, and a snapshot.
abbrev pub set_balance : ℕ → ℤ → Fin → Fin
set_balance account balance f = record f {
  accounts =
      update_where (λ a. a.account_id == account) (λ a. record a { balance = balance }) f.accounts;
}

abbrev pub add_snapshot : ℕ → AccountPosition → Fin → Fin
add_snapshot account p f = record f {
  arrears =
      record {
        account_id = account;
        total_outstanding = p.arrears_outstanding;
        days_overdue = p.days_overdue;
        risk_category = p.risk_category;
      }
      ∷ f.arrears;
}

unfoldable pub recompute_tx : ℕ → ℕ → Tx Fin AccountPosition
unfolding mark_overdue
recompute_tx account as_of = do
  known ← query (has_account account)
  throw_if (not known) not_found
  modify (λ f. record f { invoices = mark_overdue account as_of f.invoices })
  position ← query (λ f. position_of account as_of f.invoices)
  modify (set_balance account position.balance)
  modify (add_snapshot account position)
  pure position

-- `recomputeAccount(accountId, actor, asOf)`
unfoldable pub recompute_account : ℕ → ℕ → Action Fin AccountPosition
unfolding recompute_tx
recompute_account account as_of = with_actor (recompute_tx account as_of)
