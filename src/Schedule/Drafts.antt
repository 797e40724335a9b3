-- ===== src/Schedule/Drafts.antt =====
-- The rows that the loop of a schedule of src/modules/financial/financial.service.ts inserts.
use infraco_os.Common.{
  ℕ, suc, ◌+◌, ◌*◌, Bool, true, false, not, ◌≡◌, refl, sym, ap, ◌∙◌, subst, arith, List, [], ◌∷◌,
  ◌++◌, All, length, exists, if◌then◌else◌,
}
use infraco_os.Common.Int.{ℤ, pos, ◌+ℤ◌, ltb_ℤ, int_laws, +ℤ_assoc, zero_+ℤ}
use infraco_os.Common.Result.{ok, err, ok-inj}
use infraco_os.Database.Enums.{
  check_violation, unique_violation, foreign_key_violation, CurrencyCode,
}
use infraco_os.Database.Transaction.{TxState, begin, ◌>>=◌, pure}
use infraco_os.Database.Transaction.Laws.{>>=-eq-ok, statement-eq-ok}
use infraco_os.Instalment.Amounts.{total}
use infraco_os.Ledger.{has_account}
use infraco_os.Ledger.Tables.{Invoice}
use infraco_os.Office.{Reference, Office}
use infraco_os.Lease.Billing.{uses_reference, add_invoice}
use infraco_os.Lease.Billing.Same.{total_billed}
use infraco_os.Schedule.{
  Frequency, monthly, quarterly, GenerateSchedule, Computed, months_of, due_day,
}
use infraco_os.Schedule.Days.{IsMonthsLater, due_day-IsMonthsLater}
use infraco_os.Schedule.Generate.{
  draft_row, store_draft, insert_draft, draft_reference, insert_drafts,
}
use infraco_os.Schedule.Dates.{IsDraft, IsNumbered, IsDated, KeepsAccounts, Dates, months_until}

total_billed-append :
    (is js : List Invoice) → total_billed (is ++ js) ≡ total_billed is +ℤ total_billed js
unfolding total_billed
total_billed-append [] js = sym (zero_+ℤ (total_billed js))
total_billed-append (i ∷ is) js =
    ap (λ n. i.amount +ℤ n) (total_billed-append is js)
    ∙ sym (+ℤ_assoc i.amount (total_billed is) (total_billed js))

All-append : (P : Invoice → Type 0) (is js : List Invoice) → All P is → All P js → All P (is ++ js)
All-append P [] js h k = k
All-append P (i ∷ is) js (h, hs) k = (h, All-append P is js hs k)

length_snoc : (is : List Invoice) (i : Invoice) → length (is ++ i ∷ []) ≡ suc (length is)
length_snoc [] i = refl
length_snoc (x ∷ is) i = ap suc (length_snoc is i)

append_snoc : (is js : List Invoice) (i : Invoice) → (is ++ i ∷ []) ++ js ≡ is ++ i ∷ js
append_snoc [] js i = refl
append_snoc (x ∷ is) js i = ap (λ l. x ∷ l) (append_snoc is js i)

insert_draft_lem :
    (account reference : ℕ) (amount : ℤ) (currency : CurrencyCode) (due : ℕ) (o : Office) {id : ℕ}
    {u : TxState Office}
    → insert_draft account reference amount currency due (begin o) ≡ (ok id, u)
    → (i : Invoice) × IsDraft account i
      × (i.amount ≡ amount)
      × ((i.reference ≡ reference) × (i.due_date ≡ due))
      × (exists (uses_reference reference) o.fin.invoices ≡ false)
      × (u ≡ begin (add_invoice i o))
unfolding insert_draft
insert_draft_lem account reference amount currency due o {id} h =
    let (o', ran, at) = statement-eq-ok (store_draft account reference amount currency due) o h in
    let (positive, free, here) =
      passed (ltb_ℤ amount (pos 0)) (exists (uses_reference reference) o.fin.invoices)
        (not (has_account account o.fin)) {v = (o.next_invoice_id, add_invoice row o)} ran in
    (
      row,
      record { its_account = refl; its_type = refl; its_status = refl; its_amount = positive },
      refl,
      (refl, refl),
      free,
      at ∙ ap begin (ap (λ r. r.1) (sym here)),
    )
  where
    row : Invoice
    row = draft_row account reference amount currency due o

    passed :
        (a b c : Bool) {v w : ℕ × Office}
        → (if a
            then err check_violation
            else if b
            then err unique_violation
            else if c
            then err foreign_key_violation
            else ok v)
          ≡ ok w
        → (a ≡ false) × (b ≡ false) × (v ≡ w)
    passed true b c k = absurd (ground arith)
    passed false true c k = absurd (ground arith)
    passed false false true k = absurd (ground arith)
    passed false false false k = (refl, refl, ok-inj k)

IsDated-snoc :
    (code : Reference → ℕ) (account : ℕ) (p : GenerateSchedule) (i : ℕ) (rows : List Invoice)
    (row : Invoice)
    → IsDated code account p (suc i) rows
    → IsNumbered code account p (i + 1) row
    → IsDated code account p i (rows ++ row ∷ [])
IsDated-snoc code account p i [] row h numbered =
    let first : i + 1 ≡ i + 0 + 1 = omega arith in
    (subst (λ k. IsNumbered code account p k row) first numbered, tt)
IsDated-snoc code account p i (r ∷ rs) row (its, h) numbered =
    let longer = length_snoc rs row in
    let same : suc i + length rs + 1 ≡ i + length (rs ++ row ∷ []) + 1 = omega (arith, longer) in
    (
      subst (λ k. IsNumbered code account p k r) same its,
      IsDated-snoc code account p i rs row h numbered,
    )

months_until-step : (f : Frequency) (k : ℕ) → months_of f * k ≡ months_until f k
months_until-step monthly k = omega arith
months_until-step quarterly k = refl

-- The due date that the loop computes at `i` is that of the instalment `i + 1`.
draft-IsNumbered :
    (code : Reference → ℕ) (account : ℕ) (p : GenerateSchedule) (months i : ℕ) (row : Invoice)
    → months ≡ months_of p.frequency
    → row.reference ≡ draft_reference code account i
    → row.due_date ≡ due_day p.start_date (months * (i + 1))
    → IsNumbered code account p (i + 1) row
draft-IsNumbered code account p months i row step reference due = record {
  its_reference = reference;
  its_due_date =
      let at = ap (λ m. m * (i + 1)) step ∙ months_until-step p.frequency (i + 1) in
      subst (IsMonthsLater p.start_date (months_until p.frequency (i + 1)))
        (ap (due_day p.start_date) (sym at) ∙ sym due)
        (due_day-IsMonthsLater p.start_date (months_until p.frequency (i + 1)));
}

Dates-cons :
    (code : Reference → ℕ) (account : ℕ) (p : GenerateSchedule) (i : ℕ) {n : ℕ} (amount : ℤ)
    (amounts : List ℤ) (o t : Office) (row : Invoice)
    → IsDraft account row
    → row.amount ≡ amount
    → IsNumbered code account p (i + 1) row
    → Dates code account p (suc i) (total amounts) n (add_invoice row o) t
    → Dates code account p i (amount +ℤ total amounts) (suc n) o t
unfolding total_billed
Dates-cons code account p i amount amounts o t row drafted its numbered (rest, (dated, kept)) = (
  record {
    rows = rest.rows ++ row ∷ [];
    table = rest.table ∙ sym (append_snoc rest.rows o.fin.invoices row);
    drafts = All-append (IsDraft account) rest.rows (row ∷ []) rest.drafts (drafted, tt);
    amounts = total_billed-append rest.rows (row ∷ []) ∙ rw (its, rest.amounts) (omega int_laws);
    count = length_snoc rest.rows row ∙ ap suc rest.count;
    customers = rest.customers;
  },
  (
    IsDated-snoc code account p i rest.rows row dated numbered,
    record {
      account_rows = kept.account_rows;
      accounts = kept.accounts;
      next_account_id = kept.next_account_id;
    },
  ),
)

pub Dates-from :
    (code : Reference → ℕ) (account : ℕ) (p : GenerateSchedule) (i : ℕ) {n : ℕ} {amount amount' : ℤ}
    {o o' t : Office}
    → amount ≡ amount'
    → o ≡ o'
    → Dates code account p i amount n o t
    → Dates code account p i amount' n o' t
Dates-from code account p i {t = t} sum before (adds, (dated, kept)) = (
  record {
    rows = adds.rows;
    table = adds.table ∙ ap (λ x. adds.rows ++ x.fin.invoices) before;
    drafts = adds.drafts;
    amounts = adds.amounts ∙ sum;
    count = adds.count;
    customers = adds.customers ∙ ap (λ x. x.customers) before;
  },
  (dated, subst (λ x. KeepsAccounts x t) before kept),
)

module _ (code : Reference → ℕ) (account : ℕ) (p : GenerateSchedule) (c : Computed)
    (step : c.months_per_step ≡ months_of p.frequency) where
  pub insert_drafts-Dates :
      (i : ℕ) (amounts : List ℤ) (o : Office) {ids : List ℕ} {u : TxState Office}
      → insert_drafts code account p c i amounts (begin o) ≡ (ok ids, u)
      → (t : Office) × (u ≡ begin t) × Dates code account p i (total amounts) (length amounts) o t
  unfolding insert_drafts total_billed
  insert_drafts-Dates i [] o h = (
    o,
    ap (λ r. r.1) (sym h),
    (
      record {
        rows = [];
        table = refl;
        drafts = tt;
        amounts = refl;
        count = refl;
        customers = refl;
      },
      (tt, record { account_rows = refl; accounts = refl; next_account_id = refl }),
    ),
  )
  insert_drafts-Dates i (amount ∷ amounts) o h =
      let (id, v, this, after) =
        >>=-eq-ok
          (insert_draft account (draft_reference code account i) amount c.currency
            (due_day p.start_date (c.months_per_step * (i + 1))))
          (λ id. insert_drafts code account p c (suc i) amounts >>= λ ids. pure (id ∷ ids))
          (begin o) h in
      let (row, drafted, its, (reference, due), free, at) =
        insert_draft_lem account (draft_reference code account i) amount c.currency
          (due_day p.start_date (c.months_per_step * (i + 1))) o this in
      let (ids, w, others, last) =
        >>=-eq-ok (insert_drafts code account p c (suc i) amounts) (λ ids. pure (id ∷ ids)) v
          after in
      let (t, at', rest) =
        insert_drafts-Dates (suc i) amounts (add_invoice row o)
          (subst (λ x. insert_drafts code account p c (suc i) amounts x ≡ (ok ids, w)) at others) in
      let numbered = draft-IsNumbered code account p c.months_per_step i row step reference due in
      (
        t,
        ap (λ r. r.1) (sym last) ∙ at',
        Dates-cons code account p i amount amounts o t row drafted its numbered rest,
      )
