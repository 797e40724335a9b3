-- ===== src/Schedule/Totals.antt =====
-- What a schedule of src/modules/financial/financial.service.ts adds to the invoices.
use infraco_os.Common.{
  ℕ, Bool, true, false, not, ◌≡◌, sym, ap, ◌∙◌, subst, arith, List, ◌∷◌, ◌++◌, length,
  if◌then◌else◌,
}
use infraco_os.Common.Int.{pos, ◌-ℤ◌, leb_ℤ}
use infraco_os.Common.Result.{ok, err, ok-inj}
use infraco_os.Database.Enums.{check_violation, foreign_key_violation}
use infraco_os.Database.Transaction.{Tx, TxState, begin, ◌>>=◌, pure, lift, with_actor}
use infraco_os.Database.Transaction.Laws.{
  >>=-eq-ok, statement-eq-ok, lift-eq-ok, with_actor-eq-ok, zoom-eq-ok,
}
use infraco_os.Instalment.Amounts.{total}
use infraco_os.Ledger.{has_account}
use infraco_os.Ledger.Tables.{Invoice}
use infraco_os.Office.{Reference, Office}
use infraco_os.Schedule.{GenerateSchedule, Desk, Computed, months_of, compute_schedule}
use infraco_os.Schedule.Dates.{Adds, IsDated, Dates}
use infraco_os.Schedule.Drafts.{Dates-from, insert_drafts-Dates}
use infraco_os.Schedule.Amounts.{schedule_amounts}
use infraco_os.Schedule.Generate.{
  new_plan, store_plan, insert_plan, insert_drafts, on_office, Schedule, insert_schedule,
  generate_schedule_tx, generate_schedule,
}

plan_lem :
    (account : ℕ) (p : GenerateSchedule) (c : Computed) (d : Desk) {u : TxState Desk}
    → insert_plan account p c (begin d) ≡ (ok tt, u)
    → (e : Desk) × (u ≡ begin e) × (e.office ≡ d.office)
unfolding insert_plan
plan_lem account p c d h =
    let (e, ran, at) = statement-eq-ok (store_plan account p c) d h in
    (e, at, passed (leb_ℤ p.num_instalments (pos 0)) (not (has_account account d.office.fin)) ran)
  where
    planned : Unit {0} × Desk
    planned = (tt, record d { plans = new_plan account p c ∷ d.plans })

    passed :
        (a b : Bool) {e : Desk}
        → (if a then err check_violation else if b then err foreign_key_violation else ok planned)
          ≡ ok (tt, e)
        → e.office ≡ d.office
    passed true b k = absurd (ground arith)
    passed false true k = absurd (ground arith)
    passed false false k = ap (λ r. r.1.office) (sym (ok-inj k))

-- A schedule that was inserted: new draft instalments of the account that add up to the price less
-- the deposit, as many as were asked for.
abbrev pub IsScheduled : ℕ → GenerateSchedule → Office → Office → Type 0
IsScheduled account p o t =
    (n : ℕ) × (pos n ≡ p.num_instalments) × Adds account (p.total_price -ℤ p.deposit) n o t

-- A schedule that was inserted, with its rows numbered and dated, and no new account.
pub record IsInserted (code : Reference → ℕ) (account : ℕ) (p : GenerateSchedule) (o t : Office)
    : Type 0 where
  pub instalments : ℕ
  pub asked : pos instalments ≡ p.num_instalments
  pub dates : Dates code account p 0 (p.total_price -ℤ p.deposit) instalments o t

pub generate_schedule_tx-IsInserted :
    (code : Reference → ℕ) (account : ℕ) (p : GenerateSchedule) (d : Desk) {s : Schedule}
    {u : TxState Desk}
    → generate_schedule_tx code account p (begin d) ≡ (ok s, u)
    → (e : Desk) × (u ≡ begin e) × IsInserted code account p d.office e.office
unfolding generate_schedule_tx insert_schedule
generate_schedule_tx-IsInserted code account p d {s} {u} h =
    let (c, v, computed, after) =
      >>=-eq-ok (lift (compute_schedule p)) (λ c. insert_schedule code account p c) (begin d) h in
    let (is_c, at) = lift-eq-ok (compute_schedule p) (begin d) computed in
    let (sum, count, step) = schedule_amounts p is_c in
    inserted c sum count step (subst (λ x. insert_schedule code account p c x ≡ (ok s, u)) at after)
  where
    finish : Computed → List ℕ → Tx Desk Schedule
    finish c ids = pure (record { invoice_ids = ids; amounts = c.amounts; currency = c.currency })

    inserted :
        (c : Computed)
        → total c.amounts ≡ p.total_price -ℤ p.deposit
        → pos (length c.amounts) ≡ p.num_instalments
        → c.months_per_step ≡ months_of p.frequency
        → insert_schedule code account p c (begin d) ≡ (ok s, u)
        → (e : Desk) × (u ≡ begin e) × IsInserted code account p d.office e.office
    inserted c sum count step k =
        let (x, v, planned, after) =
          >>=-eq-ok (insert_plan account p c)
            (λ _. on_office (insert_drafts code account p c 0 c.amounts) >>= finish c) (begin d)
            k in
        let (e, at, office) = plan_lem account p c d planned in
        let (ids, w, drafts, last) =
          >>=-eq-ok (on_office (insert_drafts code account p c 0 c.amounts)) (finish c) v after in
        let (y, ran, at') =
          zoom-eq-ok (λ d. d.office) (λ o d. record d { office = o })
            (insert_drafts code account p c 0 c.amounts) e
            (subst (λ x. on_office (insert_drafts code account p c 0 c.amounts) x ≡ (ok ids, w)) at
              drafts) in
        let (o, at'', dates) = insert_drafts-Dates code account p c step 0 c.amounts e.office ran in
        (
          record e { office = o },
          ap (λ r. r.1) (sym last)
              ∙ (at'
                  ∙ ap (λ z. record { db = record e { office = z.db }; aborted = z.aborted }) at''),
          record {
            instalments = length c.amounts;
            asked = count;
            dates = Dates-from code account p 0 sum office dates;
          },
        )

generate_schedule-IsInserted :
    (code : Reference → ℕ) (account : ℕ) (p : GenerateSchedule) (d t : Desk) {s : Schedule}
    → generate_schedule code account p d ≡ (ok s, t)
    → IsInserted code account p d.office t.office
unfolding generate_schedule
generate_schedule-IsInserted code account p d t {s} h =
    let (c, v, checked, after) =
      >>=-eq-ok (lift (compute_schedule p)) (λ _. with_actor (generate_schedule_tx code account p))
        d h in
    let (is_c, at) = lift-eq-ok (compute_schedule p) d checked in
    let (u, ran, left) =
      with_actor-eq-ok (generate_schedule_tx code account p) d
        (subst (λ x. with_actor (generate_schedule_tx code account p) x ≡ (ok s, t)) at after) in
    let (e, at', inserted) = generate_schedule_tx-IsInserted code account p d ran in
    subst (λ x. IsInserted code account p d.office x.office)
      (sym (left ∙ ap (λ x. if x.aborted then d else x.db) at')) inserted

-- A schedule that is generated adds to the table of invoices only draft instalments of its account,
-- as many as were asked for, with no amount below 0; their sum is the price less the deposit.
pub generate_schedule_total :
    (code : Reference → ℕ) (account : ℕ) (p : GenerateSchedule) (d t : Desk) {s : Schedule}
    → generate_schedule code account p d ≡ (ok s, t)
    → IsScheduled account p d.office t.office
generate_schedule_total code account p d t h =
    let inserted = generate_schedule-IsInserted code account p d t h in
    (inserted.instalments, inserted.asked, inserted.dates.0)

-- A schedule that is generated puts new rows before the table of invoices, the last instalment first,
-- as many as were asked for. The instalment `k`, from 1, has the reference of its number and is due
-- `k` months, or where payments are quarterly `3 * k` months, after the start date: on the same day
-- of that month, or where the month is too short, as many days into the next month as are left
-- over. It is then 28 to 31 days a month after the start.
pub generate_schedule_dates :
    (code : Reference → ℕ) (account : ℕ) (p : GenerateSchedule) (d t : Desk) {s : Schedule}
    → generate_schedule code account p d ≡ (ok s, t)
    → (rows : List Invoice) × (t.office.fin.invoices ≡ rows ++ d.office.fin.invoices)
      × (pos (length rows) ≡ p.num_instalments)
      × IsDated code account p 0 rows
generate_schedule_dates code account p d t h =
    let inserted = generate_schedule-IsInserted code account p d t h in
    (
      inserted.dates.0.rows,
      inserted.dates.0.table,
      ap pos inserted.dates.0.count ∙ inserted.asked,
      inserted.dates.1.0,
    )
