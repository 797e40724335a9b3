-- ===== src/Ledger/Recompute.antt =====
-- What `recomputeAccount` reports and leaves behind.
use infraco_os.Common.{
  ℕ, ◌<◌, ◌≡◌, ◌↔◌, refl, subst, arith, Bool, true, false, ◌&&◌, none, some, List, [], ◌∷◌, ◌==◌,
  if◌then◌else◌, exists, update_where, Bool-cases, Option-cases, inl, inr, All,
}
use infraco_os.Common.Int.{ℤ, pos, ltb_ℤ}
use infraco_os.Common.Result.{ok}
use infraco_os.Database.Enums.{
  InvoiceStatus, overdue, draft, issued, partially_paid, paid, cancelled,
}
use infraco_os.Instalment.{current}
use infraco_os.Instalment.Bounds.{arrears_bucket_iff}
use infraco_os.Ledger.Tables.{Account, Invoice, Fin, AccountPosition}
use infraco_os.Ledger.{has_account}
use infraco_os.Ledger.Position.{
  is_raised, may_fall_overdue, is_live, of_account, falls_overdue, set_overdue, mark_overdue,
  sum_where, min_due, unpaid, in_arrears, days_in_arrears, position_of, set_balance, recompute_tx,
  recompute_account,
}

-- A test and a value that the update of a row keeps.
pub record Keeps (q : Invoice → Bool) (p : Invoice → Bool) (v : Invoice → ℤ) : Type 0 where
  pub test : (i : Invoice) → q i ≡ true → p (set_overdue i) ≡ p i
  pub value : (i : Invoice) → v (set_overdue i) ≡ v i

module _ (q p : Invoice → Bool) (v : Invoice → ℤ) (keeps : Keeps q p v) where
  pub sum_where-update :
      (is : List Invoice) → sum_where p v (update_where q set_overdue is) ≡ sum_where p v is
  unfolding sum_where
  sum_where-update [] = refl
  sum_where-update (i ∷ is) =
      let rest = sum_where-update is in
      let w = keeps.value i in
      elim (Bool-cases (q i)) [
        | inl c ↦ let t = keeps.test i c in ground arith
        | inr c ↦ ground arith
      ]

  min_due-update : (is : List Invoice) → min_due p (update_where q set_overdue is) ≡ min_due p is
  unfolding min_due
  min_due-update [] = refl
  min_due-update (i ∷ is) =
      let rest = min_due-update is in
      elim (Bool-cases (q i)) [
        | inl c ↦ let t = keeps.test i c in ground arith
        | inr c ↦ ground arith
      ]

module _ (account as_of : ℕ) where
  raised-kept : (i : Invoice) → falls_overdue account as_of i ≡ true → is_raised i.status ≡ true
  raised-kept i h = go i.status (ground arith)
    where
      go : (s : InvoiceStatus) → may_fall_overdue s ≡ true → is_raised s ≡ true
      go issued h = refl
      go partially_paid h = refl
      go overdue h = refl
      go draft h = absurd (ground arith)
      go paid h = absurd (ground arith)
      go cancelled h = absurd (ground arith)

  live-kept : (i : Invoice) → falls_overdue account as_of i ≡ true → is_live i.status ≡ true
  live-kept i h = go i.status (ground arith)
    where
      go : (s : InvoiceStatus) → may_fall_overdue s ≡ true → is_live s ≡ true
      go issued h = refl
      go partially_paid h = refl
      go overdue h = refl
      go draft h = absurd (ground arith)
      go paid h = absurd (ground arith)
      go cancelled h = absurd (ground arith)

  -- The transition of past-due invoices to 'overdue' changes no number of the position.
  pub position_of-mark_overdue :
      (is : List Invoice)
      → position_of account as_of (mark_overdue account as_of is) ≡ position_of account as_of is
  unfolding position_of mark_overdue days_in_arrears
  position_of-mark_overdue is =
      let q = falls_overdue account as_of in
      let balance =
        sum_where-update q (λ i. of_account account i && is_raised i.status) unpaid
          (record { test = λ i c. let r = raised-kept i c in ground arith; value = λ _. refl })
          is in
      let total =
        sum_where-update q (of_account account) (λ i. i.amount_paid)
          (record { test = λ _ _. refl; value = λ _. refl }) is in
      let arrears =
        sum_where-update q (in_arrears account as_of) unpaid
          (record { test = λ i c. let r = raised-kept i c in ground arith; value = λ _. refl })
          is in
      let days =
        min_due-update q (in_arrears account as_of) unpaid
          (record { test = λ i c. let r = raised-kept i c in ground arith; value = λ _. refl })
          is in
      let next =
        min_due-update q
          (λ i. of_account account i && is_live i.status && ltb_ℤ i.amount_paid i.amount) unpaid
          (record { test = λ i c. let r = live-kept i c in ground arith; value = λ _. refl }) is in
      ground arith

  -- The oldest due date in arrears is before the day, and there is none if no invoice is in arrears.
  min_due-in_arrears :
      (is : List Invoice) (d : ℕ) → min_due (in_arrears account as_of) is ≡ some d → d < as_of
  unfolding min_due
  min_due-in_arrears [] d h = absurd (ground arith)
  min_due-in_arrears (i ∷ is) d h = elim (Option-cases (min_due (in_arrears account as_of) is)) [
    | inl p ↦ ground arith
    | inr (e, p) ↦ let rest = min_due-in_arrears is e p in ground arith
  ]

  min_due-exists :
      (is : List Invoice)
      → (min_due (in_arrears account as_of) is ≡ none)
        ↔ (exists (in_arrears account as_of) is ≡ false)
  unfolding min_due
  min_due-exists [] = (λ _. refl, λ _. refl)
  min_due-exists (i ∷ is) =
      let (to, from) = min_due-exists is in
      elim (Bool-cases (in_arrears account as_of i)) [
        | inl c ↦ (λ h. absurd (ground arith), λ h. absurd (ground arith))
        | inr c ↦ (
          λ h. let r = to (ground arith) in ground arith,
          λ h. let r = from (ground arith) in ground arith,
        )
      ]

  -- The risk category of a position is 'current' exactly if the account has no invoice that is
  -- raised, not fully paid and due before the day.
  pub risk_current_iff :
      (is : List Invoice)
      → ((position_of account as_of is).risk_category ≡ current)
        ↔ (exists (in_arrears account as_of) is ≡ false)
  unfolding position_of days_in_arrears
  risk_current_iff is =
      let (to, from) = min_due-exists is in
      let (bucket_to, bucket_from) =
        arrears_bucket_iff current (pos (days_in_arrears account as_of is)) in
      elim (Option-cases (min_due (in_arrears account as_of) is)) [
        | inl p ↦ (λ h. to p, λ h. bucket_from (ground arith))
        | inr (d, p) ↦
            let before = min_due-in_arrears is d p in
            (
              λ h. let le = bucket_to h in absurd (ground arith),
              λ h. let r = from h in absurd (ground arith),
            )
      ]

  mark_overdue-none :
      (is : List Invoice)
      → All (λ i. falls_overdue account as_of i ≡ false) (mark_overdue account as_of is)
  unfolding mark_overdue
  mark_overdue-none [] = tt
  mark_overdue-none (i ∷ is) = (choose, mark_overdue-none is)
    where
      choose :
          falls_overdue account as_of (if falls_overdue account as_of i then set_overdue i else i)
          ≡ false
      choose = elim (Bool-cases (falls_overdue account as_of i)) [
        | inl c ↦ ground arith
        | inr c ↦ ground arith
      ]

  -- The tables before and after a recalculation, and the position that it reports.
  pub record IsRecomputed (f : Fin) (p : AccountPosition) (f' : Fin) : Type 0 where
    pub before : p ≡ position_of account as_of f.invoices
    pub after : p ≡ position_of account as_of f'.invoices
    pub none_left : All (λ i. falls_overdue account as_of i ≡ false) f'.invoices
    pub balance : f'.accounts ≡ (set_balance account p.balance f).accounts
    pub ledger : f'.ledger ≡ f.ledger
    pub books : f'.books ≡ f.books

  -- A recalculation that succeeds reports the position of the invoices as it found them, which is
  -- also that of the invoices it leaves, writes its balance to the account, leaves no invoice of the
  -- account that is due and still 'issued' or 'partially_paid', and touches neither the ledger nor
  -- the books.
  pub recompute_account_reports :
      (f : Fin) (p : AccountPosition) (f' : Fin)
      → recompute_account account as_of f ≡ (ok p, f')
      → IsRecomputed f p f'
  unfolding recompute_account recompute_tx
  recompute_account_reports f p f' h = elim (Bool-cases (has_account account f)) [
    | inr q ↦ absurd (ground arith)
    | inl q ↦
        let moved = position_of-mark_overdue f.invoices in
        let left : mark_overdue account as_of f.invoices ≡ f'.invoices = ground arith in
        record {
          before = ground arith;
          after = ground arith;
          none_left =
              subst (All (λ i. falls_overdue account as_of i ≡ false)) left
                (mark_overdue-none f.invoices);
          balance = ground arith;
          ledger = ground arith;
          books = ground arith;
        }
  ]

  has_account-set_balance :
      (balance : ℤ) (accounts : List Account)
      → exists
          (λ a. a.account_id == account)
          (update_where
            (λ a. a.account_id == account)
            (λ a. record a { balance = balance })
            accounts)
        ≡ exists (λ a. a.account_id == account) accounts
  has_account-set_balance balance [] = refl
  has_account-set_balance balance (a ∷ accounts) =
      let rest = has_account-set_balance balance accounts in ground arith

  recompute_account-known :
      (f : Fin) (p : AccountPosition) (f' : Fin)
      → recompute_account account as_of f ≡ (ok p, f')
      → has_account account f ≡ true
  unfolding recompute_account recompute_tx
  recompute_account-known f p f' h = ground arith

  recompute_account-ok :
      (f : Fin)
      → has_account account f ≡ true
      → (recompute_account account as_of f).0
        ≡ ok (position_of account as_of (mark_overdue account as_of f.invoices))
  unfolding recompute_account recompute_tx
  recompute_account-ok f known = ground arith

  -- A second recalculation for the same day reports the same position.
  pub recompute_account_twice :
      (f : Fin) (p : AccountPosition) (f' : Fin)
      → recompute_account account as_of f ≡ (ok p, f')
      → (recompute_account account as_of f').0 ≡ ok p
  recompute_account_twice f p f' h =
      let r = recompute_account_reports f p f' h in
      let known = recompute_account-known f p f' h in
      let kept = has_account-set_balance p.balance f.accounts in
      let accounts = r.balance in
      let still : has_account account f' ≡ true = ground arith in
      let again = recompute_account-ok f' still in
      let same = position_of-mark_overdue f'.invoices in let after = r.after in ground arith
