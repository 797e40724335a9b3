-- ===== src/Accounting/Balance.antt =====
-- When the balance sheet balances, and what the trial balance reads of its period.
use infraco_os.Common.{
  ℕ, ◌*◌, leb, ◌≡◌, refl, sym, ap, subst, ◌∙◌, arith, true, Option, none, some, List, [], ◌∷◌, ◌++◌,
  All, if◌then◌else◌, is_some, Bool-cases, Option-cases, inl, inr,
}
use infraco_os.Common.Int.{
  ℤ, pos, ◌+ℤ◌, ◌-ℤ◌, int_laws, -ℤ_parts, eq_of_parts, abs_ℕ, zero_+ℤ, +ℤ_assoc,
}
use infraco_os.Database.Enums.{
  AccountClass, asset, liability, equity, revenue, cogs, opex, capex, finance_cost,
}
use infraco_os.Accounting.Tables.{Date, CoaAccount, JournalLine, Journal, Books}
use infraco_os.Accounting.{find_code}
use infraco_os.Accounting.Reports.{
  DatedLine, date_lines, in_period, left_join, sum_code, trial_balance_rows, trial_balance, totals,
  ClassAmount, join_lines, join_journals, on_or_before, sum_class, sheet_of, add_to_sheet,
  balance_sheet, sheet_is_balanced, account_classes, empty_sheet,
}
use infraco_os.Accounting.Valid.{IsValid, IsJournal}
use infraco_os.Accounting.Valid.Lines.{sum_debit, sum_credit}

module _ (amount : JournalLine → ℤ) (code : ℕ) where
  sum_code-same :
      (d d' : Option Date) (ls : List JournalLine) (ds ds' : List DatedLine)
      → sum_code amount code ds ≡ sum_code amount code ds'
      → sum_code amount code (date_lines d ls ++ ds)
        ≡ sum_code amount code (date_lines d' ls ++ ds')
  sum_code-same d d' [] ds ds' h = h
  sum_code-same d d' (l ∷ ls) ds ds' h = let rest = sum_code-same d d' ls ds ds' h in ground arith

  sum_code-left_join :
      (y y' : ℕ) (m m' : Option ℕ) (js : List Journal)
      → sum_code amount code (left_join y m js) ≡ sum_code amount code (left_join y' m' js)
  unfolding left_join
  sum_code-left_join y y' m m' [] = refl
  sum_code-left_join y y' m m' (j ∷ js) =
      sum_code-same (if in_period y m j.journal_date then some j.journal_date else none)
        (if in_period y' m' j.journal_date then some j.journal_date else none) j.lines
        (left_join y m js) (left_join y' m' js) (sum_code-left_join y y' m m' js)

trial_balance_rows-same :
    (ds ds' : List DatedLine) (coa : List CoaAccount)
    → ((amount : JournalLine → ℤ) (code : ℕ) → sum_code amount code ds ≡ sum_code amount code ds')
    → trial_balance_rows ds coa ≡ trial_balance_rows ds' coa
unfolding trial_balance_rows
trial_balance_rows-same ds ds' [] h = refl
trial_balance_rows-same ds ds' (c ∷ cs) h =
    let rest = trial_balance_rows-same ds ds' cs h in
    let d = h (λ l. l.debit) c.code in let k = h (λ l. l.credit) c.code in ground arith

-- The trial balance of any period is that of any other: it sums the lines of every journal.
pub trial_balance_any_period :
    (year other_year : ℕ) (month other_month : Option ℕ) (b : Books)
    → trial_balance year month b ≡ trial_balance other_year other_month b
unfolding trial_balance
trial_balance_any_period y y' m m' b =
    let rows =
      trial_balance_rows-same (left_join y m b.journals) (left_join y' m' b.journals) b.coa
        (λ amount code. sum_code-left_join amount code y y' m m' b.journals) in
    ap totals rows

-- Every line of the books is on an account of the chart.
abbrev pub HasCode : List CoaAccount → JournalLine → Type 0
HasCode coa l = is_some (find_code l.code coa) ≡ true

abbrev pub HasCodes : Books → Type 0
HasCodes b = All (λ j. All (HasCode b.coa) j.lines) b.journals

abbrev net : List ClassAmount → ℤ
net [] = pos 0
net (r ∷ rs) = r.net_debit +ℤ net rs

net-append : (xs ys : List ClassAmount) → net (xs ++ ys) ≡ net xs +ℤ net ys
net-append [] ys = sym (zero_+ℤ (net ys))
net-append (x ∷ xs) ys =
    ap (λ n. x.net_debit +ℤ n) (net-append xs ys) ∙ sym (+ℤ_assoc x.net_debit (net xs) (net ys))

add_differences : (a b c d : ℤ) → a -ℤ b +ℤ (c -ℤ d) ≡ a +ℤ c -ℤ (b +ℤ d)
add_differences a b c d = omega int_laws

difference_zero : (a b : ℤ) → a ≡ b → a -ℤ b ≡ pos 0
difference_zero a b h = subst (λ u. a -ℤ u ≡ pos 0) h (omega int_laws)

net-join_lines :
    (coa : List CoaAccount) (ls : List JournalLine)
    → All (HasCode coa) ls
    → net (join_lines coa none ls) ≡ sum_debit ls -ℤ sum_credit ls
unfolding join_lines
net-join_lines coa [] h =
    eq_of_parts (pos 0) (pos 0 -ℤ pos 0) (omega (arith, -ℤ_parts (pos 0) (pos 0)))
net-join_lines coa (l ∷ ls) (h, hs) = elim (Option-cases (find_code l.code coa)) [
  | inl p ↦ absurd (ground arith)
  | inr (c, p) ↦
      let joined : join_lines coa none (l ∷ ls)
          ≡ record { account_class = c.account_class; net_debit = l.debit -ℤ l.credit }
            ∷ join_lines coa none ls =
        ground arith in
      ap net joined
      ∙ ap (λ n. l.debit -ℤ l.credit +ℤ n) (net-join_lines coa ls hs)
      ∙ add_differences l.debit l.credit (sum_debit ls) (sum_credit ls)
]

net-join_journals :
    (coa : List CoaAccount) (as_of : Date) (js : List Journal)
    → All IsJournal js
    → All (λ j. All (HasCode coa) j.lines) js
    → net (join_journals coa none as_of js) ≡ pos 0
unfolding join_journals
net-join_journals coa as_of [] v h = refl
net-join_journals coa as_of (j ∷ js) (v, vs) (h, hs) =
    let rest = net-join_journals coa as_of js vs hs in
    let own = net-join_lines coa j.lines h in
    let same = v.balanced in
    let app = net-append (join_lines coa none j.lines) (join_journals coa none as_of js) in
    elim (Bool-cases (on_or_before j.journal_date as_of)) [
      | inl p ↦
          let both : net (join_lines coa none j.lines) ≡ pos 0 =
            own ∙ difference_zero (sum_debit j.lines) (sum_credit j.lines) same in
          rw p (
            app
            ∙ ap (λ n. n +ℤ net (join_journals coa none as_of js)) both
            ∙ ap (λ n. pos 0 +ℤ n) rest
            ∙ zero_+ℤ (pos 0))
      | inr p ↦ rw p rest
    ]

-- The amounts of the eight classes, as the sheet adds them up.
abbrev total_of_classes : (a l e r g o c f : ℤ) → ℤ
total_of_classes a l e r g o c f = a +ℤ l +ℤ e +ℤ r +ℤ g +ℤ o +ℤ c +ℤ f

abbrev sum_classes : List ClassAmount → ℤ
sum_classes rows =
    total_of_classes (sum_class asset rows) (sum_class liability rows) (sum_class equity rows)
      (sum_class revenue rows) (sum_class cogs rows) (sum_class opex rows) (sum_class capex rows)
      (sum_class finance_cost rows)

module _ (x a l e r g o c f : ℤ) where
  add_1 : total_of_classes (x +ℤ a) l e r g o c f ≡ x +ℤ total_of_classes a l e r g o c f
  add_1 = omega int_laws

  add_2 : total_of_classes a (x +ℤ l) e r g o c f ≡ x +ℤ total_of_classes a l e r g o c f
  add_2 = omega int_laws

  add_3 : total_of_classes a l (x +ℤ e) r g o c f ≡ x +ℤ total_of_classes a l e r g o c f
  add_3 = omega int_laws

  add_4 : total_of_classes a l e (x +ℤ r) g o c f ≡ x +ℤ total_of_classes a l e r g o c f
  add_4 = omega int_laws

  add_5 : total_of_classes a l e r (x +ℤ g) o c f ≡ x +ℤ total_of_classes a l e r g o c f
  add_5 = omega int_laws

  add_6 : total_of_classes a l e r g (x +ℤ o) c f ≡ x +ℤ total_of_classes a l e r g o c f
  add_6 = omega int_laws

  add_7 : total_of_classes a l e r g o (x +ℤ c) f ≡ x +ℤ total_of_classes a l e r g o c f
  add_7 = omega int_laws

  add_8 : total_of_classes a l e r g o c (x +ℤ f) ≡ x +ℤ total_of_classes a l e r g o c f
  add_8 = omega int_laws

-- A row adds its amount to the sum of exactly one class.
sum_classes-add :
    (k : AccountClass) (x : ℤ) (rs : List ClassAmount)
    → sum_classes (record { account_class = k; net_debit = x } ∷ rs) ≡ x +ℤ sum_classes rs
sum_classes-add asset x rs = add_1 x _ _ _ _ _ _ _ _
sum_classes-add liability x rs = add_2 x _ _ _ _ _ _ _ _
sum_classes-add equity x rs = add_3 x _ _ _ _ _ _ _ _
sum_classes-add revenue x rs = add_4 x _ _ _ _ _ _ _ _
sum_classes-add cogs x rs = add_5 x _ _ _ _ _ _ _ _
sum_classes-add opex x rs = add_6 x _ _ _ _ _ _ _ _
sum_classes-add capex x rs = add_7 x _ _ _ _ _ _ _ _
sum_classes-add finance_cost x rs = add_8 x _ _ _ _ _ _ _ _

sum_classes-net : (rows : List ClassAmount) → sum_classes rows ≡ net rows
unfolding ◌+ℤ◌
sum_classes-net [] = refl
sum_classes-net (r ∷ rs) =
    sum_classes-add r.account_class r.net_debit rs ∙ ap (λ n. r.net_debit +ℤ n) (sum_classes-net rs)

sheet_difference :
    (a l e r g o c f : ℤ)
    → pos 0 +ℤ a +ℤ c -ℤ (pos 0 -ℤ l +ℤ (pos 0 -ℤ e) +ℤ (pos 0 -ℤ r -ℤ g -ℤ o -ℤ f))
      ≡ total_of_classes a l e r g o c f
sheet_difference a l e r g o c f = omega int_laws

-- Assets less the other three parts of the sheet are the total of the classes.
sheet_of-balanced :
    (rows : List ClassAmount)
    → sum_classes rows ≡ pos 0
    → sheet_is_balanced (sheet_of account_classes rows empty_sheet) ≡ true
unfolding sheet_of add_to_sheet
sheet_of-balanced rows h =
    subst (λ u. leb (2 * abs_ℕ u) 1 ≡ true)
      (sym (
        sheet_difference (sum_class asset rows) (sum_class liability rows) (sum_class equity rows)
          (sum_class revenue rows) (sum_class cogs rows) (sum_class opex rows)
          (sum_class capex rows) (sum_class finance_cost rows)
        ∙ h))
      refl

-- The balance sheet of all asset classes at any date balances, if every journal of the books balances
-- and every line is on an account of the chart.
pub balance_sheet_balances :
    (as_of : Date) (b : Books)
    → IsValid b
    → HasCodes b
    → sheet_is_balanced (balance_sheet as_of none b) ≡ true
unfolding balance_sheet
balance_sheet_balances as_of b v h =
    let rows = join_journals b.coa none as_of b.journals in
    sheet_of-balanced rows (sum_classes-net rows ∙ net-join_journals b.coa as_of b.journals v h)
