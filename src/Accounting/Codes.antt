-- ===== src/Accounting/Codes.antt =====
-- Every line of every journal stays on an account of the chart.
use mathlib.Core.Path.{subst₂}
use infraco_os.Common.{
  ℕ, ◌≡◌, sym, subst, arith, true, none, some, List, [], ◌∷◌, All, ◌==◌, is_some, or_else,
  Option-cases, Bool-cases, inl, inr, All-update_where, ==_refl,
}
use infraco_os.Common.Result.{ok, Result-cases}
use infraco_os.Database.Transaction.Laws.{with_actor_keeps}
use infraco_os.Accounting.Tables.{
  Date, CoaAccount, JournalLine, Journal, JournalLineInput, JournalEntry, Books,
}
use infraco_os.Accounting.{
  amount_or_zero, find_code, line_rows, open_period, with_journal, reversal_of, post_journal_tx,
  post_journal, reverse_journal_tx, reverse_journal, close_period, Call, posts, reverses, closes,
  step, run,
}
use infraco_os.Accounting.Valid.{IsValid, open_period-journals, close_period-journals}
use infraco_os.Accounting.Valid.Posting.{
  date_of, IsPosted, post_journal_tx-eq-ok, reverse_journal_tx-eq-ok,
}
use infraco_os.Accounting.History.{run-IsValid}
use infraco_os.Accounting.Reports.{balance_sheet, sheet_is_balanced}
use infraco_os.Accounting.Balance.{HasCode, HasCodes, balance_sheet_balances}

find_code-its_code :
    (code : ℕ) (coa : List CoaAccount) {c : CoaAccount}
    → find_code code coa ≡ some c
    → is_some (find_code c.code coa) ≡ true
find_code-its_code code [] h = absurd (ground arith)
find_code-its_code code (x ∷ xs) {c} h =
    let rest = find_code-its_code code xs {c = c} in
    elim (Bool-cases (x.code == code)) [
      | inl p ↦ let same = ==_refl x.code in ground arith
      | inr p ↦ ground arith
    ]

line_rows-HasCode :
    (coa : List CoaAccount) (ls : List JournalLineInput) {rows : List JournalLine}
    → line_rows coa ls ≡ ok rows
    → All (HasCode coa) rows
unfolding line_rows
line_rows-HasCode coa [] {rows} h =
    let e : [] ≡ rows = ground arith in subst (All (HasCode coa)) e tt
line_rows-HasCode coa (l ∷ ls) {rows} h = elim (Option-cases (find_code l.code coa)) [
  | inl p ↦ absurd (ground arith)
  | inr (c, p) ↦ elim (Result-cases (line_rows coa ls)) [
    | inr (_, q) ↦ absurd (ground arith)
    | inl (rest, q) ↦
        let row : JournalLine = record {
          code = c.code;
          asset_class = or_else l.asset_class c.asset_class;
          debit = amount_or_zero l.debit;
          credit = amount_or_zero l.credit;
        } in
        let e : row ∷ rest ≡ rows = ground arith in
        subst (All (HasCode coa)) e
          (find_code-its_code l.code coa {c = c} p, line_rows-HasCode coa ls q)
  ]
]

open_period-coa :
    (y m : ℕ) (b : Books) {b' : Books} → open_period y m b ≡ ok (tt, b') → b'.coa ≡ b.coa
unfolding open_period
open_period-coa y m b h = ground arith

close_period-coa : (y m : ℕ) (b : Books) → (close_period y m b).1.coa ≡ b.coa
unfolding close_period
close_period-coa y m b = ground arith

-- The property of the two tables that it reads.
abbrev OnChart : List CoaAccount → List Journal → Type 0
OnChart coa js = All (λ j. All (HasCode coa) j.lines) js

module _ (today : Date) where
  IsPosted-HasCodes :
      (entry : JournalEntry) (b : Books) (id : ℕ) (b' : Books)
      → IsPosted today entry b id b'
      → HasCodes b
      → HasCodes b'
  IsPosted-HasCodes entry b id b' p h =
      let journals = open_period-journals _ _ b p.opens in
      let coa = open_period-coa _ _ b p.opens in
      let inserted = p.inserted in
      let e : with_journal (date_of today entry) p.rows p.opened ≡ b' = ground arith in
      subst HasCodes e (
        line_rows-HasCode p.opened.coa entry.lines p.written,
        subst₂ OnChart (sym coa) (sym journals) h,
      )

  post_journal-HasCodes :
      (entry : JournalEntry) (b : Books) → HasCodes b → HasCodes (post_journal today entry b).1
  unfolding post_journal
  post_journal-HasCodes entry b h =
      with_actor_keeps HasCodes (post_journal_tx today entry) b h (λ id t k.
        let (b', same, p) = post_journal_tx-eq-ok today entry b k in
        subst (λ u. HasCodes u.db) (sym same) (IsPosted-HasCodes entry b id b' p h))

  reverse_journal-HasCodes :
      (id : ℕ) (b : Books) → HasCodes b → HasCodes (reverse_journal today id b).1
  unfolding reverse_journal
  reverse_journal-HasCodes id b h =
      with_actor_keeps HasCodes (reverse_journal_tx today id) b h (λ new t k.
        let (orig, b', same, _, _, p) = reverse_journal_tx-eq-ok today id b k in
        subst (λ u. HasCodes u.db) (sym same)
          (All-update_where (λ j. All (HasCode b'.coa) j.lines) (λ j. j.journal_id == id)
            (λ j. record j { reversed_by = some new }) b'.journals (λ _ x. x)
            (IsPosted-HasCodes (reversal_of orig) b new b' p h)))

step-HasCodes : (c : Call) (b : Books) → HasCodes b → HasCodes (step c b)
unfolding step
step-HasCodes (posts today entry) b h = post_journal-HasCodes today entry b h
step-HasCodes (reverses today id) b h = reverse_journal-HasCodes today id b h
step-HasCodes (closes y m) b h =
    subst₂ OnChart (sym (close_period-coa y m b)) (sym (close_period-journals y m b)) h

run-HasCodes : (cs : List Call) (b : Books) → HasCodes b → HasCodes (run cs b)
unfolding run
run-HasCodes [] b h = h
run-HasCodes (c ∷ cs) b h = run-HasCodes cs (step c b) (step-HasCodes c b h)

-- After any sequence of postings, reversals and closes, the balance sheet of all asset classes at any
-- date balances, if before them every journal balanced and every line was on an account of the chart.
pub balance_sheet-run :
    (as_of : Date) (cs : List Call) (b : Books)
    → IsValid b
    → HasCodes b
    → sheet_is_balanced (balance_sheet as_of none (run cs b)) ≡ true
balance_sheet-run as_of cs b v h =
    balance_sheet_balances as_of (run cs b) (run-IsValid cs b v) (run-HasCodes cs b h)
