-- ===== src/Accounting/Valid/Lines.antt =====
-- The totals of a list of lines, and what the tests of `postJournalTx` establish about them.
use infraco_os.Common.{
  ◌≤◌, ◌≡◌, ◌⊎◌, inl, inr, arith, false, List, [], ◌∷◌, All, length, Option-cases, ◌||◌,
}
use infraco_os.Common.Int.{
  ℤ, pos, ◌+ℤ◌, ◌<ℤ◌, -ℤ_parts, +ℤ_zero, zero_+ℤ, +ℤ_assoc, eq_of_parts, ltb_ℤ,
}
use infraco_os.Common.Result.{ok, Result-cases}
use infraco_os.Accounting.Tables.{CoaAccount, JournalLine, JournalLineInput}
use infraco_os.Accounting.{
  amount_or_zero, check_lines, same_test, check_entry, line_rows, find_code, out_of_balance,
}

abbrev pub sum_debit : List JournalLine → ℤ
sum_debit [] = pos 0
sum_debit (l ∷ ls) = l.debit +ℤ sum_debit ls

abbrev pub sum_credit : List JournalLine → ℤ
sum_credit [] = pos 0
sum_credit (l ∷ ls) = l.credit +ℤ sum_credit ls

-- Exactly one of the two amounts of a line is positive and the other is 0.
abbrev pub IsOneSided : JournalLine → Type 0
IsOneSided l = ((pos 0 <ℤ l.debit) × (l.credit ≡ pos 0)) ⊎ ((l.debit ≡ pos 0) × (pos 0 <ℤ l.credit))

abbrev pub input_debit : List JournalLineInput → ℤ
input_debit [] = pos 0
input_debit (l ∷ ls) = amount_or_zero l.debit +ℤ input_debit ls

abbrev pub input_credit : List JournalLineInput → ℤ
input_credit [] = pos 0
input_credit (l ∷ ls) = amount_or_zero l.credit +ℤ input_credit ls

abbrev pub InputIsOneSided : JournalLineInput → Type 0
InputIsOneSided l =
    ((pos 0 <ℤ amount_or_zero l.debit) × (amount_or_zero l.credit ≡ pos 0))
    ⊎ ((amount_or_zero l.debit ≡ pos 0) × (pos 0 <ℤ amount_or_zero l.credit))

one_sided_of_tests :
    (d c : ℤ)
    → (ltb_ℤ d (pos 0) || ltb_ℤ c (pos 0)) ≡ false
    → same_test (ltb_ℤ (pos 0) d) (ltb_ℤ (pos 0) c) ≡ false
    → ((pos 0 <ℤ d) × (c ≡ pos 0)) ⊎ ((d ≡ pos 0) × (pos 0 <ℤ c))
one_sided_of_tests d c p q = ground arith

pub check_lines_sound :
    (ls : List JournalLineInput) (d c : ℤ) {d' c' : ℤ}
    → check_lines ls d c ≡ ok (d', c')
    → All InputIsOneSided ls × (d' ≡ d +ℤ input_debit ls) × (c' ≡ c +ℤ input_credit ls)
unfolding check_lines
check_lines_sound [] d c h = ground (arith, +ℤ_zero d, +ℤ_zero c)
check_lines_sound (l ∷ ls) d c {d'} {c'} h = ground (
  arith,
  +ℤ_assoc d (amount_or_zero l.debit) (input_debit ls),
  +ℤ_assoc c (amount_or_zero l.credit) (input_credit ls),
  one_sided_of_tests (amount_or_zero l.debit) (amount_or_zero l.credit),
  check_lines_sound ls (d +ℤ amount_or_zero l.debit) (c +ℤ amount_or_zero l.credit) {d' = d'}
      {c' = c'},
)

eq_of_balance : (d c : ℤ) → out_of_balance d c ≡ false → d ≡ c
eq_of_balance d c h = eq_of_parts d c (ground (arith, -ℤ_parts d c))

pub check_entry_sound :
    (ls : List JournalLineInput)
    → check_entry ls ≡ ok tt
    → (2 ≤ length ls) × All InputIsOneSided ls × (input_debit ls ≡ input_credit ls)
unfolding check_entry
check_entry_sound ls h = elim (Result-cases (check_lines ls (pos 0) (pos 0))) [
  | inr (_, p) ↦ absurd (ground arith)
  | inl ((d, c), p) ↦ ground (
    arith,
    check_lines_sound ls (pos 0) (pos 0) p,
    eq_of_balance d c,
    zero_+ℤ (input_debit ls),
    zero_+ℤ (input_credit ls),
  )
]

-- The rows that are written carry the amounts that were tested.
pub line_rows_sound :
    (coa : List CoaAccount) (ls : List JournalLineInput) {rows : List JournalLine}
    → line_rows coa ls ≡ ok rows
    → All InputIsOneSided ls
    → (length rows ≡ length ls)
      × (sum_debit rows ≡ input_debit ls)
      × (sum_credit rows ≡ input_credit ls)
      × All IsOneSided rows
unfolding line_rows
line_rows_sound coa [] h k = ground arith
line_rows_sound coa (l ∷ ls) h k = elim (Option-cases (find_code l.code coa)) [
  | inl p ↦ absurd (ground arith)
  | inr (c, p) ↦ elim (Result-cases (line_rows coa ls)) [
    | inr (_, q) ↦ absurd (ground arith)
    | inl (rows, q) ↦ ground (arith, line_rows_sound coa ls q)
  ]
]
