-- ===== src/Accounting/Reversal.antt =====
-- A reversal posts the counter-entry of a journal and marks the journal, once.
use mathlib.Core.Path.{subst₂}
use infraco_os.Common.{
  ℕ, ◌≡◌, refl, sym, subst, ◌∙◌, arith, Bool, true, false, Option, some, none, List, [], ◌∷◌, map,
  find?, update_where, ◌==◌, Option-cases, inl, inr, is_some, Bool-cases,
}
use infraco_os.Common.Result.{ok, err, Result-cases}
use infraco_os.Database.Enums.{bad_request}
use infraco_os.Database.Transaction.{begin}
use infraco_os.Database.Transaction.Laws.{Action-cases}
use infraco_os.Accounting.Tables.{Date, CoaAccount, JournalLine, Journal, Books}
use infraco_os.Accounting.{
  reverse_journal_tx, reverse_journal, mark_reversed, find_journal, with_journal, line_rows,
  find_code, reversal_of, swapped,
}
use infraco_os.Accounting.Valid.{open_period-journals}
use infraco_os.Accounting.Valid.Posting.{date_of, IsPosted, reverse_journal_tx-eq-ok}

-- A line with its two amounts exchanged; the account and the asset class stay.
abbrev pub swap_line : JournalLine → JournalLine
swap_line l = record l { debit = l.credit; credit = l.debit }

find_code-code :
    (code : ℕ) (coa : List CoaAccount) {c : CoaAccount}
    → find_code code coa ≡ some c
    → c.code ≡ code
find_code-code code [] h = absurd (ground arith)
find_code-code code (x ∷ xs) {c} h = ground (arith, find_code-code code xs {c = c})

line_rows-swapped :
    (coa : List CoaAccount) (ls : List JournalLine) {rows : List JournalLine}
    → line_rows coa (map swapped ls) ≡ ok rows
    → rows ≡ map swap_line ls
unfolding line_rows
line_rows-swapped coa [] h = ground arith
line_rows-swapped coa (l ∷ ls) h = elim (Option-cases (find_code l.code coa)) [
  | inl p ↦ absurd (ground arith)
  | inr (c, p) ↦ elim (Result-cases (line_rows coa (map swapped ls))) [
    | inr (_, q) ↦ absurd (ground arith)
    | inl (rows, q) ↦ ground (arith, line_rows-swapped coa ls q, find_code-code l.code coa {c = c})
  ]
]

abbrev marks : ℕ → Option Journal → Bool
marks new none = false
marks new (some j) = elim j.reversed_by [ none ↦ false | some k ↦ k == new ]

find_marked :
    (id new : ℕ) (js : List Journal)
    → is_some (find? (λ j. j.journal_id == id) js) ≡ true
    → marks new (
        find?
          (λ j. j.journal_id == id)
          (update_where (λ j. j.journal_id == id) (λ j. record j { reversed_by = some new }) js))
      ≡ true
find_marked id new [] h = h
find_marked id new (j ∷ js) h = ground (arith, find_marked id new js)

-- The journal that has just been inserted is found under its id, with its lines.
find_posted :
    (id : ℕ) (date : Date) (rows : List JournalLine) (b : Books)
    → (counter : Journal) × (find_journal b.next_id
          (mark_reversed id b.next_id (with_journal date rows b))
        ≡ some counter)
      × (counter.lines ≡ rows)
find_posted id date rows b = elim (Bool-cases (b.next_id == id)) [
  | inl same ↦ (
    record {
      journal_id = b.next_id;
      journal_date = date;
      lines = rows;
      reversed_by = some b.next_id;
    },
    ground arith,
    refl,
  )
  | inr differs ↦ (
    record { journal_id = b.next_id; journal_date = date; lines = rows; reversed_by = none },
    ground arith,
    refl,
  )
]

module _ (today : Date) (id : ℕ) (b b' : Books) (new : ℕ)
    (reversed : reverse_journal today id b ≡ (ok new, b')) where
  -- What the transaction left, with the books after the posting.
  abbrev Outcome : Type 0
  Outcome =
      (orig : Journal) × (posted : Books) × (b' ≡ mark_reversed id new posted)
      × (find_journal id b ≡ some orig)
      × IsPosted today (reversal_of orig) b new posted

  reverse_journal_outcome : Outcome
  unfolding reverse_journal
  reverse_journal_outcome = elim (Action-cases (reverse_journal_tx today id) (begin b)) [
    | inr (_, _, k) ↦ absurd (ground arith)
    | inl (n, t, k) ↦
        let (orig, posted, same, found, _, p) = reverse_journal_tx-eq-ok today id b k in
        let e : n ≡ new = ground arith in
        subst
          (λ m.
            (orig' : Journal) × (u : Books) × (b' ≡ mark_reversed id m u)
            × (find_journal id b ≡ some orig')
            × IsPosted today (reversal_of orig') b m u)
          e (orig, posted, ground arith, found, p)
  ]

  -- A reversal that succeeds leaves, under the id that it returns, a journal whose lines are those
  -- of the original in the same order, each with debit and credit exchanged.
  pub reverse_journal_swaps :
      (orig counter : Journal) × (find_journal id b ≡ some orig)
      × (find_journal new b' ≡ some counter)
      × (counter.lines ≡ map swap_line orig.lines)
  reverse_journal_swaps =
      let (orig, posted, same, found, p) = reverse_journal_outcome in
      let rows : p.rows ≡ map swap_line orig.lines =
        line_rows-swapped p.opened.coa orig.lines p.written in
      let (counter, at, lines) =
        find_posted id (date_of today (reversal_of orig)) p.rows p.opened in
      let n : p.opened.next_id ≡ new = ground arith in
      let e : with_journal (date_of today (reversal_of orig)) p.rows p.opened ≡ posted =
        ground arith in
      (orig, counter, found, at_new n e same at, lines ∙ rows)
    where
      at_new :
          {n : ℕ} {u posted : Books} {c : Journal}
          → n ≡ new
          → u ≡ posted
          → b' ≡ mark_reversed id new posted
          → find_journal n (mark_reversed id n u) ≡ some c
          → find_journal new b' ≡ some c
      at_new {n} {u} {posted} {c} p q r h =
          subst (λ k. find_journal new k ≡ some c) (sym r)
            (subst₂ (λ m v. find_journal m (mark_reversed id m v) ≡ some c) p q h)

  refuse_marked :
      (later : Date)
      → marks new (find_journal id b') ≡ true
      → reverse_journal later id b' ≡ (err bad_request, b')
  unfolding reverse_journal reverse_journal_tx
  refuse_marked later h = elim (Option-cases (find_journal id b')) [
    | inl p ↦ absurd (ground arith)
    | inr (j, p) ↦ ground arith
  ]

  -- Reversing the same journal again throws `bad_request` and changes nothing.
  pub reverse_journal_again : (later : Date) → reverse_journal later id b' ≡ (err bad_request, b')
  reverse_journal_again later = refuse_marked later (
      subst (λ u. marks new (find_journal id u) ≡ true) (sym same)
        (find_marked id new posted.journals there))
    where
      outcome : Outcome
      outcome = reverse_journal_outcome

      posted : Books
      posted = outcome.1

      same : b' ≡ mark_reversed id new posted
      same = outcome.2

      kept : outcome.4.opened.journals ≡ b.journals
      kept = open_period-journals _ _ b outcome.4.opens

      there : is_some (find_journal id posted) ≡ true
      there =
          let found : find_journal id outcome.4.opened ≡ some outcome.0 =
            subst (λ js. find? (λ j. j.journal_id == id) js ≡ some outcome.0) (sym kept)
              outcome.3 in
          let e : with_journal (date_of today (reversal_of outcome.0)) outcome.4.rows
                outcome.4.opened
              ≡ posted =
            ground (arith, outcome.4.inserted) in
          subst (λ u. is_some (find_journal id u) ≡ true) e (ground arith)
