-- ===== src/Accounting/Valid/Posting.antt =====
-- What a call of `postJournalTx` that succeeds has done.
use infraco_os.Common.{
  ℕ, ◌≡◌, inl, inr, Option-cases, arith, true, none, some, List, [], map, or_else, subst,
}
use infraco_os.Common.Result.{ok, Result-cases}
use infraco_os.Database.Transaction.{TxState, begin}
use infraco_os.Database.Transaction.Laws.{Action-cases}
use infraco_os.Accounting.Tables.{
  Date, Period, JournalLine, Journal, Books, JournalEntry, status_is_open,
}
use infraco_os.Accounting.{
  check_entry, open_period, find_period, check_codes, distinct, line_rows, insert_journal,
  with_journal, post_journal_tx, reverse_journal_tx, find_journal, mark_reversed, reversal_of,
}

abbrev pub date_of : Date → JournalEntry → Date
date_of today entry = or_else entry.journal_date today

-- The books after the period has been opened and the journal inserted.
pub record IsPosted (today : Date) (entry : JournalEntry) (b : Books) (id : ℕ) (b' : Books)
    : Type 0 where
  pub opened : Books
  pub period : Period
  pub rows : List JournalLine
  pub checked : check_entry entry.lines ≡ ok tt
  pub opens : open_period (date_of today entry).year (date_of today entry).month b ≡ ok (tt, opened)
  pub found :
      find_period (date_of today entry).year (date_of today entry).month opened ≡ some period
  pub status : status_is_open period.status ≡ true
  pub codes : check_codes opened.coa (distinct [] (map (λ l. l.code) entry.lines)) ≡ ok tt
  pub written : line_rows opened.coa entry.lines ≡ ok rows
  pub inserted : insert_journal (date_of today entry) rows opened ≡ ok (id, b')

pub post_journal_tx-eq-ok :
    (today : Date) (entry : JournalEntry) (b : Books) {id : ℕ} {t : TxState Books}
    → post_journal_tx today entry (begin b) ≡ (ok id, t)
    → (b' : Books) × (t ≡ begin b') × IsPosted today entry b id b'
unfolding post_journal_tx
post_journal_tx-eq-ok today entry b h = elim (Result-cases (open_period year month b)) [
  | inr (_, p) ↦ absurd (ground arith)
  | inl ((_, opened), p) ↦ elim (Option-cases (find_period year month opened)) [
    | inl q ↦ absurd (ground arith)
    | inr (period, q) ↦ elim (Result-cases (line_rows opened.coa entry.lines)) [
      | inr (_, r) ↦ absurd (ground arith)
      | inl (rows, r) ↦ (
        with_journal (date_of today entry) rows opened,
        ground arith,
        record {
          opened = opened;
          period = period;
          rows = rows;
          checked = ground arith;
          opens = p;
          found = q;
          status = ground arith;
          codes = ground arith;
          written = r;
          inserted = ground arith;
        },
      )
    ]
  ]
]
  where
    year : ℕ
    year = (date_of today entry).year

    month : ℕ
    month = (date_of today entry).month

pub reverse_journal_tx-eq-ok :
    (today : Date) (id : ℕ) (b : Books) {new : ℕ} {t : TxState Books}
    → reverse_journal_tx today id (begin b) ≡ (ok new, t)
    → (orig : Journal) × (b' : Books) × (t ≡ begin (mark_reversed id new b'))
      × (find_journal id b ≡ some orig)
      × (orig.reversed_by ≡ none)
      × IsPosted today (reversal_of orig) b new b'
unfolding reverse_journal_tx
reverse_journal_tx-eq-ok today id b {new} h = elim (Option-cases (find_journal id b)) [
  | inl p ↦ absurd (ground arith)
  | inr (orig, p) ↦ elim (Action-cases (post_journal_tx today (reversal_of orig)) (begin b)) [
    | inr (_, _, q) ↦ absurd (ground arith)
    | inl (r, u, q) ↦
        let (b', same, posted) = post_journal_tx-eq-ok today (reversal_of orig) b q in
        let e : r ≡ new = ground arith in
        (
          orig,
          b',
          ground arith,
          p,
          ground arith,
          subst (λ k. IsPosted today (reversal_of orig) b k b') e posted,
        )
  ]
]
