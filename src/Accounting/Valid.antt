-- ===== src/Accounting/Valid.antt =====
-- What a posted journal satisfies, and that every operation of the accounting layer keeps it.
pub mod Lines
pub mod Posting
use infraco_os.Common.{
  ℕ, ◌≤◌, ◌≡◌, refl, sym, subst, ◌∙◌, arith, List, [], ◌∷◌, All, All-update_where, length, Option,
  some, none, map, ◌==◌, update_where, Bool, true, false, Option-cases, inl, inr, if◌then◌else◌,
}
use infraco_os.Common.Int.{ℤ, pos}
use infraco_os.Common.Result.{Result, ok, err, Result-cases}
use infraco_os.Database.Enums.{Error}
use infraco_os.Database.Transaction.{Tx, TxState, begin, with_actor}
use infraco_os.Database.Transaction.Laws.{with_actor_keeps, Action-cases}
use infraco_os.Accounting.Tables.{Date, Journal, JournalEntry, Books}
use infraco_os.Accounting.{
  post_journal_tx, post_journal, reverse_journal_tx, reverse_journal, close_period, open_period,
  mark_reversed, reversal_of, set_closed, find_journal, with_journal, swapped, find_period,
}
use Lines.{sum_debit, sum_credit, IsOneSided, check_entry_sound, line_rows_sound}
use Posting.{date_of, IsPosted, post_journal_tx-eq-ok, reverse_journal_tx-eq-ok}

-- A journal has two lines or more, each line is a debit or a credit, and the totals agree.
pub record IsJournal (j : Journal) : Type 0 where
  pub two_lines : 2 ≤ length j.lines
  pub one_sided : All IsOneSided j.lines
  pub balanced : sum_debit j.lines ≡ sum_credit j.lines

-- Every journal of the books is one.
abbrev pub IsValid : Books → Type 0
IsValid b = All IsJournal b.journals

pub open_period-journals :
    (y m : ℕ) (b : Books) {b' : Books} → open_period y m b ≡ ok (tt, b') → b'.journals ≡ b.journals
unfolding open_period
open_period-journals y m b h = ground arith

pub close_period-journals :
    (year month : ℕ) (b : Books) → (close_period year month b).1.journals ≡ b.journals
unfolding close_period
close_period-journals year month b = ground arith

module _ (today : Date) where
  pub IsPosted-IsValid :
      (entry : JournalEntry) (b : Books) (id : ℕ) (b' : Books)
      → IsPosted today entry b id b'
      → IsValid b
      → IsValid b'
  IsPosted-IsValid entry b id b' p v =
      let (two, sides, same) = check_entry_sound entry.lines p.checked in
      let (len, debits, credits, one_sided) =
        line_rows_sound p.opened.coa entry.lines p.written sides in
      let kept : p.opened.journals ≡ b.journals = open_period-journals _ _ b p.opens in
      let e : with_journal (date_of today entry) p.rows p.opened ≡ b' = ground arith in
      subst IsValid e (
        record {
          two_lines = omega arith;
          one_sided = one_sided;
          balanced = debits ∙ same ∙ sym credits;
        },
        subst (All IsJournal) (sym kept) v,
      )

  post_journal_tx-IsValid :
      (entry : JournalEntry) (b : Books) (id : ℕ) (t : TxState Books)
      → IsValid b
      → post_journal_tx today entry (begin b) ≡ (ok id, t)
      → IsValid t.db
  post_journal_tx-IsValid entry b id t v h =
      let (b', same, posted) = post_journal_tx-eq-ok today entry b h in
      subst (λ u. IsValid u.db) (sym same) (IsPosted-IsValid entry b id b' posted v)

  -- A posting that succeeds keeps every journal balanced, and one that throws changes nothing.
  pub post_journal-IsValid :
      (entry : JournalEntry) (b : Books) → IsValid b → IsValid (post_journal today entry b).1
  unfolding post_journal
  post_journal-IsValid entry b v =
      with_actor_keeps IsValid (post_journal_tx today entry) b v
        (λ id t h. post_journal_tx-IsValid entry b id t v h)

  -- Marking a journal as reversed changes no line.
  mark_reversed-IsValid : (id by : ℕ) (b : Books) → IsValid b → IsValid (mark_reversed id by b)
  mark_reversed-IsValid id by b v =
      All-update_where IsJournal (λ j. j.journal_id == id) (λ j. record j { reversed_by = some by })
        b.journals
        (λ j h. record { two_lines = h.two_lines; one_sided = h.one_sided; balanced = h.balanced })
        v

  reverse_journal_tx-IsValid :
      (id : ℕ) (b : Books) (new : ℕ) (t : TxState Books)
      → IsValid b
      → reverse_journal_tx today id (begin b) ≡ (ok new, t)
      → IsValid t.db
  reverse_journal_tx-IsValid id b new t v h =
      let (orig, b', same, _, _, posted) = reverse_journal_tx-eq-ok today id b h in
      subst (λ u. IsValid u.db) (sym same)
        (mark_reversed-IsValid id new b' (IsPosted-IsValid (reversal_of orig) b new b' posted v))

  -- A reversal keeps every journal balanced, the counter-entry included.
  pub reverse_journal-IsValid :
      (id : ℕ) (b : Books) → IsValid b → IsValid (reverse_journal today id b).1
  unfolding reverse_journal
  reverse_journal-IsValid id b v =
      with_actor_keeps IsValid (reverse_journal_tx today id) b v
        (λ new t h. reverse_journal_tx-IsValid id b new t v h)

-- Closing a period touches no journal.
pub close_period-IsValid :
    (year month : ℕ) (b : Books) → IsValid b → IsValid (close_period year month b).1
unfolding close_period
close_period-IsValid year month b v =
    subst (All IsJournal) (sym (close_period-journals year month b)) v
