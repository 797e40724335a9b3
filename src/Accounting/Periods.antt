-- ===== src/Accounting/Periods.antt =====
-- A closed period stays closed, and nothing can be posted to it.
use infraco_os.Common.{
  ℕ, ◌≡◌, sym, subst, arith, Bool, true, false, Option, some, none, List, [], ◌∷◌, find?, exists,
  update_where, Option-cases, inl, inr,
}
use infraco_os.Common.Result.{ok, is_ok}
use infraco_os.Database.Enums.{closed}
use infraco_os.Database.Transaction.{begin}
use infraco_os.Database.Transaction.Laws.{with_actor_keeps, Action-cases}
use infraco_os.Accounting.Tables.{Date, Period, JournalEntry, Books, status_is_closed}
use infraco_os.Accounting.{
  post_journal_tx, post_journal, reverse_journal_tx, reverse_journal, close_period, open_period,
  find_period, in_month, Call, posts, reverses, closes, step, run, reversal_of,
}
use infraco_os.Accounting.Valid.Posting.{
  date_of, IsPosted, post_journal_tx-eq-ok, reverse_journal_tx-eq-ok,
}

abbrev closed_in : Option Period → Bool
closed_in none = false
closed_in (some p) = status_is_closed p.status

-- The period of the month exists and is closed.
abbrev pub month_closed : ℕ → ℕ → Books → Bool
month_closed year month b = closed_in (find_period year month b)

exists-find? :
    (q : Period → Bool) (ps : List Period) → closed_in (find? q ps) ≡ true → exists q ps ≡ true
exists-find? q [] h = ground arith
exists-find? q (x ∷ xs) h = ground (arith, exists-find? q xs)

-- Opening a month keeps what is closed.
open_period-closed :
    (y m year month : ℕ) (b : Books) {b' : Books}
    → open_period y m b ≡ ok (tt, b')
    → month_closed year month b ≡ true
    → month_closed year month b' ≡ true
unfolding open_period
open_period-closed y m year month b h k =
    ground (arith, exists-find? (in_month year month) b.periods)

close-closed :
    (y m year month : ℕ) (ps : List Period)
    → closed_in (find? (in_month year month) ps) ≡ true
    → closed_in (
        find?
          (in_month year month)
          (update_where (in_month y m) (λ p. record p { status = closed }) ps))
      ≡ true
close-closed y m year month [] h = h
close-closed y m year month (x ∷ xs) h = ground (arith, close-closed y m year month xs)

-- A month that is being closed is closed afterwards.
close_self :
    (y m : ℕ) (ps : List Period) {p : Period}
    → find? (in_month y m) ps ≡ some p
    → closed_in
        (find? (in_month y m) (update_where (in_month y m) (λ p. record p { status = closed }) ps))
      ≡ true
close_self y m [] h = absurd (ground arith)
close_self y m (x ∷ xs) {p} h = ground (arith, close_self y m xs {p = p})

pub close_period-closed :
    (year month : ℕ) (b b' : Books)
    → close_period year month b ≡ (ok tt, b')
    → month_closed year month b' ≡ true
unfolding close_period
close_period-closed year month b b' h = elim (Option-cases (find_period year month b)) [
  | inl p ↦ absurd (ground arith)
  | inr (p, e) ↦ ground (arith, close_self year month b.periods {p = p})
]

module _ (year month : ℕ) where
  IsPosted-closed :
      (today : Date) (entry : JournalEntry) (b : Books) (id : ℕ) (b' : Books)
      → IsPosted today entry b id b'
      → month_closed year month b ≡ true
      → month_closed year month b' ≡ true
  IsPosted-closed today entry b id b' p h =
      let kept = open_period-closed _ _ year month b p.opens h in ground arith

  post_journal-closed :
      (today : Date) (entry : JournalEntry) (b : Books)
      → month_closed year month b ≡ true
      → month_closed year month (post_journal today entry b).1 ≡ true
  unfolding post_journal
  post_journal-closed today entry b h =
      with_actor_keeps (λ b. month_closed year month b ≡ true) (post_journal_tx today entry) b h
        (λ id t k.
          let (b', same, posted) = post_journal_tx-eq-ok today entry b k in
          subst (λ u. month_closed year month u.db ≡ true) (sym same)
            (IsPosted-closed today entry b id b' posted h))

  reverse_journal-closed :
      (today : Date) (id : ℕ) (b : Books)
      → month_closed year month b ≡ true
      → month_closed year month (reverse_journal today id b).1 ≡ true
  unfolding reverse_journal
  reverse_journal-closed today id b h =
      with_actor_keeps (λ b. month_closed year month b ≡ true) (reverse_journal_tx today id) b h
        (λ new t k.
          let (orig, b', same, _, _, posted) = reverse_journal_tx-eq-ok today id b k in
          subst (λ u. month_closed year month u.db ≡ true) (sym same)
            (IsPosted-closed today (reversal_of orig) b new b' posted h))

  close_period-keeps :
      (y m : ℕ) (b : Books)
      → month_closed year month b ≡ true
      → month_closed year month (close_period y m b).1 ≡ true
  unfolding close_period
  close_period-keeps y m b h = ground (arith, close-closed y m year month b.periods)

  pub run-closed :
      (cs : List Call) (b : Books)
      → month_closed year month b ≡ true
      → month_closed year month (run cs b) ≡ true
  unfolding run step
  run-closed [] b h = h
  run-closed (posts today entry ∷ cs) b h = run-closed cs _ (post_journal-closed today entry b h)
  run-closed (reverses today id ∷ cs) b h = run-closed cs _ (reverse_journal-closed today id b h)
  run-closed (closes y m ∷ cs) b h = run-closed cs _ (close_period-keeps y m b h)

  -- Nothing is posted to a closed month.
  closed-refuses :
      (today : Date) (entry : JournalEntry) (b : Books)
      → (date_of today entry).year ≡ year
      → (date_of today entry).month ≡ month
      → month_closed year month b ≡ true
      → is_ok (post_journal today entry b).0 ≡ false
  unfolding post_journal
  closed-refuses today entry b ey em h =
      elim (Action-cases (post_journal_tx today entry) (begin b)) [
        | inr (_, _, k) ↦ ground arith
        | inl (id, t, k) ↦
            let (b', same, p) = post_journal_tx-eq-ok today entry b k in
            let kept = open_period-closed _ _ year month b p.opens h in absurd (ground arith)
      ]

post_journal-unchanged :
    (today : Date) (entry : JournalEntry) (b : Books)
    → is_ok (post_journal today entry b).0 ≡ false
    → (post_journal today entry b).1 ≡ b
unfolding post_journal
post_journal-unchanged today entry b h =
    elim (Action-cases (post_journal_tx today entry) (begin b)) [
      | inl (_, _, k) ↦ absurd (ground arith)
      | inr (_, _, k) ↦ ground arith
    ]

-- Once a period has been closed, then after any sequence of further calls a posting dated in that
-- month throws and leaves every table as it was.
pub close_period-post_journal :
    (year month : ℕ) (b b' : Books) (cs : List Call) (today : Date) (entry : JournalEntry)
    → close_period year month b ≡ (ok tt, b')
    → (date_of today entry).year ≡ year
    → (date_of today entry).month ≡ month
    → (is_ok (post_journal today entry (run cs b')).0 ≡ false)
      × ((post_journal today entry (run cs b')).1 ≡ run cs b')
close_period-post_journal year month b b' cs today entry h ey em =
    let refused =
      closed-refuses year month today entry (run cs b') ey em
        (run-closed year month cs b' (close_period-closed year month b b' h)) in
    (refused, post_journal-unchanged today entry (run cs b') refused)
