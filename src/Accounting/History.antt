-- ===== src/Accounting/History.antt =====
-- What holds after any sequence of calls: every journal balances.
use infraco_os.Common.{List, [], ◌∷◌}
use infraco_os.Accounting.Tables.{Books}
use infraco_os.Accounting.{Call, posts, reverses, closes, step, run}
use infraco_os.Accounting.Valid.{
  IsValid, post_journal-IsValid, reverse_journal-IsValid, close_period-IsValid,
}

step-IsValid : (c : Call) (b : Books) → IsValid b → IsValid (step c b)
unfolding step
step-IsValid (posts today entry) b v = post_journal-IsValid today entry b v
step-IsValid (reverses today id) b v = reverse_journal-IsValid today id b v
step-IsValid (closes year month) b v = close_period-IsValid year month b v

-- If every journal balances, has two lines or more, and each of its lines is either a debit or a
-- credit, the same holds after any sequence of postings, reversals and period closes, whether
-- they succeed or throw.
pub run-IsValid : (cs : List Call) (b : Books) → IsValid b → IsValid (run cs b)
unfolding run
run-IsValid [] b v = v
run-IsValid (c ∷ cs) b v = run-IsValid cs (step c b) (step-IsValid c b v)
