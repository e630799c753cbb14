-- ===== src/Lib.antt =====
-- The core of the sajni API server: how habits, reminders and repeating tasks move through the
-- calendar, how money that was lent or paid for someone is kept in order with the bills it came from,
-- how requests are kept from running twice, and how AI calls are limited.
--
-- Parts and files. The functions of each Go file are named by their own names in snake case, or by a
-- comment at the definition.
--
--   Calendar       What the program uses of Go's time package: dates as numbers of days since
--                  0001-01-01, their text, and time zones. Calendar/Months and Calendar/Civil have the
--                  lemmas, Calendar/Text the text form, Calendar/Zone instants and zones.
--   HabitPeriod    internal/habitperiod/period.go: ForDate, Next, Previous, CountOverlapping,
--                  CompletedPeriods and Streaks.
--   Reminder       internal/reminder/recurrence.go: Rule, Normalize and Next, with nextWeekly,
--                  nextMonthly and nthWeekday.
--   TaskRepeat     internal/taskrepeat/taskrepeat.go: TaskRepeat/Rules has Scope, Normalize and Next,
--                  TaskRepeat/Advance has Advance, Skip and Fit over the tables tasks,
--                  task_due_history, task_events and task_reminders, TaskRepeat/Sweep has Sweep and Enqueue.
--   Plan           internal/plan/plan.go: On, At, Next and Occurrence of plans that repeat on weekdays,
--                  with Normalize in Plan/Input, Save, Delete and Advance in Plan/Saved, and AddTask in
--                  Plan/AddTask, over the tasks of TaskRepeat. Sscanf, which reads a start time, is a
--                  parameter, and so are trimming, upper case and the count of runes.
--   AiLimit        internal/api/ailimit.go: check, record and prune of the hourly limit on AI calls.
--   Idempotency    internal/api/idempotency.go: withIdempotency over the table idempotency_keys, around
--                  a handler that is a parameter.
--   Media          internal/media/status.go: NormalizeStatus and ResolveStatus, from the trimmed text on.
--                  Media/Progress: planProgress and logMediaProgress of
--                  internal/api/media_progress.go, and progressMeta of internal/api/media.go.
--   Lends          internal/db/lends.go over the tables of internal/db/db.go. Lends/Tables and Lends/Ledger
--                  have the tables and what the operations share, Lends/Due CardCycleDue and lendDue,
--                  Lends/Rebalance RebalanceLends and CheckLendOrder, Lends/Shares SetPaidForShare,
--                  MarkPaidFor and UnmarkPaidFor, Lends/Bills SplitBill and SyncSplit, Lends/Settle
--                  Forgive, EditAdjustment, SettleWith, SetSettlementLend and Unsettle.
--   Prelude        The names, tests, integers and results that all of these share.
--
-- How they interact. A repeating task asks the reminders' Next for the dates of a day task, in UTC, and
-- keeps its rule in the form that the reminders' Normalize returns. Habits use the calendar alone. A task
-- that is added to a plan lands on the plan's occurrence. Every operation on lends ends with a rebalance
-- of its people, which books the payments again and refuses a payment that is dated before what it pays,
-- but SyncSplit, which only checks the dates.
--
-- State and errors. The stateful operations take the tables as a record and return them; a transaction
-- that fails returns an error and no tables, since its writes are rolled back. Functions that return an
-- error in Go return a Result. JSON columns hold the decoded value: what does not decode is the empty
-- rule, as in Decode. Amounts of money are counted in hundredths, as their columns keep them and as
-- roundMoney leaves them; the rounding of other floating-point amounts is left out. The tables of the
-- lends hold the rows of one user. A row that a statement expects and does not find, or a CHECK that
-- fails, is a refusal of its own; that a foreign key or a unique index may refuse a write in other
-- places is left out, and so is the wording of messages. Trimming and lower case are parameters.
-- Go's int and int64 are unbounded integers: the numbers are far below the bounds.
--
-- Loops. The loops of the source with a bound of their own (3660 days, 1200 months, 10000 rounds) keep
-- it. Those without one run on fuel, and their theorems say that the fuel is enough: the streak loop has
-- one round for every day back to 0001-01-01, and the count one for every day up to its end.
--
-- Limits. Dates begin with the year 1, and texts end with the year 9999, as in the source's layout.
-- A fortnight is computed from a time.Duration, which saturates, so theorems on fortnights ask for
-- dates from 1677-10-11 to 2262-04-22 at most. The time zone database is not part of the repository: a
-- zone is a pair of functions, and theorems that need one whose clocks are never changed say so
-- (Calendar/Zone). A weekly rule with interval 0, which Normalize never returns, divides by zero; the
-- model has a value for that panic.
--
-- Not modelled: HTTP handlers, SQL beyond the statements of the modelled operations, the Redis queue,
-- the AI tools, authentication, and finance but for the lends.
pub mod Prelude
pub mod Calendar
pub mod HabitPeriod
pub mod Reminder
pub mod TaskRepeat
pub mod Plan
pub mod Lends
pub mod AiLimit
pub mod Media
pub mod Idempotency
