-- ===== src/Reminder.antt =====
-- internal/reminder/recurrence.go: the repeat rules of reminders and tasks.
pub mod Rule
pub mod Normal
pub mod Next
mod Tests
