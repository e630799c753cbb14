-- ===== src/TaskRepeat.antt =====
-- internal/taskrepeat/taskrepeat.go: a repeating task is one row whose dates move forward.
pub mod Rules
pub mod Advance
pub mod Fitting
pub mod Stored
pub mod Sweep
pub mod Tests
