-- ===== src/Metadata/Times.antt =====
-- What the microseconds of a stored time keep of the order of times.
use tempcdn.Prelude.{◌≤◌, ◌↔◌, arith}
use tempcdn.Metadata.Model.{Time, stored_time}

pub stored_time_mono : (s t : Time) → s ≤ t → stored_time s ≤ stored_time t
unfolding stored_time
stored_time_mono s t h = omega arith

-- A stored time compares with a time of the program as it does with the microseconds of that time,
-- which are what a statement is sent: so the statements that compare are modelled without a change of
-- the time that they are given.
pub stored_time-le_iff : (s t : Time) → (stored_time s ≤ stored_time t) ↔ (stored_time s ≤ t)
unfolding stored_time
stored_time-le_iff s t = (λ h. omega arith, λ h. omega arith)
