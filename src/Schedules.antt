-- ===== src/Schedules.antt =====
-- src/skill2workflow/schedules.py: the recurring schedules of `RecurringScheduleStore` and the claims of
-- `RecurringScheduleDispatcher`.
pub mod Db
pub mod Lease
pub mod Claim
pub mod Finish
pub mod Exclusion
pub mod Occurrences
pub mod Keeps
pub mod Steps
pub mod Settled
pub mod Takeover
pub mod Homes
pub mod Housed
pub mod Finishing
