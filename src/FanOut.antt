-- ===== src/FanOut.antt =====
-- src/fan_out.ts and src/seat_plan.ts: one chair template, seated once per item of an input set, and the
-- plan of the seats that a run would take. A path is read by its segments; a record is its id, type,
-- hash and data.
pub mod Records
mod Sources
mod Slices
mod Expansion
mod Stages
mod Seats
mod Plan
mod Gathering
mod Planning
mod Coverage
mod Views
mod Tests
