-- ===== src/TurnLoop.antt =====
-- src/turn_loop.ts: the turn that a seat takes. The model's port and the source of tools are arguments,
-- which pass a world from call to call; a price is of a type of the deployment's.
mod Messages
mod Hands
mod Spend
mod Rounds
mod Histories
mod Accounts
mod Bounds
mod Reach
mod Transcripts
mod Refusals
mod Tests
