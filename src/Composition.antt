-- ===== src/Composition.antt =====
-- `composeStandard` of src/composition.ts: whether the chairs of a standard make a run that can be played.
mod Syntax
mod Chairs
mod Graph
mod Order
mod Ending
mod Flow
mod Compose
mod Accepted
mod Seated
mod Roles
mod Agents
mod Defined
mod Reach
mod Tests
