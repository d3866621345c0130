-- ===== src/Genome.antt =====
-- What changes a genome's documents or reads them: the change of a type, the adoption of a lineage by
-- an institution, and the placement of an agent in a chair.
pub mod Versions
pub mod Lineage
mod Adoption
pub mod Placement
mod Seats
mod Tests
