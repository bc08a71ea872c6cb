-- ===== src/Stage.antt =====
-- Package stage: the benchmark stages, their graph, and how they run.
pub mod Config
pub mod Merge
pub mod Inherit
pub mod Coordination
pub mod Queries
pub mod Links
pub mod Client
pub mod Body
pub mod Files
pub mod Parse
pub mod Results
pub mod Sequence
pub mod Random
