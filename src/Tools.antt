-- ===== src/Tools.antt =====
-- The tool layer (modules/tools): the registry and the pipeline of `Tools.invoke`.
pub mod Model
pub mod Registry
pub mod Pipeline
pub mod Invoke
pub mod Reach
pub mod Guards
pub mod Freeing
pub mod Settling
pub mod Repeats
mod Tests
