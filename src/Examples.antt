-- ===== src/Examples.antt =====
-- Concrete runs: each theorem about the program, applied where its conditions hold.
pub mod Data
mod Deliverer
mod Provider
mod Writer
pub mod Server
mod Sessions
pub mod Codec
pub mod ProblemCodec
pub mod Network
pub mod Pipeline
mod Refusal
mod Workers
mod Commands
mod Linter
mod Generated
