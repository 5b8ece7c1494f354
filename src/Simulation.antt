-- ===== src/Simulation.antt =====
-- packages/simulation-core: deterministic evaluation of robot traces against a safety envelope.
pub mod Model
pub mod Parse
pub mod Envelope
pub mod Traces
pub mod Geometry
pub mod Rules
pub mod Scenarios
pub mod Values
pub mod Evaluator
