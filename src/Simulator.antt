-- ===== src/Simulator.antt =====
-- The simulator: `simulator/src`. Its clients follow plans of interactions, made from random
-- numbers; the network, the clock and the simulation itself are a library's.
pub mod Plan
pub mod Loop
pub mod TimeLimit
pub mod BankerPlan
pub mod HealthPlan
pub mod FaultPlan
pub mod Health
pub mod Start
pub mod Host
pub mod Actions
pub mod BankerCount
pub mod Faults
pub mod Reply
pub mod Connection
pub mod Headers
pub mod Checks
pub mod Http
pub mod Banker
mod Tests
