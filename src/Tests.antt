-- ===== src/Tests.antt =====
-- Runs of the models at small inputs, and the theorems at inputs that meet their hypotheses.
pub mod Layout
mod SymapRuns
mod Rings
mod EvbufRuns
mod ProcessRuns
mod WorkerRuns
mod FluidRuns
mod HostRuns
mod LphRuns
mod JackRuns
mod StateRuns
mod ControlRuns
mod ConsoleRuns
mod SetbfreeRuns
mod UiRuns
