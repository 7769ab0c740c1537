-- ===== src/Tests.antt =====
-- Concrete inputs: the tests of the models, and the theorems at inputs that meet their hypotheses.
pub mod Inputs
mod CoreTests
mod GridTests
mod LoggerTests
mod AppTests
mod ExecTests
mod MarketTests
mod ServerTests
mod ProgramTests
mod BenchTests
mod ClientTests
mod PriceTests
