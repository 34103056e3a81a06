-- ===== src/Tests.antt =====
-- A platform to run the model on, and the theorems and the code at concrete inputs.
mod Machine
mod MachineLaws
mod TextMachine
mod Fixtures
mod DomainTests
mod StoreTests
mod ApiTests
mod SessionTests
mod ProfileTests
mod AccessTests
mod PipelineTests
mod StreamMachine
mod ScanMachine
mod WorkerTests
mod HealthTests
mod StartTests
