-- ===== src/Tests.antt =====
-- The theorems at concrete inputs, and runs of the model on small workloads.
mod WorkloadFile
mod Canonical
mod HandOff
mod QuantCup
mod Generator
mod Liquibook
mod Harness
mod Verdict
mod CppOrderBook
mod Command
mod Kautenja
mod ExchangeCore
