-- ===== src/Lib.antt =====
-- A model of the matching-engine benchmark harness, with the theorems that make it correct.
--
-- The program replays a deterministic workload of orders through an engine (a shared object behind the
-- C ABI of api/matching_engine_api.h), drains the reports that the engine pushes, and compares the
-- canonical text of the reports with a published hash; an audited run also compares the engine's order
-- book at chosen points with the one of a baseline engine. The parts, in the order of the data:
--
-- - Workload: the file that workload/generator.cpp (`write_binary`) writes and src/harness.cpp
--   (`load_workload`) reads, byte by byte, with the failures of both. A file is a list of bytes, a
--   device takes a given number of bytes. Bytes has the integers of fixed width, in little-endian order.
-- - Abi and Engine: the messages, the reports and the entry points of an engine, `EngineLib` of
--   src/harness.h. The engine is a parameter, a state with one function for each entry point.
-- - Run: the timed window of src/harness.cpp, with delivery one at a time and in batches, the probes
--   between messages and the flush. Clocks are left out, since no answer depends on them.
-- - Audit: src/audit.cpp, the choice of the probe points and the replay of the workload through the
--   baseline. The random generator is a stream of words; the loop that draws points runs on fuel, and
--   is shown to end where the words hit every residue within it.
-- - Drain: src/transport.cpp and the drainer thread of src/harness.cpp. The queue of the library is a
--   parameter with the laws of a first-in first-out queue; the two threads are interleavings of pushes
--   and drains. Fuel greater than the number of events is enough for the last loop of the drainer.
-- - Correctness: src/correctness.cpp, the stable sort of the collected reports, their canonical text and
--   its hash. The hash function is a parameter. Sort has the stable sort that the standard library
--   promises; Text has decimal numerals and separated lists. A numeral of 64 bits has at most 20
--   digits, which is the fuel of the conversion.
-- - Verdict: the file of published hashes that src/harness.cpp reads before it loads the engine, the
--   status of the hash of the run, the write of the reference, and the conditions of a valid run.
-- - Generator: `generate` and `main` of workload/generator.cpp. What comes of floating point is a
--   parameter: the uniform draws, the walk of the mid-price, the depth profile and the lifetimes.
-- - Answers: what the ABI asks of the reports that answer a message, which the adapters share.
-- - QuantCup: adapters/quantcup_adapter.cpp, an engine over an order book of a library, which is a
--   parameter: `limit` gives the executions that the book calls back, in order. The globals of the
--   adapter are one record, and an abort or an access outside a vector is a fault.
-- - Liquibook: adapters/liquibook_adapter.cpp, over the order book of another library, whose objects are
--   reached by pointers; an access outside a vector is a fault.
-- - CppOrderBook: additional_references/cpp_orderbook_adapter/cpp_orderbook_adapter.cpp, over the order
--   book of a third library, with its decimals, its notifications and the text that it prints, which
--   the queries parse. The loop over the lines runs on the length of the text, since each round consumes
--   a character of it.
-- - Kautenja: additional_references/kautenja_adapter/kautenja_adapter.cpp, over the limit order book of a
--   fourth library, which tells a hook of each fill.
-- - ExchangeCore: adapters/exchange_core_adapter.cpp with adapters/HarnessExchangeCore.java, over the order
--   book of a fifth library: the calls into Java, the staging buffer of the trades, and the batch, in as
--   many calls as its buffer needs. The loop over the calls runs on one round for each message, since a
--   call consumes at least one.
-- - Command: the command line of src/harness.cpp, the path and the name of the engine, the names that it
--   makes of the scenario, the seed and the count, and the command by which it has the workload generated.
--
-- Common passes on the names of the standard library and has the helpers on Booleans, lists, signed
-- integers and results. Tests has the theorems at concrete inputs, over small engines and queues.
--
-- Integers of w bits are natural numbers with the wrap-around written out; a price in ticks is a
-- signed integer. Padding and reserved fields are left out of the structs, and stand in the bytes.
--
-- Not modelled: the floating point of the generator; the other adapters, which have the same shape over
-- other libraries; the printed report and the JSON file of a result in src/harness.cpp; the pinning of
-- threads, the signal guards, the timing and the fingerprint of the machine in src/platform.cpp, which are
-- effects of the operating system; and third_party/sha256.c, which is the code of another project.
pub mod Common
pub mod Sort
pub mod Abi
pub mod Bytes
pub mod Text
pub mod Workload
pub mod Correctness
pub mod Engine
pub mod Run
pub mod Audit
pub mod Answers
pub mod Command
pub mod CppOrderBook
pub mod Drain
pub mod ExchangeCore
pub mod Generator
pub mod Kautenja
pub mod Liquibook
pub mod QuantCup
pub mod Verdict
pub mod Tests
