-- ===== src/Examples.antt =====
-- Tests of the models and instances of their theorems at concrete inputs.
mod Sample
mod StoreTests
mod ExecutorTests
mod DiffTests
mod SchemaTests
mod CompilerTests
mod SchedulerTests
mod PointerTests
