-- ===== src/Tests.antt =====
-- Concrete runs: a small world, and the theorems at it.
pub mod Sample
mod Examples
mod StockExamples
pub mod UserExamples
pub mod PlatformExamples
pub mod CategoryExamples
pub mod ReviewExamples
