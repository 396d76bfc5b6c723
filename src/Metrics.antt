-- ===== src/Metrics.antt =====
-- The derived metrics, the last part of frontend/src/lib/metrics.ts, one child for each group.
pub mod Windows
pub mod Composition
pub mod Trends
pub mod Tariff
pub mod Median
pub mod Excess
pub mod Outlook
pub mod Forecast
pub mod Comparisons
pub mod Past
pub mod Headline
