-- ===== src/Tests.antt =====
-- The theorems at concrete inputs, by component.
mod Fixtures
mod Roomy
mod ListMap
mod DictTests
mod GrowthTests
mod EraseTests
mod WireTests
mod RingTests
mod BufferTests
mod ListTests
mod MapTests
