-- ===== src/SourceMap.antt =====
-- internal/sentryx/sourcemap.go: source maps. Vlq decodes the numbers, Mappings the segments, and
-- Position looks a generated position up.
pub mod Vlq
pub mod Mappings
pub mod Position
pub mod Parse
pub mod Artifacts
mod Tests
