-- ===== src/ChunkRows.antt =====
-- The packing of streamed deltas for storage: packages/harness/session/src/chunk-rows.ts. A value is
-- what `JSON.parse` gives. A number is an integer, whose sums and differences are exact as long as
-- they are safe, or another finite double, by its bits: a minus zero, which the storage's writer
-- turns into zero, is not a value. Of members with one name the first counts.
pub mod Values
pub mod Classify
pub mod Pack
pub mod Decode
pub mod Keys
pub mod Checks
pub mod Reading
pub mod Runs
pub mod Rows
pub mod Restoring
pub mod RoundTrip
pub mod Tests
