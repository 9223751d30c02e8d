-- ===== src/Tests.antt =====
-- Runs of the model, and the theorems at concrete data.
pub mod Memory
pub mod Pair
pub mod Bucket
pub mod Promises
pub mod Disk
pub mod Shelf
mod KeyTests
mod MountTests
mod RoomTests
mod WalkTests
mod MigrateTests
mod FsTests
mod HookTests
mod SchemaTests
mod ObjectTests
mod ZipTests
mod ReaderTests
mod ArchiveTests
mod HandleTests
mod ConfigTests
mod LocalTests
mod DeliveryTests
mod DryRunTests
