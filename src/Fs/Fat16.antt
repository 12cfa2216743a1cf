-- ===== src/Fs/Fat16.antt =====
-- fs/fat16.c, on the disk that drivers/ata.c provides: the allocation table, the names, the root
-- directory, and the files.
pub mod Volume
pub mod Names
pub mod Root
pub mod Sectors
pub mod Table
pub mod Files
pub mod Pouring
pub mod Reading
pub mod Regions
pub mod ShortName
pub mod Sample
pub mod Space
pub mod RoundTrip
pub mod Storing
pub mod Entering
pub mod Slots
pub mod Entries
pub mod Contents
pub mod Filling
pub mod Writing
pub mod Deleting
pub mod Chain
pub mod Freeing
mod Tests
