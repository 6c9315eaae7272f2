-- ===== src/Loader.antt =====
-- src/ploader: the loader's data files (src/iloDataFile.cpp).
pub mod Source
pub mod Unread
pub mod Token
pub mod Ends
pub mod Overlap
pub mod Split
pub mod Rounds
pub mod Ending
pub mod Enough
pub mod Splitting
pub mod Bounds
pub mod Quotes
pub mod Enclosed
pub mod Trim
pub mod Trimming
pub mod Record
pub mod Field
pub mod Storing
pub mod Reading
pub mod RoundTrip
pub mod Batches
pub mod Batch
pub mod BatchRounds
pub mod Batching
pub mod Whole
pub mod WholeRead
pub mod WholeTests
pub mod LoadTests
pub mod Tests
