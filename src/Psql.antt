-- ===== src/Psql.antt =====
-- src/psql: the query client's text helpers (src/utString.cpp) and its history of commands
-- (src/iSQLCommandQueue.cpp, src/iSQLCommand.cpp).
pub mod Strings
pub mod Trimming
pub mod Command
pub mod History
pub mod Saved
pub mod Fetching
pub mod Changing
pub mod HostVars
pub mod Hashing
pub mod Values
pub mod Lookup
pub mod Declaring
pub mod Assigning
pub mod Binding
pub mod Bound
pub mod Tests
