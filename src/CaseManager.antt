-- ===== src/CaseManager.antt =====
-- src/atsclnt: the list of test cases of the client (caseManager.cpp, caseManager.h).
pub mod State
pub mod Line
pub mod Platform
pub mod Load
pub mod Merge
pub mod Merging
pub mod Placing
pub mod Printing
pub mod Scanning
pub mod Adding
pub mod Keeping
pub mod Loading
pub mod Texts
pub mod Nesting
pub mod Levels
pub mod Typing
pub mod Tests
