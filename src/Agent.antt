-- ===== src/Agent.antt =====
-- src/ats2: the agent's tables of servers (serverManager.cpp, serviceThread.cpp) and of running requests
-- (serviceManager.cpp).
pub mod Maps
pub mod ServerFile
pub mod ServerPrinting
pub mod ServerLoading
pub mod Inherit
pub mod Filling
pub mod Inheriting
pub mod Services
pub mod Requests
pub mod Tracking
pub mod Showing
pub mod RecoveryFile
pub mod RecoveryScanning
pub mod RecoveryLines
pub mod RecoveryLoading
pub mod RecoveryTests
pub mod Tests
