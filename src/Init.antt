-- ===== src/Init.antt =====
-- vakt-init: PID 1.
pub mod Mount
pub mod Shutdown
pub mod Privilege
pub mod Control
pub mod Supervisor
pub mod Supervision
pub mod Stop
pub mod CrashLoop
pub mod LogFile
pub mod Notify
pub mod Status
pub mod Rollback
mod Tests
