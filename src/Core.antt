-- ===== src/Core.antt =====
-- internal/core: the commands, over the stores of storage.go, and the two executors.
pub mod Reply
pub mod Iomux
pub mod KeyCommands
pub mod SetCommands
pub mod CmsCommands
pub mod ZsetCommands
pub mod Executor
pub mod Expire
pub mod Worker
