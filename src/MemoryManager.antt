-- ===== src/MemoryManager.antt =====
-- src/memory_manager and src/include/memory_manager.
pub mod Containers
pub mod Allocator
pub mod Manager
pub mod Freezing
pub mod SubSession
pub mod Session
