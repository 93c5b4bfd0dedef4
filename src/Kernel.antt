-- ===== src/Kernel.antt =====
-- The kernel proper, kernel/.
pub mod Kalloc
pub mod Task
pub mod Thread
pub mod Proc
pub mod Interrupts
pub mod Semaphore
mod Samples
