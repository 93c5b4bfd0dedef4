-- ===== src/Libk.antt =====
-- The kernel library, libk/: data structures that the rest of the kernel builds on.
pub mod LinkedList
pub mod Stream
pub mod Bitmap
pub mod Synch
pub mod Slab
