-- ===== src/Lib.antt =====
-- Longhorn, a small 32-bit kernel in C with a C library of its own: a model of its data
-- structures, its page and slab allocators, its locks, its threads, its processes, its interrupts,
-- its line discipline, its screen and its images, and what is proved about them.
--
-- The parts, and how they interact. libk holds the data structures that the kernel is built on:
-- the doubly linked list of threads and allocations, the circular streams of the terminal and
-- the line discipline, the bitmap, the slab allocator, and the spin lock over the atomic
-- operations. The page allocator of kernel/kalloc.c keeps a bitmap of its pages behind a spin
-- lock. kernel/thread.c takes the pages of its threads from it, keeps the threads in three
-- linked lists by their state, and switches between them; kernel/proc.c groups the threads in
-- processes. The keyboard handler passes scancodes to the terminal, which passes them to the
-- line discipline; that keeps a line, shows it and sends it to a stream. kernel/isr.c fills the
-- table through which the processor finds the handlers of interrupts, and calls them.
-- drivers/vesa.c draws text and pixels in the framebuffer, and drivers/bmp.c draws images with
-- it. libc holds the functions on strings and memory; puts_std of the streams measures its
-- argument with strlen.
--
-- Where each part is modelled:
--   Base and its children: Booleans, lists, 32-bit words and their bits; no code of the repository.
--   Libk/LinkedList: libk/list.c and include/libk/list.h. A node is an address, and `Nodes` is the
--     memory of its two links. Chain says which sequence of nodes the links stand for; Insert,
--     Delete and Walk have the theorems, and Frame and Leave say which nodes an
--     operation leaves alone.
--   Libk/Stream: libk/stream.c and include/libk/stream.h, the streams of fixed and of any size.
--     Fifo is the queue that they promise, Window the bytes that a circular array holds; Std, Puts
--     and Chars have the theorems.
--   Libk/Bitmap: libk/bitmap.c and include/libk/bitmap.h, over elements of 32 bits. Element, Range,
--     Count, Find and Size have the theorems.
--   Libk/Slab: libk/slab.c. Free is about slab_free, Alloc about slab_alloc.
--   Libk/Synch: libk/atomic.c and the spin lock of libk/synch.c. Spin has the lock alone,
--     Interleave the steps of any number of threads that share it.
--   Kernel/Kalloc: palloc, palloc_mult, pfree, pfree_mult and the free map of kernel/kalloc.c.
--     Palloc and Pfree have the theorems.
--   Kernel/Task: the state that kernel/thread.c and kernel/proc.c share, and the functions of both
--     that wake threads and clean up. Lists says what the ready, the blocked and the dying list hold,
--     Waiting and Wake are about thread_notify.
--   Kernel/Thread: the scheduler of kernel/thread.c, and the creation, blocking and end of threads.
--     Switch, Turns and Fairness are about schedule, Ids about the thread ids.
--   Kernel/Semaphore: the semaphores of libk/synch.c, on the state of Kernel/Task. Counting is about
--     their values, Passing about a value of 0.
--   Kernel/Proc: kernel/proc.c. Slots is about the table of a process's threads.
--   Drivers/Keys: the keycodes of drivers/line.c and the state of drivers/terminal.h.
--   Drivers/Keyboard: the reading side of drivers/terminal.c and the handler of drivers/keyboard.c.
--   Drivers/Line: drivers/line.c and the writing side of drivers/terminal.c. Edit and Typing are
--     about keys in cooked mode, Receive about the output of a process, Send about line_send.
--   Kernel/Interrupts: kernel/isr.c. Gates is about the table of gates, Dispatch about handlers.
--   Drivers/Vesa: drivers/vesa.c. Cells is about the loops that draw a character cell, Scroll about
--     those of scroll, Cursor and Lines say where the cursor is, Pens what is drawn there; Print,
--     Backspace and Clear have the theorems on the functions of those names.
--   Drivers/Bmp: drivers/bmp.c. Header is about the headers of a file, Pixels and Picture about its
--     pixels, against a picture as a list of rows, Paint and Draw about drawing it.
--   Libc/Str: the functions of libc/string.c that read strings, and libc/memcmp.c. Text says which
--     bytes a string stands for; Compare, Search and Span have the theorems.
--   Libc/Edit: reverse and int_to_string of libc/string.c. Reverse and Decimal have the theorems.
--   Libc/Token: strtok of libc/string.c. Split has the theorem on one call.
--   Libc/Join: the functions of libc/string.c that copy and join strings. Cat and Copies have the
--     theorems.
--   Libc/Strip: strstr, trim, strim and int_to_hexstring of libc/string.c. Substring and Spaces have
--     the theorems.
--   Libc/Format: libc/stdio.c. Render has the theorem on sprintf.
--   Libc/Mem: libc/memcpy.c, libc/memmove.c and libc/memset.c on one block of memory. Copy has the
--     theorems.
-- Each function of the C code is a definition of its name (list_isEmpty and list_hasNext are
-- list_is_empty and list_has_next). It takes the part of memory that it works on as an argument
-- and returns it with its result; a part of a longer function has a name of its own, and a
-- comment that quotes the code. The Tests modules run the definitions and apply the theorems at
-- small inputs.
--
-- Numbers, bounds and fuel. A `size_t`, an `int` and a pointer are natural numbers, and sums,
-- differences and products on 32 bits wrap round as the C code's do (add_u32, sub_u32,
-- mul_u32). An error code is an integer. A read or write outside an array or through NULL, and
-- a division by 0, is `none`; but the members of threads and processes are functions from
-- addresses, where an access through a wrong address has a value. A loop that counts is
-- recursion on its number of rounds. A walk along a list and the busy wait for a lock run on
-- fuel, and are `none` without enough of it; the theorems say how much is enough (two or three
-- rounds more than the list has nodes; one round for a free lock); the search of slab_alloc and
-- the loop of slab_init get more rounds than there are slabs and bytes; the digits of
-- int_to_string run on ten rounds, as many as a number of 31 bits has digits, and those of
-- int_to_hexstring on eight; strstr gets a round for each byte of its string and one more, which is
-- enough for every string, and its reads behind a block have a result of their own. A
-- pixel of the framebuffer has an index below 2^30, where its address of 32 bits would wrap. Bitmaps have
-- fewer than 2^32 - 1 bits, so that one more than their number is a number of 32 bits; streams
-- have at most 2^31 cells; and every page of the page allocator has an address of 32 bits.
--
-- Not modelled: the memory that kcalloc and palloc return to a stream or a bitmap is an
-- argument. kmalloc and kcalloc are not part of the model; kcalloc is a parameter of line_init, and
-- kfree, which thread_create calls, is one too. The %B of sprintf, which is undefined in C, is
-- `none`. A switch of threads makes the next thread the current one; what the C
-- code of the stopped thread does once it runs again, its stack, its name and the magic numbers
-- are left out, and so are the standard streams of a process. The calls of the line
-- discipline to the display driver are only recorded. The font of the screen and the addresses of
-- the assembly routines are arguments, and so is what a handler of an interrupt does. The text
-- mode driver drivers/vga.c and the shell are not part of the model; the assembly, the boot code,
-- the serial port and the timer do nothing that it could state.
pub mod Base
pub mod Drivers
pub mod Kernel
pub mod Libc
pub mod Libk
