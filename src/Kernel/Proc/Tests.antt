-- ===== src/Kernel/Proc/Tests.antt =====
-- A process at 65536 with two threads, and no page left.
use longhorn.Base.{◌≡◌, refl, some, Option, pos, if◌then◌else◌, ◌==◌}
use longhorn.Libk.LinkedList.{Ptr, null}
use longhorn.Libk.Bitmap.{bitmap_find_range, bitmap_get_size}
use longhorn.Libk.Synch.{spin, spin_lock_acquire, spin_lock_release}
use longhorn.Kernel.Kalloc.{palloc_mult}
use longhorn.Kernel.Samples.{nothing, no_pages}
use longhorn.Kernel.Task.{Tasks, running}
use longhorn.Kernel.Proc.{proc_get_free_thread, free_from}

abbrev two_threads : Tasks
two_threads = record nothing {
  current = 4096;
  state = λ t. running;
  proc_of = λ t. 65536;
  threads = λ p i. if i == 0 then 4096 else if i == 1 then 8192 else 0;
  num_live_threads = λ p. 2;
  active_thread = λ p. 4096;
  pid_count = 1;
  active = 65536;
}

abbrev no_kfree : Ptr → Tasks → Option Tasks
no_kfree p k = some k

third_is_free : proc_get_free_thread 65536 two_threads ≡ pos 2
unfolding proc_get_free_thread free_from
third_is_free = refl

no_page_left : palloc_mult 5 1 no_pages ≡ some (null, no_pages)
unfolding palloc_mult spin_lock_acquire spin bitmap_find_range bitmap_get_size spin_lock_release
no_page_left = refl
