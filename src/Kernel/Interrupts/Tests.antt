-- ===== src/Kernel/Interrupts/Tests.antt =====
-- A machine without gates and handlers, and the theorems at it.
use longhorn.Base.{
  ℕ, ◌+◌, ◌*◌, ◌%◌, ◌-◌, ◌≡◌, ltb, some, [], arith, if◌then◌else◌, length, length-replicate,
  replicate,
}
use longhorn.Kernel.Interrupts.{
  RegisterFrame, Machine, outb, init_gates, register_interrupt_handler, irq_handler, IdtEntry,
}
use longhorn.Kernel.Interrupts.Gates.{
  entry_at, gate_to, remap_writes, address_at, no_entry, init_gates-address_at,
}
use longhorn.Kernel.Interrupts.Dispatch.{irq_handler-register_interrupt_handler}

abbrev bare : Machine
bare = record { idt = replicate 256 no_entry; interrupt_handlers = replicate 256 0; ports = [] }

-- Every routine has sixteen bytes of its own.
abbrev taken : ℕ → ℕ → ℕ
taken base n = n % 64 * 16 + base

init_gates-address_at_example :
    (m' : Machine) × (init_gates (taken 1048576) (taken 2097152) bare ≡ some m')
    × (length m'.idt ≡ 256)
    × ((n : ℕ)
        → entry_at m' n ≡ (
            if ltb n 32
            then gate_to (taken 1048576 n)
            else (if ltb n 48 then gate_to (taken 2097152 (n - 32)) else entry_at bare n)))
    × ((n : ℕ)
        → address_at m' n ≡ (
            if ltb n 32
            then taken 1048576 n
            else (if ltb n 48 then taken 2097152 (n - 32) else address_at bare n)))
    × (m'.ports ≡ remap_writes)
init_gates-address_at_example =
    init_gates-address_at (taken 1048576) (taken 2097152) bare
      (length-replicate {A = IdtEntry} 256 no_entry) (λ i. omega arith) (λ i. omega arith)

abbrev frame : RegisterFrame
frame = record {
  ds = 0;
  edi = 0;
  esi = 0;
  ebp = 0;
  useless = 0;
  ebx = 0;
  edx = 0;
  ecx = 0;
  eax = 0;
  int_no = 44;
  err_code = 0;
  eip = 0;
  cs = 0;
  eflags = 0;
  esp = 0;
  ss = 0;
}

-- A handler of interrupt 44, on the second controller, that reads its port.
abbrev mouse : ℕ → RegisterFrame → Machine → Machine
mouse handler r m = outb 96 handler m

irq_handler-register_interrupt_handler_example :
    (m' : Machine) × (register_interrupt_handler 44 4096 bare ≡ some m')
    × (irq_handler mouse frame m' ≡ some (outb 32 32 (mouse 4096 frame m')))
    × (m'.ports ≡ [])
irq_handler-register_interrupt_handler_example =
    irq_handler-register_interrupt_handler mouse frame 4096 bare (length-replicate {A = ℕ} 256 0)
      (omega arith) (omega arith)
