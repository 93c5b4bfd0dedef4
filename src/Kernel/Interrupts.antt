-- ===== src/Kernel/Interrupts.antt =====
-- kernel/isr.c and kernel/isr.h: the interrupt descriptor table, and the dispatch of hardware
-- interrupts. The addresses of the assembly routines `isr00` to `irq15`, which the linker sets, are
-- parameters, and a handler is the address of its function, 0 for NULL; what a handler does to the
-- machine is a parameter too. A write to a port is put on a list, the last one first.
pub mod Gates
pub mod Dispatch
mod Tests
use longhorn.Base.{
  ℕ, zero, suc, ◌+◌, ◌*◌, ◌/◌, ◌%◌, ◌^◌, Bool, leb, Option, none, some, List, [], ◌∷◌, ◌==◌,
  if◌then◌else◌, ◌>>=◌, get_elem?, store,
}

-- IDT_SIZE
abbrev pub idt_size : ℕ
idt_size = 256

pub record IdtEntry : Type 0 where
  pub offset_low : ℕ
  pub selector : ℕ
  pub zero_byte : ℕ
  pub flags : ℕ
  pub offset_high : ℕ

pub record RegisterFrame : Type 0 where
  pub ds : ℕ
  pub edi : ℕ
  pub esi : ℕ
  pub ebp : ℕ
  pub useless : ℕ
  pub ebx : ℕ
  pub edx : ℕ
  pub ecx : ℕ
  pub eax : ℕ
  pub int_no : ℕ
  pub err_code : ℕ
  pub eip : ℕ
  pub cs : ℕ
  pub eflags : ℕ
  pub esp : ℕ
  pub ss : ℕ

pub record Machine : Type 0 where
  pub idt : List IdtEntry
  pub interrupt_handlers : List ℕ
  pub ports : List (ℕ × ℕ)

abbrev pub outb : ℕ → ℕ → Machine → Machine
outb port value m = record m { ports = (port, value) ∷ m.ports }

-- `handler_addr & 0xFFFF` and `(handler_addr >> 16) & 0xFFFF` are the remainders of 2 ^ 16.
unfoldable pub set_idt_gate : ℕ → ℕ → Machine → Option Machine
set_idt_gate n handler_addr m = do
  idt ← store m.idt n (record {
    offset_low = handler_addr % 65536;
    selector = 8;
    zero_byte = 0;
    flags = 142;
    offset_high = handler_addr / 65536 % 65536;
  })
  some (record m { idt = idt })

-- The calls `set_idt_gate(first, routine 0)`, `set_idt_gate(first + 1, routine 1)` and so on, with the
-- number of the routine and the calls left.
unfoldable pub install_from : (ℕ → ℕ) → ℕ → ℕ → ℕ → Machine → Option Machine
unfolding set_idt_gate
install_from routine first k zero m = some m
install_from routine first k (suc calls) m = do
  m' ← set_idt_gate (first + k) (routine k) m
  install_from routine first (k + 1) calls m'

unfoldable pub install_isrs : (ℕ → ℕ) → Machine → Option Machine
unfolding install_from
install_isrs isr m = install_from isr 0 0 32 m

unfoldable pub install_irqs : (ℕ → ℕ) → Machine → Option Machine
unfolding install_from
install_irqs irq m = install_from irq 32 0 16 m

unfoldable pub remap_pics : Machine → Machine
remap_pics m = do
  let m₁ = outb 160 17 (outb 32 17 m)
  let m₂ = outb 161 40 (outb 33 32 m₁)
  let m₃ = outb 161 2 (outb 33 4 m₂)
  let m₄ = outb 161 1 (outb 33 1 m₃)
  outb 161 0 (outb 33 0 m₄)

-- The gates and controllers of init_idt, in its order.
unfoldable pub init_gates : (ℕ → ℕ) → (ℕ → ℕ) → Machine → Option Machine
unfolding install_isrs install_irqs remap_pics
init_gates isr irq m = do m' ← install_isrs isr m; install_irqs irq (remap_pics m')

unfoldable pub register_interrupt_handler : ℕ → ℕ → Machine → Option Machine
register_interrupt_handler n handler m = do
  handlers ← store m.interrupt_handlers n handler
  some (record m { interrupt_handlers = handlers })

-- `call h r m` is what the handler at the address `h` makes of the machine.
module _ (call : ℕ → RegisterFrame → Machine → Machine) where
  unfoldable pub irq_handler : RegisterFrame → Machine → Option Machine
  irq_handler r m = do
    handler ← get_elem? m.interrupt_handlers r.int_no
    let m₁ = if handler == 0 then m else call handler r m
    let m₂ = if leb 49 r.int_no then outb 160 32 m₁ else m₁
    some (outb 32 32 m₂)
