-- ===== src/Kernel/Interrupts/Dispatch.antt =====
-- kernel/isr.c: handlers and the ends of interrupts.
use longhorn.Base.{
  ℕ, ◌<◌, ◌≡◌, ◌≢◌, refl, ◌∙◌, ap, lt→ltb, lt→leb, some, List, arith, ==_ne, length, get_elem?,
  get_elem?-eq-get_or, get_or-set_self, length-set, set,
}
use longhorn.Kernel.Interrupts.{
  RegisterFrame, Machine, outb, register_interrupt_handler, irq_handler,
}

-- Registering a handler for an interrupt below 49 and then taking that interrupt runs the handler once
-- and ends the interrupt with one write, to the first controller: none goes to the second one, also
-- not for its interrupts 40 to 47.
pub irq_handler-register_interrupt_handler :
    (call : ℕ → RegisterFrame → Machine → Machine) (r : RegisterFrame) (handler : ℕ) (m : Machine)
    → length m.interrupt_handlers ≡ 256
    → r.int_no < 49
    → handler ≢ 0
    → (m' : Machine) × (register_interrupt_handler r.int_no handler m ≡ some m')
      × (irq_handler call r m' ≡ some (outb 32 32 (call handler r m')))
      × (m'.ports ≡ m.ports)
unfolding register_interrupt_handler irq_handler
irq_handler-register_interrupt_handler call r handler m len low not_null =
    let handlers : List ℕ = set m.interrupt_handlers r.int_no handler in
    let inside : r.int_no < length m.interrupt_handlers = omega (arith, len) in
    let found : get_elem? handlers r.int_no ≡ some handler =
      get_elem?-eq-get_or handlers r.int_no 0
        (omega (arith, inside, length-set m.interrupt_handlers r.int_no handler))
      ∙ ap some (get_or-set_self m.interrupt_handlers r.int_no handler 0 inside) in
    (
      record m { interrupt_handlers = handlers },
      rw (lt→ltb _ _ inside) refl,
      rw (found, ==_ne _ _ not_null, lt→leb _ _ low) refl,
      refl,
    )
