-- ===== src/Kernel/Interrupts/Gates.antt =====
-- kernel/isr.c: the gates that init_idt installs.
use longhorn.Base.{
  ℕ, zero, suc, ◌+◌, ◌-◌, ◌*◌, ◌/◌, ◌%◌, ◌^◌, ◌≤◌, ◌<◌, ◌≡◌, refl, ◌∙◌, ap, ltb, leb, lt→ltb, some,
  arith, ◌==◌, if◌then◌else◌, ◌&&◌, length, get_or, set, get_or-set, length-set, List, [], ◌∷◌,
  ◌++◌,
}
use longhorn.Kernel.Interrupts.{
  IdtEntry, Machine, set_idt_gate, install_from, install_isrs, install_irqs, remap_pics, init_gates,
}

-- The address of the routine that the processor reads from a gate.
abbrev pub gate_address : IdtEntry → ℕ
gate_address e = e.offset_low + e.offset_high * 65536

abbrev pub no_entry : IdtEntry
no_entry = record { offset_low = 0; selector = 0; zero_byte = 0; flags = 0; offset_high = 0 }

-- A 32 bit interrupt gate that is present, for ring 0, with the code segment at 8 in the table of
-- segments, to the routine at the address `a`.
abbrev pub gate_to : ℕ → IdtEntry
gate_to a = record {
  offset_low = a % 65536;
  selector = 8;
  zero_byte = 0;
  flags = 142;
  offset_high = a / 65536 % 65536;
}

-- Gate `n` of the table, and the address in it.
abbrev pub entry_at : Machine → ℕ → IdtEntry
entry_at m n = get_or m.idt n no_entry

abbrev pub address_at : Machine → ℕ → ℕ
address_at m n = gate_address (entry_at m n)

gate_address-gate_to : (a : ℕ) → a < 2 ^ 32 → gate_address (gate_to a) ≡ a
gate_address-gate_to a small = omega arith

gate-run :
    (n a : ℕ) (m : Machine)
    → n < length m.idt
    → (m' : Machine) × (set_idt_gate n a m ≡ some m')
      × (length m'.idt ≡ length m.idt)
      × ((k : ℕ) → entry_at m' k ≡ (if k == n then gate_to a else entry_at m k))
      × (m'.ports ≡ m.ports)
unfolding set_idt_gate
gate-run n a m h = (
  record m { idt = set m.idt n (gate_to a) },
  rw (lt→ltb _ _ h) refl,
  length-set m.idt n (gate_to a),
  λ k. get_or-set m.idt n k (gate_to a) no_entry h ∙ ground arith,
  refl,
)

install-run :
    (routine : ℕ → ℕ) (first k calls : ℕ) (m : Machine)
    → first + k + calls ≤ length m.idt
    → (m' : Machine) × (install_from routine first k calls m ≡ some m')
      × (length m'.idt ≡ length m.idt)
      × ((n : ℕ)
          → entry_at m' n ≡ (
              if leb (first + k) n && ltb n (first + k + calls)
              then gate_to (routine (n - first))
              else entry_at m n))
      × (m'.ports ≡ m.ports)
unfolding install_from
install-run routine first k zero m h = (m, refl, refl, λ n. ground arith, refl)
install-run routine first k (suc calls) m h =
    let (m₁, run₁, len₁, at₁, ports₁) = gate-run (first + k) (routine k) m (omega arith) in
    let (m₂, run₂, len₂, at₂, ports₂) =
      install-run routine first (k + 1) calls m₁ (omega (arith, len₁)) in
    (m₂, rw run₁ run₂, len₂ ∙ len₁, λ n. ground (arith, at₁ n, at₂ n, same n), ports₂ ∙ ports₁)
  where
    same : (n : ℕ) → n ≡ first + k → gate_to (routine (n - first)) ≡ gate_to (routine k)
    same n e = ap (λ i. gate_to (routine i)) (omega (arith, e))

-- What remap_pics writes, the last first: both controllers are started, the first with vectors
-- 32 to 39 and the second with 40 to 47, the second at line 2 of the first, in 8086 mode, with no
-- interrupt masked.
abbrev pub remap_writes : List (ℕ × ℕ)
remap_writes =
    (161, 0)
    ∷ (33, 0)
    ∷ (161, 1)
    ∷ (33, 1)
    ∷ (161, 2)
    ∷ (33, 4)
    ∷ (161, 40)
    ∷ (33, 32)
    ∷ (160, 17)
    ∷ (32, 17)
    ∷ []

-- The gates that init_idt installs, in a table of 256 entries and for routines at 32 bit addresses:
-- gate n is a present interrupt gate of ring 0 with selector 8, to routine `isr n` for the exceptions
-- 0 to 31 and to `irq (n - 32)` for the interrupts 32 to 47, and its two halves give the whole
-- address; the other entries are unchanged. The writes to ports are exactly the ten of `remap_writes`,
-- which put the controllers on vectors 32 to 39 and 40 to 47.
pub init_gates-address_at :
    (isr irq : ℕ → ℕ) (m : Machine)
    → length m.idt ≡ 256
    → ((i : ℕ) → isr i < 2 ^ 32)
    → ((i : ℕ) → irq i < 2 ^ 32)
    → (m' : Machine) × (init_gates isr irq m ≡ some m')
      × (length m'.idt ≡ 256)
      × ((n : ℕ)
          → entry_at m' n ≡ (
              if ltb n 32
              then gate_to (isr n)
              else (if ltb n 48 then gate_to (irq (n - 32)) else entry_at m n)))
      × ((n : ℕ)
          → address_at m' n
            ≡ (if ltb n 32 then isr n else (if ltb n 48 then irq (n - 32) else address_at m n)))
      × (m'.ports ≡ remap_writes ++ m.ports)
unfolding init_gates install_isrs install_irqs remap_pics
init_gates-address_at isr irq m len isr_small irq_small =
    let (m₁, run₁, len₁, at₁, ports₁) = install-run isr 0 0 32 m (omega (arith, len)) in
    let (m₂, run₂, len₂, at₂, ports₂) =
      install-run irq 32 0 16 (remap_pics m₁) (omega (arith, len, len₁)) in
    let entries : (n : ℕ)
        → entry_at m₂ n ≡ (
            if ltb n 32
            then gate_to (isr n)
            else (if ltb n 48 then gate_to (irq (n - 32)) else entry_at m n)) =
      λ n.
        ground (arith, at₁ n, at₂ n, ap (λ i. gate_to (isr i)) {x = n - 0} {y = n} (omega arith)) in
    (
      m₂,
      rw run₁ run₂,
      len₂ ∙ len₁ ∙ len,
      entries,
      λ n.
          ap gate_address (entries n)
          ∙ ground (
            arith,
            gate_address-gate_to (isr n) (isr_small n),
            gate_address-gate_to (irq (n - 32)) (irq_small (n - 32)),
          ),
      ports₂ ∙ ap (λ ports. remap_writes ++ ports) ports₁,
    )
