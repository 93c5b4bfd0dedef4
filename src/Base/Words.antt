-- ===== src/Base/Words.antt =====
-- 32-bit unsigned arithmetic: `size_t`, `uint32_t`, and pointers on i686.
use Prim.Native.Nat.{ℕ, ◌+◌, ◌-◌, ◌*◌, ◌%◌, ◌^◌, ◌<◌, ◌≤◌}
use mathlib.Core.Path.{◌≡◌, ◌∙◌}
use mathlib.Core.Logic.{inl, inr}
use native.Mathlib.Omega.{arith}
use native.Mathlib.Nat.{mod-eq_of_lt, mod-eq-sub-mod}
use longhorn.Base.Tests.{ltb, if◌then◌else◌, Bool-cases, ltb→lt, ltb→le}

abbrev pub u32_mod : ℕ
u32_mod = 2 ^ 32

abbrev pub add_u32 : ℕ → ℕ → ℕ
add_u32 a b = (a + b) % u32_mod

-- `-` on ℕ stops at 0: the modulus is added first. The second argument is below the modulus.
abbrev pub sub_u32 : ℕ → ℕ → ℕ
sub_u32 a b = (a + u32_mod - b) % u32_mod

abbrev pub mul_u32 : ℕ → ℕ → ℕ
mul_u32 a b = (a * b) % u32_mod

-- A remainder of what is less than two rounds.
pub mod_round : (a b : ℕ) → a < b + b → a % b ≡ (if ltb a b then a else a - b)
mod_round a b h = elim (Bool-cases (ltb a b)) [
  | inl e ↦ rw e (mod-eq_of_lt (ltb→lt a b e))
  | inr e ↦ rw e (once (ltb→le a b e))
]
  where
    once : b ≤ a → a % b ≡ a - b
    once le = mod-eq-sub-mod {n = a} {m = b} le ∙ mod-eq_of_lt {n = a - b} {m = b} (omega arith)

pub add_u32_small : (a b : ℕ) → a + b < u32_mod → add_u32 a b ≡ a + b
add_u32_small a b h = omega arith

pub sub_u32_small : (a b : ℕ) → b ≤ a → a < u32_mod → sub_u32 a b ≡ a - b
sub_u32_small a b h k = omega arith
