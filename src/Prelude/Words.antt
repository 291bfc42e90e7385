-- ===== src/Prelude/Words.antt =====
-- `usize` on a 64-bit target and `u32`, as native numbers with the wrap-around written out.
use Prim.Native.Nat.{ℕ, ◌+◌, ◌-◌, ◌%◌, ◌^◌, ◌<◌, min}
use mathlib.Core.Path.{◌≡◌}
use mathlib.Core.Option.{Option, none, some}
use native.Mathlib.Omega.{arith}
use carbon_io.Prelude.Tests.{ltb, if◌then◌else◌}

abbrev pub usize_mod : ℕ
usize_mod = 2 ^ 64

abbrev pub u32_mod : ℕ
u32_mod = 2 ^ 32

-- `usize::wrapping_add`, `wrapping_sub`, `saturating_add`, `checked_add` and `usize::try_from`.
abbrev pub wrapping_add : ℕ → ℕ → ℕ
wrapping_add a b = (a + b) % usize_mod

abbrev pub wrapping_sub : ℕ → ℕ → ℕ
wrapping_sub a b = (a + usize_mod - b) % usize_mod

abbrev pub saturating_add : ℕ → ℕ → ℕ
saturating_add a b = min (a + b) (usize_mod - 1)

abbrev pub checked_add : ℕ → ℕ → Option ℕ
checked_add a b = if ltb (a + b) usize_mod then some (a + b) else none

abbrev pub try_from : ℕ → Option ℕ
try_from a = if ltb a usize_mod then some a else none

-- `saturating_sub` is the native `-`, which stops at 0; this name keeps the source's word.
abbrev pub saturating_sub : ℕ → ℕ → ℕ
saturating_sub a b = a - b

-- `u32::saturating_add(1)`, on the counters of a slot.
abbrev pub saturating_add_u32 : ℕ → ℕ → ℕ
saturating_add_u32 a b = min (a + b) (u32_mod - 1)

-- A distance that is below the modulus survives the wrap of both of its ends.
pub wrapping_sub-mod :
    (a d : ℕ) → d < usize_mod → wrapping_sub ((a + d) % usize_mod) (a % usize_mod) ≡ d
wrapping_sub-mod a d h = omega arith
