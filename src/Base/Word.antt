-- ===== src/Base/Word.antt =====
-- `usize` arithmetic: 64 bits. `+` and `-` panic on overflow in the default (debug) build, so they
-- have a result only where it fits; shifts and `!` work on the bits.
use hecto_os.Base.Tests.{ltb, leb, if◌then◌else◌}
use Prim.Native.Nat.{ℕ, ◌+◌, ◌-◌, ◌*◌, ◌/◌, ◌%◌, ◌^◌, ◌≤◌, ◌<◌}
use mathlib.Core.Path.{◌≡◌}
use mathlib.Core.Option.{Option, none, some}
use native.Mathlib.Omega.{arith}

abbrev pub usize_mod : ℕ
usize_mod = 2 ^ 64

-- a + b and a - b, with a panic on overflow
unfoldable pub checked_add : ℕ → ℕ → Option ℕ
checked_add a b = if ltb (a + b) usize_mod then some (a + b) else none

unfoldable pub checked_sub : ℕ → ℕ → Option ℕ
checked_sub a b = if leb b a then some (a - b) else none

-- x << k and x >> k and !x
abbrev pub shl : ℕ → ℕ → ℕ
shl x k = (x * 2 ^ k) % usize_mod

abbrev pub shr : ℕ → ℕ → ℕ
shr x k = x / 2 ^ k

abbrev pub complement : ℕ → ℕ
complement x = usize_mod - 1 - x

pub checked_add-some : (a b : ℕ) → a + b < usize_mod → checked_add a b ≡ some (a + b)
unfolding checked_add
checked_add-some a b h = ground arith

pub checked_sub-some : (a b : ℕ) → b ≤ a → checked_sub a b ≡ some (a - b)
unfolding checked_sub
checked_sub-some a b h = ground arith
