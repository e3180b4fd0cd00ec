-- ===== src/Prelude/Alloc.antt =====
-- The allocator of the C library, a parameter of every operation that grows memory. `W` is the
-- state of the world outside the program, which each call may change.
use Prim.Native.Nat.{ℕ, min}
use mathlib.Core.Path.{◌≡◌}
use mathlib.Core.Option.{Option, some}
use aisl.Prelude.Lists.{length, take}
use aisl.Prelude.Text.{Bytes}

-- `realloc(mem, n)`: NULL, or `n` bytes that begin with those of `mem`, as far as they fit. What
-- the bytes behind them hold is not specified.
pub record Alloc (W : Type 0) : Type 0 where
  pub realloc : W → Bytes → ℕ → W × Option Bytes
  pub realloc_length :
      (w : W) (mem : Bytes) (n : ℕ) (new : Bytes) → (realloc w mem n).1 ≡ some new → length new ≡ n
  pub realloc_prefix :
      (w : W) (mem : Bytes) (n : ℕ) (new : Bytes)
      → (realloc w mem n).1 ≡ some new
      → take (min (length mem) n) new ≡ take (min (length mem) n) mem
