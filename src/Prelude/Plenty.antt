-- ===== src/Prelude/Plenty.antt =====
-- A concrete C library for the tests: an allocator that counts its calls and never refuses.
use Prim.Native.Nat.{ℕ, ◌+◌, min}
use mathlib.Core.Path.{◌≡◌, ap, ◌∙◌}
use mathlib.Core.Option.{some}
use mathlib.Core.List.{◌++◌}
use native.Mathlib.Omega.{arith}
use aisl.Prelude.Lists.{
  length, take, replicate, length-append, length-replicate, length-take, take-append_le, take-take,
}
use aisl.Prelude.Text.{Bytes}
use aisl.Prelude.Alloc.{Alloc}

-- The old bytes, then zeros, cut to the size asked for.
abbrev pub resize : Bytes → ℕ → Bytes
resize mem n = take n (mem ++ replicate n 0)

length-resize : (mem : Bytes) (n : ℕ) → length (resize mem n) ≡ n
length-resize mem n = omega (
  arith,
  length-take n (mem ++ replicate n 0),
  length-append mem (replicate n 0),
  length-replicate {A = ℕ} n 0,
)

take-resize :
    (mem : Bytes) (n : ℕ) → take (min (length mem) n) (resize mem n) ≡ take (min (length mem) n) mem
take-resize mem n =
    take-take (min (length mem) n) n (mem ++ replicate n 0) (omega arith)
    ∙ take-append_le (min (length mem) n) mem (replicate n 0) (omega arith)

pub length_answer :
    {W : Type 0} (w : W) (mem : Bytes) (n : ℕ) (new : Bytes)
    → some (resize mem n) ≡ some new
    → length new ≡ n
length_answer w mem n new e =
    let same : new ≡ resize mem n = cc in ap length same ∙ length-resize mem n

pub take_answer :
    {W : Type 0} (w : W) (mem : Bytes) (n : ℕ) (new : Bytes)
    → some (resize mem n) ≡ some new
    → take (min (length mem) n) new ≡ take (min (length mem) n) mem
take_answer w mem n new e =
    let same : new ≡ resize mem n = cc in ap (take (min (length mem) n)) same ∙ take-resize mem n

abbrev pub plenty : Alloc ℕ
plenty = record {
  realloc = λ w mem n. (w + 1, some (resize mem n));
  realloc_length = length_answer;
  realloc_prefix = take_answer;
}

-- The same in any world, which it leaves alone.
abbrev pub ample : {W : Type 0} → Alloc W
ample = record {
  realloc = λ w mem n. (w, some (resize mem n));
  realloc_length = λ w mem n new e. length_answer w mem n new e;
  realloc_prefix = λ w mem n new e. take_answer w mem n new e;
}
