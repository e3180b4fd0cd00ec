-- ===== src/Buffer/Shift.antt =====
-- buffer_shift of src/buffer.c, which drops bytes that were read or sent.
use aisl.Prelude.{
  ℕ, zero, suc, ◌+◌, ◌-◌, ◌≤◌, ◌<◌, ◌≡◌, refl, ◌⊎◌, inl, inr, [], Bytes, length, drop, arith,
  length-drop, drop_all, lt→ltb, le→ltb,
}
use aisl.Buffer.{Buffer, contents, buffer_shift}
use aisl.Buffer.Grow.{IsValid, length-contents}
use aisl.Buffer.Insert.{tail-contents}
use aisl.Buffer.Contents.{blit_use}

-- The bytes held after a shift.
abbrev pub Left : Buffer → ℕ → Bytes → Type 0
Left b offset left =
    let (b', n) = buffer_shift b offset in IsValid b' × (contents b' ≡ left) × (n ≡ length left)

shift_moves :
    (b : Buffer) (offset : ℕ)
    → IsValid b
    → 0 < offset
    → offset + offset < b.used
    → Left b offset (drop offset (contents b))
shift_moves b offset v pos h =
    let tail = drop offset (contents b) in
    let n : 0 + length tail ≡ b.used - offset =
      omega (arith, length-drop offset (contents b), length-contents v) in
    let (valid, eq) = blit_use b 0 tail v (omega (arith, v.fits)) in
    unfold buffer_shift in
    rw
      (
        lt→ltb 0 offset pos,
        lt→ltb offset (b.used - offset) (omega arith),
        tail-contents b offset (omega arith),
        ← n,
      )
      (valid, eq, omega arith)

pub shift_clears :
    (b : Buffer) (offset : ℕ) → IsValid b → 0 < offset → b.used ≤ offset + offset → Left b offset []
shift_clears b offset v pos h =
    unfold buffer_shift in
    rw (lt→ltb 0 offset pos, le→ltb offset (b.used - offset) (omega arith))
      (record { sized = v.sized; fits = omega arith }, refl, refl)

shift_zero : (b : Buffer) → IsValid b → Left b 0 (contents b)
unfolding buffer_shift
shift_zero b v = (v, refl, omega (arith, length-contents v))

shift_few :
    (b : Buffer) (offset : ℕ)
    → IsValid b
    → offset + offset < b.used
    → Left b offset (drop offset (contents b))
shift_few b zero v h = shift_zero b v
shift_few b (suc n) v h = shift_moves b (suc n) v (omega arith) h

shift_all :
    (b : Buffer) (offset : ℕ)
    → IsValid b
    → b.used ≤ offset
    → Left b offset (drop offset (contents b))
shift_all b zero v h = shift_zero b v
shift_all b (suc n) v h =
    rw (drop_all (suc n) (contents b) (omega (arith, length-contents v)))
      (shift_clears b (suc n) v (omega arith) (omega arith))

-- A shift by nothing, by less than half of the bytes held, or by all of them or more, drops exactly
-- that many bytes from the front and returns the number left.
pub buffer_shift-drop :
    (b : Buffer) (offset : ℕ)
    → IsValid b
    → (offset ≡ 0) ⊎ (offset + offset < b.used) ⊎ (b.used ≤ offset)
    → Left b offset (drop offset (contents b))
buffer_shift-drop b offset v (inl z) = rw z (shift_zero b v)
buffer_shift-drop b offset v (inr (inl few)) = shift_few b offset v few
buffer_shift-drop b offset v (inr (inr all)) = shift_all b offset v all

-- A shift by at least half of the bytes held, but not by all of them, leaves none: the bytes behind
-- the offset, of which there is at least one, are lost.
pub buffer_shift_loses :
    (b : Buffer) (offset : ℕ)
    → IsValid b
    → offset < b.used
    → b.used ≤ offset + offset
    → Left b offset [] × (0 < length (drop offset (contents b)))
buffer_shift_loses b offset v lt h = (
  shift_clears b offset v (omega arith) h,
  omega (arith, length-drop offset (contents b), length-contents v),
)
