-- ===== src/Buffer/Grow.antt =====
-- buffer_set_size of src/buffer.c: the invariant of the struct, and what growing leaves.
use aisl.Prelude.{
  ℕ, ◌+◌, ◌≤◌, ◌≡◌, refl, sym, ap, ◌∙◌, inl, inr, Option, none, some, ◌||◌, not, ◌++◌, Bytes,
  length, take, drop, ◌==◌, arith, Bool-cases, length-append, length-take, length-drop, take-take,
  take_exact, append_assoc, min,
}
use aisl.Prelude.Alloc.{Alloc}
use aisl.Buffer.{Buffer, contents, blit, resized, round_size, buffer_set_size}

-- The memory has the size that the struct says, and the bytes in use lie inside it.
pub record IsValid (b : Buffer) : Type 0 where
  pub sized : length b.mem ≡ b.size
  pub fits : b.used ≤ b.size

pub length-blit :
    (mem : Bytes) (offset : ℕ) (src : Bytes)
    → offset + length src ≤ length mem
    → length (blit mem offset src) ≡ length mem
length-blit mem offset src h = omega (
  arith,
  length-append (take offset mem) (src ++ drop (offset + length src) mem),
  length-append src (drop (offset + length src) mem),
  length-take offset mem,
  length-drop (offset + length src) mem,
)

-- The bytes up to the end of a write.
pub take-blit :
    (mem : Bytes) (offset : ℕ) (src : Bytes)
    → offset + length src ≤ length mem
    → take (offset + length src) (blit mem offset src) ≡ take offset mem ++ src
take-blit mem offset src h = rw (← append_assoc) (
    take_exact _ (take offset mem ++ src) _
      (omega (arith, length-append (take offset mem) src, length-take offset mem)))

pub round_size_le : (n : ℕ) → n ≤ round_size n
unfolding round_size
round_size_le n = ground arith

pub length-contents : {b : Buffer} → IsValid b → length (contents b) ≡ b.used
length-contents {b} v = omega (arith, length-take b.used b.mem, v.fits, v.sized)

-- What `buffer_set_size` leaves: the buffer as it was where `realloc` refuses, or else at least `n`
-- bytes of memory that begin with the bytes in use.
abbrev pub Resized : Buffer → ℕ → Buffer → Option ℕ → Type 0
Resized b n b' none = b' ≡ b
Resized b n b' (some m) =
    (n ≤ m)
    × (b'.size ≡ m)
    × (b'.used ≡ b.used)
    × (length b'.mem ≡ m)
    × (b.used ≤ n → contents b' ≡ contents b)

module _ {W : Type 0} (alloc : Alloc W) where
  prefix-realloc :
      (w : W) (b : Buffer) (n : ℕ) (new : Bytes)
      → IsValid b
      → (alloc.realloc w b.mem n).1 ≡ some new
      → b.used ≤ n
      → take b.used new ≡ contents b
  prefix-realloc w b n new v e h =
      let le : b.used ≤ min (length b.mem) n = omega (arith, v.sized, v.fits) in
      sym (take-take b.used _ new le)
      ∙ ap (take b.used) (alloc.realloc_prefix w b.mem n new e)
      ∙ take-take b.used _ b.mem le

  resized-Resized :
      (b : Buffer) (n m : ℕ) (answer : W × Option Bytes)
      → n ≤ m
      → ((new : Bytes)
          → answer.1 ≡ some new
          → (length new ≡ m) × (b.used ≤ m → take b.used new ≡ contents b))
      → let (w', b', r) = resized alloc b m answer in Resized b n b' r
  unfolding resized
  resized-Resized b n m (w, none) le h = refl
  resized-Resized b n m (w, some new) le h =
      (le, refl, refl, (h new refl).0, λ fit. (h new refl).1 (omega arith))

  pub buffer_set_size-Resized :
      (w : W) (b : Buffer) (n : ℕ)
      → IsValid b
      → let (w', b', r) = buffer_set_size alloc w b n in Resized b n b' r
  buffer_set_size-Resized w b n v =
      let m = round_size n in
      let grown =
        resized-Resized b n m (alloc.realloc w b.mem m) (round_size_le n)
          (λ new e. (alloc.realloc_length w b.mem m new e, prefix-realloc w b m new v e)) in
      elim (Bool-cases (b.size == 0 || not (n == b.size))) [
        | inl e ↦ unfold buffer_set_size in rw e grown
        | inr e ↦ unfold buffer_set_size in rw e (ground arith)
      ]
