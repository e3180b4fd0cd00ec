-- ===== src/Buffer/Bounds.antt =====
-- Sizes in src/buffer.c: whole pages, inside int32_t.
use aisl.Prelude.{
  ℕ, ◌-◌, ◌%◌, ◌^◌, ◌≤◌, ◌<◌, ◌≡◌, inl, inr, Option, none, some, not, ◌||◌, Bytes, ◌==◌, arith,
  Bool-cases,
}
use aisl.Prelude.Alloc.{Alloc}
use aisl.Buffer.{Buffer, buffer_set_size, resized, round_size}

abbrev pub int32_max : ℕ
int32_max = 2 ^ 31 - 1

-- Sizes are whole pages that int32_t holds.
pub record IsPaged (b : Buffer) : Type 0 where
  pub pages : b.size % 4096 ≡ 0
  pub small : b.size ≤ int32_max

-- The size asked of `realloc` is a positive number of whole pages that holds `n` bytes and that
-- int32_t holds.
pub round_size_bounds :
    (n : ℕ)
    → n ≤ int32_max - 4095
    → (n ≤ round_size n)
      × (0 < round_size n)
      × (round_size n % 4096 ≡ 0)
      × (round_size n ≤ int32_max)
unfolding round_size
round_size_bounds n h = ground arith

resized-IsPaged :
    {W : Type 0} (alloc : Alloc W) (b : Buffer) (n : ℕ) (answer : W × Option Bytes)
    → IsPaged b
    → (n % 4096 ≡ 0) × (n ≤ int32_max)
    → IsPaged (resized alloc b n answer).1
unfolding resized
resized-IsPaged alloc b n (w, none) p h = p
resized-IsPaged alloc b n (w, some new) p h = record { pages = h.0; small = h.1 }

-- For a size of at most 2^31 - 1 - 4095, `buffer_set_size` keeps the size of the buffer a number of
-- whole pages inside int32_t, whatever `realloc` says.
pub buffer_set_size-IsPaged :
    {W : Type 0} (alloc : Alloc W) (w : W) (b : Buffer) (n : ℕ)
    → IsPaged b
    → n ≤ int32_max - 4095
    → IsPaged (buffer_set_size alloc w b n).1
unfolding buffer_set_size
buffer_set_size-IsPaged alloc w b n p h =
    let bounds = round_size_bounds n h in
    let grown =
      resized-IsPaged alloc b (round_size n) (alloc.realloc w b.mem (round_size n)) p
        (bounds.2, bounds.3) in
    elim (Bool-cases (b.size == 0 || not (n == b.size))) [ inl e ↦ rw e grown | inr e ↦ rw e p ]
