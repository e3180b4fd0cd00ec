-- ===== src/Buffer.antt =====
-- src/buffer.c: a growing byte buffer. The memory behind `data` is the list of its bytes, empty
-- for NULL. Sizes are int32_t that are never negative here; Buffer/Bounds says when no sum or
-- product of them leaves that type. -1 is `none`.
pub mod Bounds
pub mod Contents
pub mod Grow
pub mod Insert
pub mod Print
pub mod Refusal
pub mod Shift
mod Tests
use aisl.Prelude.{
  ℕ, zero, suc, ◌+◌, ◌-◌, ◌*◌, ◌/◌, ◌%◌, ◌≡◌, Option, none, some, ◌++◌, [], ◌∷◌, ◌||◌, not, Bytes,
  length, take, drop, ltb, ◌==◌, if◌then◌else◌,
}
use aisl.Prelude.Alloc.{Alloc}

-- `struct buffer`
pub record Buffer : Type 0 where
  pub mem : Bytes
  pub size : ℕ
  pub used : ℕ

-- `calloc`ed
abbrev pub null : Buffer
null = record { mem = []; size = 0; used = 0 }

-- The bytes that the buffer holds.
abbrev pub contents : Buffer → Bytes
contents b = take b.used b.mem

-- `memcpy(&mem[offset], src, length src)`, and `memmove` of a part of `mem` itself, since `src` is
-- a value. `Bounds` shows that no call writes past the end.
abbrev pub blit : Bytes → ℕ → Bytes → Bytes
blit mem offset src = take offset mem ++ (src ++ drop (offset + length src) mem)

-- The size that is asked of `realloc`. For more than 2^31 - 4096 the source overflows its int32_t;
-- Buffer/Bounds excludes such sizes.
unfoldable pub round_size : ℕ → ℕ
round_size n = if n == 0 then 16 * 1024 else if n % 4096 == 0 then n else (n / 4096 + 1) * 4096

-- The result, and the memory with the gap opened in front of `offset`.
unfoldable pub buffer_move_offset : Buffer → ℕ → ℕ → Buffer × Option ℕ
buffer_move_offset b offset size =
    if ltb b.used offset then (b, none) else if b.used - offset == 0 then (b, some size) else (
      record b { mem = blit b.mem (offset + size) (take (b.used - offset) (drop offset b.mem)) },
      some size,
    )

-- what `vsnprintf` stores of `text` in `space` bytes: all that leaves room for the NUL
abbrev pub stored : ℕ → Bytes → Bytes
stored zero text = []
stored (suc room) text = take room text ++ 0 ∷ []

-- `text` is what the format and its arguments print.
pub printed : Buffer → Bytes → Buffer
printed b text = record b { mem = blit b.mem b.used (stored (b.size - b.used) text) }

module _ {W : Type 0} (alloc : Alloc W) where
  unfoldable pub resized : Buffer → ℕ → W × Option Bytes → W × Buffer × Option ℕ
  resized b n (w, none) = (w, b, none)
  resized b n (w, some mem) = (w, record b { mem = mem; size = n }, some n)

  unfoldable pub buffer_set_size : W → Buffer → ℕ → W × Buffer × Option ℕ
  unfolding resized round_size
  buffer_set_size w b new_size =
      if b.size == 0 || not (new_size == b.size)
      then resized b (round_size new_size) (alloc.realloc w b.mem (round_size new_size))
      else (w, b, some new_size)

  unfoldable pub initialized : W × Buffer × Option ℕ → W × Buffer × Option ℕ
  initialized (w, b, none) = (w, b, none)
  initialized (w, b, some n) = (w, record b { used = 0 }, some n)

  unfoldable pub buffer_init : W → Buffer → ℕ → W × Buffer × Option ℕ
  unfolding initialized
  buffer_init w b size = initialized (buffer_set_size w b size)

  filled : W → ℕ → Bytes → Buffer × Option ℕ → W × Buffer × Option ℕ
  filled w offset src (b, none) = (w, b, none)
  filled w offset src (b, some n) =
      (w, record b { mem = blit b.mem offset src; used = b.used + n }, some n)

  inserted : ℕ → Bytes → W × Buffer × Option ℕ → W × Buffer × Option ℕ
  inserted offset src (w, b, none) = (w, b, none)
  inserted offset src (w, b, some _) =
      filled w offset src (buffer_move_offset b offset (length src))

  unfoldable pub buffer_insert : W → Buffer → ℕ → Bytes → W × Buffer × Option ℕ
  unfolding inserted filled buffer_move_offset
  buffer_insert w b offset src = inserted offset src (buffer_set_size w b (b.size + length src))

  appended : Bytes → W × Buffer × Option ℕ → W × Buffer × Option ℕ
  appended src (w, b, none) = (w, b, none)
  appended src (w, b, some _) =
      (w, record b { mem = blit b.mem b.used src; used = b.used + length src }, some (length src))

  unfoldable pub buffer_append : W → Buffer → Bytes → W × Buffer × Option ℕ
  unfolding appended
  buffer_append w b src =
      if ltb (b.size - b.used) (length src)
      then appended src (buffer_set_size w b (b.size + length src - (b.size - b.used)))
      else appended src (w, b, some 0)

  -- The function calls itself once the buffer has grown. `Grow` shows that two calls suffice.
  unfoldable pub vprintf_rounds : ℕ → W → Buffer → Bytes → W × Buffer × Option ℕ
  unfolding printed
  vprintf_rounds zero w b text = (w, b, none)
  vprintf_rounds (suc rounds) w b text =
      let grown =
        buffer_set_size w (printed b text) (b.size + length text - (b.size - b.used) + 1) in
      if ltb (length text) (b.size - b.used)
      then (w, record (printed b text) { used = b.used + length text }, some (length text))
      else elim grown.2 [
        | none ↦ (grown.0, grown.1, none)
        | some _ ↦ vprintf_rounds rounds grown.0 grown.1 text
      ]

  unfoldable pub buffer_append_vprintf : W → Buffer → Bytes → W × Buffer × Option ℕ
  buffer_append_vprintf = vprintf_rounds 2

unfoldable pub buffer_release : Buffer → Buffer
buffer_release b = null

-- The result is the number of bytes left.
unfoldable pub buffer_shift : Buffer → ℕ → Buffer × ℕ
buffer_shift b offset =
    if ltb 0 offset
    then (if ltb offset (b.used - offset)
        then (
          record b {
            mem = blit b.mem 0 (take (b.used - offset) (drop offset b.mem));
            used = b.used - offset;
          },
          b.used - offset,
        )
        else (record b { used = 0 }, 0))
    else (b, b.used - offset)
