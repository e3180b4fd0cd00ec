-- ===== src/Buffer/Contents.antt =====
-- What the operations of src/buffer.c do to the bytes that the buffer holds.
use aisl.Prelude.{
  ℕ, ◌+◌, ◌-◌, ◌≤◌, ◌≡◌, refl, ap, ◌∙◌, inl, inr, Option, none, some, ◌++◌, Bytes, length, take,
  ltb, arith, Bool-cases, tests,
}
use aisl.Prelude.Alloc.{Alloc}
use aisl.Buffer.{Buffer, contents, blit, appended, buffer_append}
use aisl.Buffer.Grow.{IsValid, Resized, buffer_set_size-Resized, length-blit, take-blit}

-- Writing `src` at `offset`, inside the memory, and then using the bytes up to its end.
pub blit_use :
    (b : Buffer) (offset : ℕ) (src : Bytes)
    → IsValid b
    → offset + length src ≤ b.size
    → let b' = record b { mem = blit b.mem offset src; used = offset + length src } in
      IsValid b' × (contents b' ≡ take offset b.mem ++ src)
blit_use b offset src v h =
    let le : offset + length src ≤ length b.mem = omega (arith, v.sized) in
    (
      record { sized = length-blit b.mem offset src le ∙ v.sized; fits = h },
      take-blit b.mem offset src le,
    )

-- What an operation that may grow the buffer leaves: nothing changed for the caller where `realloc`
-- refuses, and else the bytes `after` and the result `n`.
abbrev pub Outcome : Buffer → Bytes → ℕ → Buffer → Option ℕ → Type 0
Outcome b after n b' none = IsValid b' × (contents b' ≡ contents b)
Outcome b after n b' (some m) = (m ≡ n) × IsValid b' × (contents b' ≡ after)

-- The outcome for a buffer that holds the same bytes.
pub Outcome-same :
    (b c : Buffer) (after : Bytes → Bytes) (n : ℕ) (b' : Buffer) (r : Option ℕ)
    → contents c ≡ contents b
    → Outcome c (after (contents c)) n b' r
    → Outcome b (after (contents b)) n b' r
Outcome-same b c after n b' none e (v, eq) = (v, eq ∙ e)
Outcome-same b c after n b' (some m) e (l, v, eq) = (l, v, eq ∙ ap after e)

-- A buffer that holds the same bytes as `b` and has room behind them.
pub record HasRoom (b b' : Buffer) (room : ℕ) : Type 0 where
  pub valid : IsValid b'
  pub used_eq : b'.used ≡ b.used
  pub same : contents b' ≡ contents b
  pub space : b.used + room ≤ b'.size

pub Resized-HasRoom :
    (b b' : Buffer) (n m room : ℕ)
    → IsValid b
    → b.used + room ≤ n
    → Resized b n b' (some m)
    → HasRoom b b' room
Resized-HasRoom b b' n m room v h (le, size, used, len, same) = record {
  valid = omega arith;
  used_eq = used;
  same = same (omega arith);
  space = omega arith;
}

module _ {W : Type 0} (alloc : Alloc W) where
  appended-HasRoom :
      (b b' : Buffer) (w : W) (m : ℕ) (src : Bytes)
      → HasRoom b b' (length src)
      → let (_, b'', r) = appended alloc src (w, b', some m) in
        Outcome b (contents b ++ src) (length src) b'' r
  unfolding appended
  appended-HasRoom b b' w m src h =
      let (valid, eq) = blit_use b' b'.used src h.valid (omega (arith, h.used_eq, h.space)) in
      (refl, valid, eq ∙ ap (λ xs. xs ++ src) h.same)

  appended-Outcome :
      (b : Buffer) (n : ℕ) (src : Bytes) (grown : W × Buffer × Option ℕ)
      → IsValid b
      → b.used + length src ≤ n
      → Resized b n grown.1 grown.2
      → let (_, b', r) = appended alloc src grown in Outcome b (contents b ++ src) (length src) b' r
  appended-Outcome b n src (w, b', none) v h e = unfold appended in (rw e v, ap contents e)
  appended-Outcome b n src (w, b', some m) v h e =
      appended-HasRoom b b' w m src (Resized-HasRoom b b' n m (length src) v h e)

  -- `buffer_append` adds exactly the bytes given behind those held and returns their number, or
  -- returns -1 and holds what it held.
  pub buffer_append-Outcome :
      (w : W) (b : Buffer) (src : Bytes)
      → IsValid b
      → let (_, b', r) = buffer_append alloc w b src in
        Outcome b (contents b ++ src) (length src) b' r
  buffer_append-Outcome w b src v = elim (Bool-cases (ltb (b.size - b.used) (length src))) [
    | inl more ↦
        unfold buffer_append in
        rw more (
          appended-Outcome b _ src _ v (omega (tests, more, v.fits))
            (buffer_set_size-Resized alloc w b _ v))
    | inr fits ↦
        unfold buffer_append in
        rw fits (
          appended-HasRoom b b w 0 src (record {
            valid = v;
            used_eq = refl;
            same = refl;
            space = omega (tests, fits, v.fits);
          }))
  ]
