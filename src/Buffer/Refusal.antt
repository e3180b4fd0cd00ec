-- ===== src/Buffer/Refusal.antt =====
-- Why the operations of src/buffer.c fail: `realloc` has just refused.
use aisl.Prelude.{
  ℕ, suc, ◌+◌, ◌-◌, ◌≤◌, ◌<◌, ◌≡◌, refl, inl, inr, Option, none, some, ◌||◌, not, Bytes, length,
  ltb, ◌==◌, arith, Bool-cases, tests, ltb→lt, lt→ltb, le→ltb,
}
use aisl.Prelude.Alloc.{Alloc}
use aisl.Buffer.{
  Buffer, printed, resized, round_size, buffer_set_size, appended, buffer_append, vprintf_rounds,
  buffer_append_vprintf, buffer_move_offset, filled, inserted, buffer_insert,
}
use aisl.Buffer.Grow.{IsValid, Resized, buffer_set_size-Resized}
use aisl.Buffer.Contents.{Resized-HasRoom}
use aisl.Buffer.Print.{printed-IsValid}

module _ {W : Type 0} (alloc : Alloc W) where
  -- `w'` is the world that a refused `realloc` leaves.
  abbrev pub Refused : W → Type 0
  Refused w' = (w : W) × (mem : Bytes) × (n : ℕ) × (alloc.realloc w mem n ≡ (w', none))

  -- A failure comes right behind a refused `realloc`.
  abbrev pub IsExcused : {A : Type 0} → W × A × Option ℕ → Type 0
  IsExcused (w, _, none) = Refused w
  IsExcused (w, _, some n) = Unit {0}

  resized-IsExcused :
      (w : W) (mem : Bytes) (n m : ℕ) (b : Buffer) (r : W × Option Bytes)
      → alloc.realloc w mem n ≡ r
      → IsExcused (resized alloc b m r)
  unfolding resized
  resized-IsExcused w mem n m b (w', none) e = (w, mem, n, e)
  resized-IsExcused w mem n m b (w', some new) e = tt

  buffer_set_size-IsExcused : (w : W) (b : Buffer) (n : ℕ) → IsExcused (buffer_set_size alloc w b n)
  buffer_set_size-IsExcused w b n = elim (Bool-cases (b.size == 0 || not (n == b.size))) [
    | inl e ↦
        unfold buffer_set_size in
        rw e (resized-IsExcused w b.mem (round_size n) (round_size n) b _ refl)
    | inr e ↦ unfold buffer_set_size in rw e tt
  ]

  appended-IsExcused :
      (src : Bytes) (grown : W × Buffer × Option ℕ)
      → IsExcused grown
      → IsExcused (appended alloc src grown)
  unfolding appended
  appended-IsExcused src (w, b, none) h = h
  appended-IsExcused src (w, b, some n) h = tt

  pub buffer_append-IsExcused :
      (w : W) (b : Buffer) (src : Bytes) → IsExcused (buffer_append alloc w b src)
  buffer_append-IsExcused w b src = elim (Bool-cases (ltb (b.size - b.used) (length src))) [
    | inl e ↦
        unfold buffer_append in rw e (appended-IsExcused src _ (buffer_set_size-IsExcused w b _))
    | inr e ↦ unfold buffer_append appended in rw e tt
  ]

  rounds_fits-IsExcused :
      (rounds : ℕ) (w : W) (b : Buffer) (text : Bytes)
      → length text < b.size - b.used
      → IsExcused (vprintf_rounds alloc (suc rounds) w b text)
  unfolding vprintf_rounds
  rounds_fits-IsExcused rounds w b text h = rw (lt→ltb (length text) (b.size - b.used) h) tt

  -- The second call has room.
  retried-IsExcused :
      (b : Buffer) (n : ℕ) (text : Bytes) (grown : W × Buffer × Option ℕ)
      → IsValid b
      → b.used + length text + 1 ≤ n
      → Resized b n grown.1 grown.2
      → IsExcused grown
      → IsExcused {A = Buffer} (elim grown.2 [
        | none ↦ (grown.0, grown.1, none)
        | some _ ↦ vprintf_rounds alloc 1 grown.0 grown.1 text
      ])
  retried-IsExcused b n text (w, c, none) v le r h = h
  retried-IsExcused b n text (w, c, some m) v le r h =
      let room = Resized-HasRoom b c n m (length text) v (omega arith) r in
      rounds_fits-IsExcused 0 w c text (omega (arith, room.used_eq, r.0, r.1))

  pub buffer_append_vprintf-IsExcused :
      (w : W) (b : Buffer) (text : Bytes)
      → IsValid b
      → IsExcused (buffer_append_vprintf alloc w b text)
  unfolding buffer_append_vprintf
  buffer_append_vprintf-IsExcused w b text v =
      elim (Bool-cases (ltb (length text) (b.size - b.used))) [
        | inl fits ↦ rounds_fits-IsExcused 1 w b text (ltb→lt (length text) (b.size - b.used) fits)
        | inr more ↦
            let n = b.size + length text - (b.size - b.used) + 1 in
            let (v', _) = printed-IsValid b text v in
            let again =
              retried-IsExcused (printed b text) n text (buffer_set_size alloc w (printed b text) n)
                v' (unfold printed in omega (tests, more, v.fits))
                (buffer_set_size-Resized alloc w (printed b text) n v')
                (buffer_set_size-IsExcused w (printed b text) n) in
            unfold vprintf_rounds in rw more again
      ]

  filled-IsExcused :
      (w : W) (b : Buffer) (offset : ℕ) (src : Bytes)
      → offset ≤ b.used
      → IsExcused (filled alloc w offset src (buffer_move_offset b offset (length src)))
  filled-IsExcused w b offset src le = elim (Bool-cases (b.used - offset == 0)) [
    | inl e ↦ unfold filled buffer_move_offset in rw (le→ltb b.used offset le, e) tt
    | inr e ↦ unfold filled buffer_move_offset in rw (le→ltb b.used offset le, e) tt
  ]

  inserted-IsExcused :
      (b : Buffer) (n offset : ℕ) (src : Bytes) (grown : W × Buffer × Option ℕ)
      → offset ≤ b.used
      → Resized b n grown.1 grown.2
      → IsExcused grown
      → IsExcused (inserted alloc offset src grown)
  unfolding inserted
  inserted-IsExcused b n offset src (w, b', none) le r h = h
  inserted-IsExcused b n offset src (w, b', some m) le (_, _, used, _, _) h =
      filled-IsExcused w b' offset src (omega (arith, used))

  pub buffer_insert-IsExcused :
      (w : W) (b : Buffer) (offset : ℕ) (src : Bytes)
      → IsValid b
      → offset ≤ b.used
      → IsExcused (buffer_insert alloc w b offset src)
  unfolding buffer_insert
  buffer_insert-IsExcused w b offset src v le =
      inserted-IsExcused b (b.size + length src) offset src _ le
        (buffer_set_size-Resized alloc w b (b.size + length src) v)
        (buffer_set_size-IsExcused w b (b.size + length src))
