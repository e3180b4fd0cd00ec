-- ===== src/Buffer/Insert.antt =====
-- buffer_insert of src/buffer.c opens a gap inside the bytes held, and fills it.
use aisl.Prelude.{
  ℕ, ◌+◌, ◌-◌, ◌≤◌, ◌<◌, ◌≡◌, refl, sym, ap, ◌∙◌, inl, inr, Option, none, some, ◌++◌, Bytes, length,
  take, drop, ◌==◌, arith, Bool-cases, false, length-append, length-take, length-drop, drop_all,
  take-append_le, take-take, take-drop, take_exact, drop_exact, append_assoc, lt→ltb, ==_iff,
  le→ltb, append-nil,
}
use aisl.Prelude.Alloc.{Alloc}
use aisl.Buffer.{Buffer, contents, blit, filled, inserted, buffer_insert, buffer_move_offset}
use aisl.Buffer.Grow.{IsValid, Resized, buffer_set_size-Resized, length-blit, length-contents}
use aisl.Buffer.Contents.{blit_use, Outcome, Outcome-same, Resized-HasRoom}

-- `drop n` of a write at `n` begins with what was written.
drop-blit :
    (mem : Bytes) (n : ℕ) (src : Bytes)
    → n ≤ length mem
    → drop n (blit mem n src) ≡ src ++ drop (n + length src) mem
drop-blit mem n src h = drop_exact n (take n mem) _ (omega (arith, length-take n mem))

pub take-blit_le :
    (mem : Bytes) (k n : ℕ) (src : Bytes)
    → k ≤ n
    → n ≤ length mem
    → take k (blit mem n src) ≡ take k mem
take-blit_le mem k n src h le =
    take-append_le k (take n mem) _ (omega (arith, length-take n mem)) ∙ take-take k n mem h

-- The memory once `moved` has been put behind the gap and `src` into it.
gap_filled :
    (mem : Bytes) (offset : ℕ) (src moved : Bytes)
    → offset + length src + length moved ≤ length mem
    → let mem' = blit (blit mem (offset + length src) moved) offset src in
      take (offset + length src + length moved) mem' ≡ take offset mem ++ (src ++ moved)
gap_filled mem offset src moved h =
    let le : offset + length src ≤ length mem = omega arith in
    let lt = length-take offset mem in
    rw
      (
        take-blit_le mem offset (offset + length src) moved (omega arith) le,
        drop-blit mem (offset + length src) moved le,
        ← append_assoc src moved (drop (offset + length src + length moved) mem),
        ← append_assoc (take offset mem) (src ++ moved),
      )
      (take_exact _ (take offset mem ++ (src ++ moved)) _
        (omega (arith, length-append (take offset mem) (src ++ moved), length-append src moved)))

-- What is used behind `offset`, read from the memory or from the bytes held.
pub tail-contents :
    (b : Buffer) (offset : ℕ)
    → offset ≤ b.used
    → take (b.used - offset) (drop offset b.mem) ≡ drop offset (contents b)
tail-contents b offset h =
    let e : offset + (b.used - offset) ≡ b.used = omega arith in
    take-drop (b.used - offset) offset b.mem ∙ ap (λ n. drop offset (take n b.mem)) e

module _ {W : Type 0} (alloc : Alloc W) where
  abbrev Inserted : Buffer → ℕ → Bytes → W × Buffer × Option ℕ → Type 0
  Inserted b offset src (_, b', r) =
      Outcome b (take offset (contents b) ++ (src ++ drop offset (contents b))) (length src) b' r

  filled_end :
      (w : W) (b : Buffer) (src : Bytes)
      → IsValid b
      → b.used + length src ≤ b.size
      → Inserted b b.used src (filled alloc w b.used src (buffer_move_offset b b.used (length src)))
  filled_end w b src v room =
      let (valid, eq) = blit_use b b.used src v room in
      let nothing : b.used - b.used ≡ 0 = omega arith in
      let same = take-take b.used b.used b.mem (omega arith) in
      let none_behind = drop_all b.used (contents b) (omega (arith, length-contents v)) in
      unfold filled buffer_move_offset in
      rw (le→ltb b.used b.used (omega arith), nothing)
        (refl, valid, rw (same, none_behind, append-nil src) eq)

  filled_inside :
      (w : W) (b : Buffer) (offset : ℕ) (src : Bytes)
      → IsValid b
      → b.used + length src ≤ b.size
      → offset ≤ b.used
      → (b.used - offset == 0) ≡ false
      → Inserted b offset src (filled alloc w offset src (buffer_move_offset b offset (length src)))
  filled_inside w b offset src v room le e =
      let moved = tail-contents b offset le in
      let n : length (drop offset (contents b)) ≡ b.used - offset =
        omega (arith, length-drop offset (contents b), length-contents v) in
      let tail = drop offset (contents b) in
      let opened = blit b.mem (offset + length src) tail in
      let wide : offset + length src + length tail ≤ length b.mem = omega (arith, v.sized) in
      let end : b.used + length src ≡ offset + length src + length tail = omega arith in
      let opened_len = length-blit b.mem (offset + length src) tail wide in
      let len = length-blit opened offset src (omega arith) in
      unfold filled buffer_move_offset in
      rw (le→ltb b.used offset le, e, moved)
        (
          refl,
          record { sized = len ∙ opened_len ∙ v.sized; fits = room },
          ap (λ k. take k (blit opened offset src)) end
              ∙ gap_filled b.mem offset src tail wide
              ∙ ap (λ xs. xs ++ (src ++ tail)) (sym (take-take offset b.used b.mem le)),
        )

  -- Where the buffer has room, opening the gap and filling it inserts the bytes at `offset`.
  filled-Inserted :
      (w : W) (b : Buffer) (offset : ℕ) (src : Bytes)
      → IsValid b
      → b.used + length src ≤ b.size
      → offset ≤ b.used
      → Inserted b offset src (filled alloc w offset src (buffer_move_offset b offset (length src)))
  filled-Inserted w b offset src v room le = elim (Bool-cases (b.used - offset == 0)) [
    | inl e ↦
        let here : offset ≡ b.used = omega (arith, (==_iff (b.used - offset) 0).0 e) in
        rw here (filled_end w b src v room)
    | inr e ↦ filled_inside w b offset src v room le e
  ]

  inserted-Inserted :
      (b : Buffer) (n offset : ℕ) (src : Bytes) (grown : W × Buffer × Option ℕ)
      → IsValid b
      → b.used + length src ≤ n
      → offset ≤ b.used
      → Resized b n grown.1 grown.2
      → Inserted b offset src (inserted alloc offset src grown)
  inserted-Inserted b n offset src (w, b', none) v h le e =
      unfold inserted in (rw e v, ap contents e)
  inserted-Inserted b n offset src (w, b', some m) v h le e =
      let room = Resized-HasRoom b b' n m (length src) v h e in
      unfold inserted in
      Outcome-same b b' (λ xs. take offset xs ++ (src ++ drop offset xs)) (length src) _ _ room.same
        (filled-Inserted w b' offset src room.valid (omega (arith, room.space, room.used_eq))
          (omega (arith, room.used_eq)))

  -- `buffer_insert` at an offset in the bytes held puts the new bytes there, or returns -1 and
  -- holds what it held.
  pub buffer_insert-Outcome :
      (w : W) (b : Buffer) (offset : ℕ) (src : Bytes)
      → IsValid b
      → offset ≤ b.used
      → let (_, b', r) = buffer_insert alloc w b offset src in
        Outcome b (take offset (contents b) ++ (src ++ drop offset (contents b))) (length src) b' r
  buffer_insert-Outcome w b offset src v le =
      unfold buffer_insert in
      inserted-Inserted b (b.size + length src) offset src _ v (omega (arith, v.fits)) le
        (buffer_set_size-Resized alloc w b (b.size + length src) v)

  inserted_past :
      (b : Buffer) (n offset : ℕ) (src : Bytes) (grown : W × Buffer × Option ℕ)
      → IsValid b
      → b.used ≤ n
      → b.used < offset
      → Resized b n grown.1 grown.2
      → let (_, b', r) = inserted alloc offset src grown in
        (r ≡ none) × IsValid b' × (contents b' ≡ contents b)
  inserted_past b n offset src (w, b', none) v h lt e =
      unfold inserted in (refl, rw e v, ap contents e)
  inserted_past b n offset src (w, b', some m) v h lt (le, size, used, len, same) =
      unfold inserted filled buffer_move_offset in
      rw (lt→ltb b'.used offset (omega arith)) (refl, omega arith, same h)

  -- `buffer_insert` past the bytes held returns -1, and the bytes held stay.
  pub buffer_insert_past :
      (w : W) (b : Buffer) (offset : ℕ) (src : Bytes)
      → IsValid b
      → b.used < offset
      → let (_, b', r) = buffer_insert alloc w b offset src in
        (r ≡ none) × IsValid b' × (contents b' ≡ contents b)
  buffer_insert_past w b offset src v lt =
      unfold buffer_insert in
      inserted_past b (b.size + length src) offset src _ v (omega (arith, v.fits)) lt
        (buffer_set_size-Resized alloc w b (b.size + length src) v)
