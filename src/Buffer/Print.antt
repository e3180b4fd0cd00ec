-- ===== src/Buffer/Print.antt =====
-- buffer_append_vprintf of src/buffer.c: formatted text at the end of the bytes held.
use aisl.Prelude.{
  ℕ, zero, suc, ◌+◌, ◌-◌, ◌≤◌, ◌<◌, ◌≡◌, refl, sym, ap, ◌∙◌, inl, inr, Option, none, some, ◌++◌, [],
  ◌∷◌, Bytes, length, take, ltb, arith, Bool-cases, false, length-append, length-take, take_all,
  take-take, take_exact, append_assoc, tests, ltb→lt, lt→ltb,
}
use aisl.Prelude.Alloc.{Alloc}
use aisl.Buffer.{
  Buffer, contents, blit, stored, printed, vprintf_rounds, buffer_set_size, buffer_append_vprintf,
}
use aisl.Buffer.Grow.{
  IsValid, Resized, buffer_set_size-Resized, length-blit, take-blit, length-contents,
}
use aisl.Buffer.Insert.{take-blit_le}
use aisl.Buffer.Contents.{Outcome, Outcome-same, Resized-HasRoom}

length-stored : (space : ℕ) (text : Bytes) → length (stored space text) ≤ space
length-stored zero text = omega arith
length-stored (suc room) text =
    omega (arith, length-append (take room text) (0 ∷ []), length-take room text)

stored_fits : (space : ℕ) (text : Bytes) → length text < space → stored space text ≡ text ++ 0 ∷ []
stored_fits zero text h = elim h [ ]
stored_fits (suc room) text h = ap (λ xs. xs ++ 0 ∷ []) (take_all room text (omega arith))

-- `vsnprintf` writes behind the bytes held and inside the memory.
pub printed-IsValid :
    (b : Buffer) (text : Bytes)
    → IsValid b
    → IsValid (printed b text) × (contents (printed b text) ≡ contents b)
unfolding printed
printed-IsValid b text v =
    let room = length-stored (b.size - b.used) text in
    let in_mem : b.used + length (stored (b.size - b.used) text) ≤ length b.mem =
      omega (arith, v.sized, v.fits) in
    (
      record { sized = length-blit b.mem b.used _ in_mem ∙ v.sized; fits = v.fits },
      take-blit_le b.mem b.used b.used (stored (b.size - b.used) text) (omega arith)
          (omega (arith, v.sized, v.fits)),
    )

-- With room for the text and its NUL, one call is enough.
printed_fits :
    (b : Buffer) (text : Bytes)
    → IsValid b
    → length text < b.size - b.used
    → let b' = record (printed b text) { used = b.used + length text } in
      IsValid b' × (contents b' ≡ contents b ++ text)
unfolding printed
printed_fits b text v h =
    let src = text ++ 0 ∷ [] in
    let n = length-append text (0 ∷ []) in
    let in_mem : b.used + length src ≤ length b.mem = omega (arith, v.sized) in
    let inner = sym (
      take-take (b.used + length text) (b.used + length src) (blit b.mem b.used src)
        (omega arith)) in
    rw (stored_fits (b.size - b.used) text h) (
      record { sized = length-blit b.mem b.used src in_mem ∙ v.sized; fits = omega arith },
      inner
          ∙ ap (take (b.used + length text)) (take-blit b.mem b.used src in_mem)
          ∙ rw (← append_assoc (take b.used b.mem) text (0 ∷ [])) (
              take_exact (b.used + length text) (contents b ++ text) (0 ∷ [])
                (omega (arith, length-append (contents b) text, length-contents v))),
    )

module _ {W : Type 0} (alloc : Alloc W) where
  abbrev Printed : Buffer → Bytes → W × Buffer × Option ℕ → Type 0
  Printed b text (_, b', r) = Outcome b (contents b ++ text) (length text) b' r

  rounds_fits :
      (rounds : ℕ) (w : W) (b : Buffer) (text : Bytes)
      → IsValid b
      → length text < b.size - b.used
      → Printed b text (vprintf_rounds alloc (suc rounds) w b text)
  rounds_fits rounds w b text v h =
      unfold vprintf_rounds in
      let (valid, eq) = printed_fits b text v h in
      rw (lt→ltb (length text) (b.size - b.used) h) (refl, valid, eq)

  rounds_same :
      (rounds : ℕ) (w : W) (b : Buffer) (text : Bytes)
      → length text < b.size - b.used
      → vprintf_rounds alloc (suc rounds) w b text ≡ vprintf_rounds alloc 1 w b text
  unfolding vprintf_rounds
  rounds_same rounds w b text h = rw (lt→ltb (length text) (b.size - b.used) h)

  abbrev retry : ℕ → Bytes → W × Buffer × Option ℕ → W × Buffer × Option ℕ
  retry rounds text grown = elim grown.2 [
    | none ↦ (grown.0, grown.1, none)
    | some _ ↦ vprintf_rounds alloc rounds grown.0 grown.1 text
  ]

  -- The second call, on the buffer as it has grown.
  second_round :
      (rounds : ℕ) (b b' : Buffer) (n : ℕ) (text : Bytes) (grown : W × Buffer × Option ℕ)
      → IsValid b'
      → b'.used ≡ b.used
      → contents b' ≡ contents b
      → b'.used + length text + 1 ≤ n
      → Resized b' n grown.1 grown.2
      → Printed b text (retry (suc rounds) text grown)
        × (retry (suc rounds) text grown ≡ retry 1 text grown)
  second_round rounds b b' n text (w, c, none) v' used same e r =
      ((rw r v', ap contents r ∙ same), refl)
  second_round rounds b b' n text (w, c, some m) v' used same e r =
      let room = Resized-HasRoom b' c n m (length text) v' (omega arith) r in
      let fits : length text < c.size - c.used = omega (arith, room.used_eq, r.0, r.1) in
      (
        Outcome-same b c (λ xs. xs ++ text) (length text) _ _ (room.same ∙ same)
            (rounds_fits rounds w c text room.valid fits),
        rounds_same rounds w c text fits,
      )

  vprintf_grows :
      (rounds : ℕ) (w : W) (b : Buffer) (text : Bytes)
      → IsValid b
      → ltb (length text) (b.size - b.used) ≡ false
      → Printed b text (vprintf_rounds alloc (suc (suc rounds)) w b text)
        × (vprintf_rounds alloc (suc (suc rounds)) w b text ≡ vprintf_rounds alloc 2 w b text)
  vprintf_grows rounds w b text v h =
      let n = b.size + length text - (b.size - b.used) + 1 in
      let (v', same) = printed-IsValid b text v in
      let again =
        second_round rounds b (printed b text) n text (buffer_set_size alloc w (printed b text) n)
          v' (unfold printed in refl) same (unfold printed in omega (tests, h, v.fits))
          (buffer_set_size-Resized alloc w (printed b text) n v') in
      unfold vprintf_rounds in rw h again

  -- `buffer_append_vprintf` adds exactly the printed text behind the bytes held and returns its
  -- length, or returns -1 and holds what it held. The call that it makes of itself after growing
  -- makes no further one: more rounds change nothing.
  pub buffer_append_vprintf-Outcome :
      (rounds : ℕ) (w : W) (b : Buffer) (text : Bytes)
      → IsValid b
      → let (_, b', r) = buffer_append_vprintf alloc w b text in
        Outcome b (contents b ++ text) (length text) b' r
        × (vprintf_rounds alloc (suc (suc rounds)) w b text ≡ buffer_append_vprintf alloc w b text)
  unfolding buffer_append_vprintf
  buffer_append_vprintf-Outcome rounds w b text v =
      elim (Bool-cases (ltb (length text) (b.size - b.used))) [
        | inl fits ↦
            let h = ltb→lt (length text) (b.size - b.used) fits in
            (
              rounds_fits 1 w b text v h,
              rounds_same (suc rounds) w b text h ∙ sym (rounds_same 1 w b text h),
            )
        | inr more ↦ ((vprintf_grows 0 w b text v more).0, (vprintf_grows rounds w b text v more).1)
      ]
