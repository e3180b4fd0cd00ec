-- ===== src/Stream/Status.antt =====
-- aisl_response of src/stream.c: the status line.
use aisl.Prelude.{
  ℕ, ◌-◌, ◌%◌, ◌^◌, ◌≤◌, ◌≡◌, refl, sym, ap, ◌∙◌, Option, none, some, ◌++◌, Bytes, ◌||◌, length,
  ltb, leb, take, ◌==◌, if◌then◌else◌, Bool-cases, inl, inr, ◌⊎◌, arith, le→ltb,
}
use aisl.Prelude.Alloc.{Alloc}
use aisl.Buffer.{Buffer, null, resized, initialized, buffer_init}
use aisl.Buffer.Grow.{IsValid, Resized, buffer_set_size-Resized, length-contents}
use aisl.Types.{Status, success, malloc_error, auto_length}
use aisl.Types.Response.{HttpResponse}
use aisl.Stream.{Conn, rank, ready, send_header, with_stream, with_state, with_buffer}
use aisl.Stream.Response.{status_line, init_truncated, responded, aisl_response}
use aisl.Stream.Draft.{draft, Adds, printf-Adds, Draft-path}

-- A well-formed buffer that holds nothing.
abbrev pub IsEmpty : Buffer → Type 0
IsEmpty b = IsValid b × (b.used ≡ 0)

-- The state of a stream that answers with `code` and `len`.
abbrev pub answering : HttpResponse → ℕ → Conn → Conn
answering code len c =
    with_stream c (record c.stream { http_response = code; content_length = len })

-- What a call of `aisl_response` leaves: the status line, or an empty buffer and AISL_MALLOC_ERROR.
abbrev pub Answered : {W : Type 0} → Conn → HttpResponse → ℕ → W × Conn × Status → Type 0
Answered c code len (_, c', r) =
    ((r ≡ success)
      × IsValid c'.stream.buffer
      × (draft c' ≡ record {
        text = status_line c.http_version code;
        rest = with_buffer (with_state (answering code len c) send_header) null;
      }))
    ⊎ ((r ≡ malloc_error)
        × IsEmpty c'.stream.buffer
        × (with_buffer c' null ≡ with_buffer (answering code len c) null))

module _ {W : Type 0} (alloc : Alloc W) where
  initialized-IsEmpty :
      (b : Buffer) (n : ℕ) (r : W × Buffer × Option ℕ)
      → IsEmpty b
      → Resized b n r.1 r.2
      → IsEmpty (initialized alloc r).1
  unfolding initialized
  initialized-IsEmpty b n (w, b', none) h e = rw e h
  initialized-IsEmpty b n (w, b', some m) h (_, size, _, len, _) =
      (record { sized = len ∙ sym size; fits = omega arith }, refl)

  resized-IsEmpty :
      (b : Buffer) (n : ℕ) (r : W × Option Bytes)
      → IsEmpty b
      → ((new : Bytes) → r.1 ≡ some new → length new ≡ n)
      → IsEmpty (initialized alloc (resized alloc b n r)).1
  unfolding initialized resized
  resized-IsEmpty b n (w, none) h e = h
  resized-IsEmpty b n (w, some mem) h e = (record { sized = e mem refl; fits = omega arith }, refl)

  set_size-IsEmpty :
      (w : W) (b : Buffer) (n : ℕ)
      → IsEmpty b
      → IsEmpty (initialized alloc (resized alloc b n (alloc.realloc w b.mem n))).1
  set_size-IsEmpty w b n h =
      resized-IsEmpty b n (alloc.realloc w b.mem n) h (alloc.realloc_length w b.mem n)

  -- Whatever length is announced, the buffer stays well formed and holds nothing.
  pub init_truncated-IsEmpty :
      (w : W) (b : Buffer) (len : ℕ) → IsEmpty b → IsEmpty (init_truncated alloc w b len).1
  init_truncated-IsEmpty w b len h =
      let low = len % 2 ^ 32 in
      let below = 2 ^ 32 - low in
      let init : IsEmpty (buffer_init alloc w b low).1 =
        unfold buffer_init in
        initialized-IsEmpty b low _ h (buffer_set_size-Resized alloc w b low (h.0)) in
      unfold init_truncated in
      elim (Bool-cases (ltb low (2 ^ 31))) [
        | inl e ↦ rw e init
        | inr e ↦ rw e (elim (Bool-cases (below % 4096 == 0 || leb 8192 below)) [
          | inl f ↦ rw f h
          | inr f ↦ rw f (elim (Bool-cases (ltb below 4096)) [
            | inl g ↦ rw g (set_size-IsEmpty w b 4096 h)
            | inr g ↦ rw g (set_size-IsEmpty w b 0 h)
          ])
        ])
      ]

  responded-Answered :
      (c a : Conn) (code : HttpResponse) (len : ℕ) (r : W × Conn × Option ℕ)
      → IsEmpty a.stream.buffer
      → with_buffer a null ≡ with_buffer (answering code len c) null
      → Adds a (status_line c.http_version code) r
      → Answered c code len (responded alloc r)
  unfolding responded
  responded-Answered c a code len (w, c', none) h e ((v, eq), same) =
      inr
        (refl, (v, sym (length-contents v) ∙ ap length eq ∙ length-contents (h.0) ∙ h.1), same ∙ e)
  responded-Answered c a code len (w, c', some n) h e ((_, v, eq), same) = inl (
    refl,
    v,
    Draft-path (eq ∙ ap (λ n. take n a.stream.buffer.mem ++ status_line c.http_version code) (h.1))
        (ap (λ x. with_state x send_header) (same ∙ e)),
  )

  -- A response that no handler has begun starts with its status line.
  pub aisl_response-Answered :
      (w : W) (c : Conn) (code : HttpResponse) (len : ℕ)
      → rank c.stream.state ≤ rank ready
      → IsEmpty c.stream.buffer
      → Answered c code len (aisl_response alloc w c code len)
  aisl_response-Answered w c code len le h =
      let n = if len == auto_length then 0 else len in
      let init = init_truncated alloc w c.stream.buffer n in
      let empty = init_truncated-IsEmpty w c.stream.buffer n h in
      let a = with_buffer (answering code len c) init.1 in
      unfold aisl_response in
      rw (le→ltb (rank ready) (rank c.stream.state) le) (
        responded-Answered c a code len _ empty refl
          (printf-Adds alloc init.0 a (status_line c.http_version code) (empty.0)))
