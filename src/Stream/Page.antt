-- ===== src/Stream/Page.antt =====
-- aisl_write and aisl_flush of src/stream.c: the body, and the length that is announced for it.
use aisl.Prelude.{
  if_true, if_false, ℕ, ◌-◌, ◌≤◌, ◌≡◌, refl, sym, ap, ◌∙◌, Option, none, some, ◌++◌, [], Bytes,
  Bool, true, false, length, ltb, take, drop, ◌==◌, append-nil, append_assoc, inl, inr, ◌⊎◌, arith,
  length-append, take_exact, drop_exact, le→ltb,
}
use aisl.Prelude.Alloc.{Alloc}
use aisl.Buffer.{Buffer, null, contents, buffer_insert}
use aisl.Buffer.Grow.{IsValid, length-contents}
use aisl.Buffer.Contents.{Outcome}
use aisl.Buffer.Insert.{buffer_insert-Outcome}
use aisl.Buffer.Refusal.{Refused, IsExcused, buffer_insert-IsExcused}
use aisl.Stream.Refusal.{append-IsExcused, on_buffer-IsExcused}
use aisl.Types.{Status, success, malloc_error}
use aisl.Stream.{Conn, rank, send_body, done, with_buffer}
use aisl.Stream.Response.{crlf, content_length_line, append, on_buffer}
use aisl.Stream.Draft.{Draft, draft, Adds, append-Adds, blank}
use aisl.Stream.Write.{
  sized, body_size, in_body, with_closed_headers, aisl_write, finished, length_inserted, aisl_flush,
}

-- The buffer holds the header lines `head`, the empty line and `body`, and `body_offset` is where
-- the body begins.
pub record Page (c : Conn) (sent : Bool) (head body : Bytes) : Type 0 where
  pub valid : IsValid c.stream.buffer
  pub bytes : contents c.stream.buffer ≡ (head ++ crlf) ++ body
  pub offset : c.stream.body_offset ≡ length (head ++ crlf)
  pub in_state : c.stream.state ≡ send_body
  pub announced : c.stream.content_length_header_sent ≡ sent

pub blank-Page :
    (c : Conn) (d : Draft)
    → IsValid c.stream.buffer
    → draft c ≡ blank d
    → Page c d.rest.stream.content_length_header_sent d.text []
blank-Page c d v e = record {
  valid = v;
  bytes = ap (λ d. d.text) e ∙ sym (append-nil (d.text ++ crlf));
  offset = ap (λ d. d.rest.stream.body_offset) e;
  in_state = ap (λ d. d.rest.stream.state) e;
  announced = ap (λ d. d.rest.stream.content_length_header_sent) e;
}

-- A page stays one when only its buffer changes.
Page-same :
    (c c' : Conn) (sent : Bool) (head body body' : Bytes)
    → Page c sent head body
    → IsValid c'.stream.buffer
    → contents c'.stream.buffer ≡ (head ++ crlf) ++ body'
    → with_buffer c' null ≡ with_buffer c null
    → Page c' sent head body'
Page-same c c' sent head body body' p v eq same = record {
  valid = v;
  bytes = eq;
  offset = ap (λ c. c.stream.body_offset) same ∙ p.offset;
  in_state = ap (λ c. c.stream.state) same ∙ p.in_state;
  announced = ap (λ c. c.stream.content_length_header_sent) same ∙ p.announced;
}

-- All the bytes of a page that is finished; `sent` is whether its headers had a length.
abbrev pub whole : Bool → Bytes → Bytes → Bytes
whole true head body = (head ++ crlf) ++ body
whole false head body = head ++ (content_length_line (length body) ++ (crlf ++ body))

module _ {W : Type 0} (alloc : Alloc W) where
  -- What writing `text` to a page leaves: the text behind the body and its length, or -1 and the
  -- page where `realloc` has just refused.
  abbrev pub Written : Bool → Bytes → Bytes → Bytes → W × Conn × Option ℕ → Type 0
  Written sent head body text (w, c, none) = Page c sent head body × Refused alloc w
  Written sent head body text (_, c, some n) = (n ≡ length text) × Page c sent head (body ++ text)

  -- The state that a call of `aisl_flush` leaves, or its failure where `realloc` has just refused.
  abbrev pub Flushed : Bool → Bytes → Bytes → W × Conn × Status → Type 0
  Flushed sent head body (w, c, r) =
      ((r ≡ success)
        × IsValid c.stream.buffer
        × (c.stream.state ≡ done)
        × (contents c.stream.buffer ≡ whole sent head body))
      ⊎ ((r ≡ malloc_error) × Page c sent head body × Refused alloc w)

  pub Adds-Written :
      (c : Conn) (sent : Bool) (head body text : Bytes) (r : W × Conn × Option ℕ)
      → Page c sent head body
      → Adds c text r
      → IsExcused alloc r
      → Written sent head body text r
  Adds-Written c sent head body text (w, c', none) p ((v, eq), same) h =
      (Page-same c c' sent head body body p v (eq ∙ p.bytes) same, h)
  Adds-Written c sent head body text (w, c', some n) p ((l, v, eq), same) h =
      let joined = append_assoc (head ++ crlf) body text in
      let bytes = eq ∙ ap (λ xs. xs ++ text) p.bytes ∙ joined in
      (l, Page-same c c' sent head body (body ++ text) p v bytes same)

  write_open :
      (w : W) (c : Conn) (text : Bytes) (d_len : Option ℕ)
      → c.stream.state ≡ send_body
      → aisl_write alloc w c text d_len ≡ append alloc (sized text d_len) w c
  unfolding aisl_write with_closed_headers in_body rank
  write_open w c text d_len h = ap (in_body alloc (append alloc (sized text d_len))) (
      if_false (ltb (rank c.stream.state) (rank send_body)) _ (w, c, true)
        (ap (λ s. ltb (rank s) (rank send_body)) h))

  -- Once the headers are closed, `aisl_write` adds exactly its data to the body.
  pub aisl_write-Written :
      (w : W) (c : Conn) (sent : Bool) (head body text : Bytes) (d_len : Option ℕ)
      → Page c sent head body
      → Written sent head body (sized text d_len) (aisl_write alloc w c text d_len)
  aisl_write-Written w c sent head body text d_len p = rw (write_open w c text d_len p.in_state) (
      Adds-Written c sent head body (sized text d_len) (append alloc (sized text d_len) w c) p
        (append-Adds alloc w c (sized text d_len) p.valid)
        (append-IsExcused alloc w c (sized text d_len)))

  body_length :
      (c : Conn) (sent : Bool) (head body : Bytes)
      → Page c sent head body
      → body_size c.stream ≡ length body
  unfolding body_size
  body_length c sent head body p =
      let long = length-append (head ++ crlf) body in
      let used = length-contents p.valid in
      let le : c.stream.body_offset ≤ c.stream.buffer.used =
        omega (arith, p.offset, used, ap length p.bytes, long) in
      let size : c.stream.buffer.used - c.stream.body_offset ≡ length body =
        omega (arith, p.offset, used, ap length p.bytes, long) in
      rw (le→ltb c.stream.buffer.used c.stream.body_offset le) size

  Inserted-Flushed :
      (c : Conn) (head body : Bytes) (r : W × Conn × Option ℕ)
      → Page c false head body
      → let (_, c', n) = r in
        Outcome c.stream.buffer
            (head ++ (content_length_line (length body) ++ (crlf ++ body)))
            (length (content_length_line (length body)))
            c'.stream.buffer
            n
          × (with_buffer c' null ≡ with_buffer c null)
        → IsExcused alloc r
        → Flushed false head body (length_inserted alloc r)
  unfolding length_inserted finished
  Inserted-Flushed c head body (w, c', none) p ((v, eq), same) h =
      inr (refl, Page-same c c' false head body body p v (eq ∙ p.bytes) same, h)
  Inserted-Flushed c head body (w, c', some n) p ((l, v, eq), same) h = inl (refl, v, refl, eq)

  abbrev pub announce : W → Conn → W × Conn × Option ℕ
  announce w c =
      on_buffer alloc
        (λ w b.
          buffer_insert alloc w b (c.stream.body_offset - 2)
            (content_length_line (body_size c.stream)))
        w c

  pub flush_inserts :
      (w : W) (c : Conn)
      → c.stream.content_length_header_sent ≡ false
      → (c.stream.body_offset == 0) ≡ false
      → aisl_flush alloc w c ≡ length_inserted alloc (announce w c)
  unfolding aisl_flush
  flush_inserts w c e f = if_false _ _ _ e ∙ if_false _ _ _ f

  insert_between :
      (w : W) (b : Buffer) (offset : ℕ) (src before behind : Bytes)
      → IsValid b
      → offset ≤ b.used
      → take offset (contents b) ≡ before
      → drop offset (contents b) ≡ behind
      → let (_, b', r) = buffer_insert alloc w b offset src in
        Outcome b (before ++ (src ++ behind)) (length src) b' r
  insert_between w b offset src before behind v le e f =
      rw (← e, ← f) (buffer_insert-Outcome alloc w b offset src v le)

  -- The header with the length goes between the other headers and the empty line.
  announce-Outcome :
      (w : W) (c : Conn) (head body : Bytes)
      → Page c false head body
      → let (_, c', n) = announce w c in
        Outcome c.stream.buffer
          (head ++ (content_length_line (length body) ++ (crlf ++ body)))
          (length (content_length_line (length body)))
          c'.stream.buffer
          n
  announce-Outcome w c head body p =
      let n = length-append head crlf in
      let long = length-append (head ++ crlf) body in
      let used = length-contents p.valid in
      let at : c.stream.body_offset - 2 ≡ length head = omega (arith, p.offset) in
      let eq = p.bytes ∙ append_assoc head crlf body in
      let before = ap (take (length head)) eq ∙ take_exact (length head) head (crlf ++ body) refl in
      let behind = ap (drop (length head)) eq ∙ drop_exact (length head) head (crlf ++ body) refl in
      let le : length head ≤ c.stream.buffer.used = omega (arith, ap length p.bytes) in
      rw (at, body_length c false head body p)
        (insert_between w c.stream.buffer (length head) (content_length_line (length body)) head
          (crlf ++ body) p.valid le before behind)

  announce-IsExcused :
      (w : W) (c : Conn) (sent : Bool) (head body : Bytes)
      → Page c sent head body
      → IsExcused alloc (announce w c)
  announce-IsExcused w c sent head body p =
      let at : c.stream.body_offset - 2 ≤ c.stream.buffer.used = omega (
        arith,
        p.offset,
        length-contents p.valid,
        ap length p.bytes,
        length-append (head ++ crlf) body,
      ) in
      let offset = c.stream.body_offset - 2 in
      let text = content_length_line (body_size c.stream) in
      on_buffer-IsExcused alloc c (buffer_insert alloc w c.stream.buffer offset text)
        (buffer_insert-IsExcused alloc w c.stream.buffer offset text p.valid at)

  -- `aisl_flush` finishes the response. Where no length was announced, it inserts the header with
  -- the length of the body as the last one.
  pub aisl_flush-Flushed :
      (w : W) (c : Conn) (sent : Bool) (head body : Bytes)
      → Page c sent head body
      → Flushed sent head body (aisl_flush alloc w c)
  aisl_flush-Flushed w c true head body p =
      unfold aisl_flush in
      rw (if_true c.stream.content_length_header_sent _ _ p.announced)
        (unfold finished in inl (refl, p.valid, refl, p.bytes))
  aisl_flush-Flushed w c false head body p =
      let n = length-append head crlf in
      let f : (c.stream.body_offset == 0) ≡ false = ground (arith, p.offset) in
      rw (flush_inserts w c p.announced f) (
        Inserted-Flushed c head body _ p (announce-Outcome w c head body p, refl)
          (announce-IsExcused w c false head body p))
