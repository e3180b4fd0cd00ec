-- ===== src/Stream/Write.antt =====
-- src/stream.c: aisl_header, aisl_write and aisl_flush with their variants, on top of
-- Stream/Response.
use aisl.Prelude.{
  ℕ, zero, suc, ◌+◌, ◌-◌, ◌^◌, Option, none, some, ◌++◌, Bytes, codes, c_str, Bool, true, false,
  not, take, ltb, ◌==◌, ◌&&◌, if◌then◌else◌,
}
use aisl.Prelude.Alloc.{Alloc}
use aisl.StrUtils.{str_cmpi}
use aisl.Buffer.{buffer_insert}
use aisl.Types.{Status, malloc_error, success}
use aisl.Stream.{
  Stream, Conn, aisl_client_set_keepalive, rank, send_header, send_body, done, with_stream,
}
use aisl.Stream.Response.{
  on_buffer, append, printf, crlf, header_line, content_length_line, mark_content_type,
  mark_content_length, mark_connection, aisl_start_response, aisl_stream_close_headers,
}

abbrev pub keyed : Bytes → Bytes → Bool
keyed key name = str_cmpi key name == 0

-- The keep-alive that the value of a "Connection" header asks for; `none` is NULL.
abbrev pub asked_keepalive : Conn → Option Bytes → Bool
asked_keepalive c none = c.keepalive
asked_keepalive c (some value) = keyed value (codes "keepalive")

-- The marks of `aisl_stream_verify_header`, whose third test is written there twice.
unfoldable pub noted : Conn → Bytes → Option Bytes → Conn
noted c key value =
    if not c.stream.connection_header_sent && keyed key (codes "connection")
    then mark_connection (aisl_client_set_keepalive c (asked_keepalive c value))
    else if not c.stream.content_type_header_sent && keyed key (codes "content-type")
    then mark_content_type c
    else if not c.stream.content_length_header_sent && keyed key (codes "content-length")
    then mark_content_length c
    else c

-- The bytes that the arguments `data` and `d_len` stand for; `none` is the length -1.
abbrev pub sized : Bytes → Option ℕ → Bytes
sized text none = c_str text
sized text (some n) = take n text

-- `s->buffer.used - s->body_offset` as the uint64_t `c_len`, which wraps around where the bytes in
-- front of the body have been sent in part.
unfoldable pub body_size : Stream → ℕ
body_size s =
    if ltb s.buffer.used s.body_offset
    then 2 ^ 64 - (s.body_offset - s.buffer.used)
    else s.buffer.used - s.body_offset

module _ {W : Type 0} (alloc : Alloc W) where
  unfoldable pub verified : Bytes → Option Bytes → W × Conn × Status → W × Conn × Option ℕ
  verified key value (w, c, success) = (w, noted c key value, some 1)
  verified key value (w, c, _) = (w, c, none)

  unfoldable pub aisl_stream_verify_header : W → Conn → Bytes → Option Bytes → W × Conn × Option ℕ
  unfolding verified
  aisl_stream_verify_header w c key value =
      if ltb (rank c.stream.state) (rank send_header)
      then verified key value (aisl_start_response alloc w c)
      else if ltb (rank send_header) (rank c.stream.state)
      then (w, c, some 0)
      else verified key value (w, c, success)

  -- The calls behind `if ((result = aisl_stream_verify_header(...)) != 1) return result;`
  unfoldable pub if_verified :
      (W → Conn → W × Conn × Option ℕ) → W × Conn × Option ℕ → W × Conn × Option ℕ
  if_verified next (w, c, some (suc zero)) = next w c
  if_verified next (w, c, r) = (w, c, r)

  unfoldable pub aisl_header : W → Conn → Bytes → Bytes → W × Conn × Option ℕ
  aisl_header w c key value =
      if_verified (printf alloc (header_line key value))
        (aisl_stream_verify_header w c key (some value))

  unfoldable pub then_adds :
      (W → Conn → W × Conn × Option ℕ) → W × Conn × Option ℕ → W × Conn × Option ℕ
  then_adds next (w, c, none) = (w, c, none)
  then_adds next (w, c, some n) =
      let r = next w c in elim r.2 [ none ↦ (r.0, r.1, none) | some m ↦ (r.0, r.1, some (n + m)) ]

  -- `value` is what the format and its arguments print.
  unfoldable pub aisl_header_vprintf : W → Conn → Bytes → Bytes → W × Conn × Option ℕ
  unfolding then_adds
  aisl_header_vprintf w c key value =
      if_verified
        (λ w c.
          then_adds (append alloc crlf)
            (then_adds (printf alloc value) (printf alloc (key ++ codes ": ") w c)))
        (aisl_stream_verify_header w c key none)

  abbrev pub aisl_header_printf : W → Conn → Bytes → Bytes → W × Conn × Option ℕ
  aisl_header_printf = aisl_header_vprintf

  unfoldable pub in_body : (W → Conn → W × Conn × Option ℕ) → W × Conn × Bool → W × Conn × Option ℕ
  in_body next (w, c, false) = (w, c, none)
  in_body next (w, c, true) = next w c

  -- The calls behind the test that closes the headers first.
  unfoldable pub with_closed_headers :
      (W → Conn → W × Conn × Option ℕ) → W → Conn → W × Conn × Option ℕ
  unfolding in_body
  with_closed_headers next w c = in_body next (
      if ltb (rank c.stream.state) (rank send_body)
      then aisl_stream_close_headers alloc w c
      else (w, c, true))

  unfoldable pub aisl_vprintf : W → Conn → Bytes → W × Conn × Option ℕ
  aisl_vprintf w c text = with_closed_headers (printf alloc text) w c

  abbrev pub aisl_printf : W → Conn → Bytes → W × Conn × Option ℕ
  aisl_printf = aisl_vprintf

  unfoldable pub aisl_write : W → Conn → Bytes → Option ℕ → W × Conn × Option ℕ
  aisl_write w c text d_len = with_closed_headers (append alloc (sized text d_len)) w c

  unfoldable pub aisl_puts : W → Conn → Bytes → W × Conn × Option ℕ
  aisl_puts w c str = with_closed_headers (λ w c. aisl_write w c str none) w c

  unfoldable pub finished : W × Conn × Bool → W × Conn × Status
  finished (w, c, _) =
      (w, with_stream c (record c.stream { state = done; flushed = true }), success)

  unfoldable pub length_inserted : W × Conn × Option ℕ → W × Conn × Status
  unfolding finished
  length_inserted (w, c, none) = (w, c, malloc_error)
  length_inserted (w, c, some _) = finished (w, mark_content_length c, true)

  unfoldable pub marked_length : W × Conn × Bool → W × Conn × Bool
  marked_length (w, c, ok) = (w, mark_content_length c, ok)

  -- The result of `aisl_stream_close_headers` is not looked at.
  unfoldable pub aisl_flush : W → Conn → W × Conn × Status
  unfolding finished length_inserted marked_length
  aisl_flush w c =
      let s = c.stream in
      if s.content_length_header_sent
      then finished (w, c, true)
      else if s.body_offset == 0
      then finished (marked_length (aisl_stream_close_headers alloc w c))
      else length_inserted (
          on_buffer alloc
            (λ w b. buffer_insert alloc w b (s.body_offset - 2) (content_length_line (body_size s)))
            w c)
