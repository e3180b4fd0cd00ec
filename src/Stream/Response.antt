-- ===== src/Stream/Response.antt =====
-- src/stream.c: the functions with which a handler writes its response. A printf format comes with
-- its arguments already printed; -1 is `none`. `keepalive` and `http_version` stand for the
-- functions of src/client.c that read and write those fields.
use aisl.Prelude.{
  ℕ, ◌-◌, ◌%◌, ◌^◌, Option, none, some, ◌++◌, Bytes, codes, Bool, true, false, ltb, leb, ◌==◌, ◌||◌,
  ◌∷◌, [], if◌then◌else◌,
}
use aisl.Prelude.Alloc.{Alloc}
use aisl.Prelude.Decimal.{decimal}
use aisl.Buffer.{Buffer, resized, initialized, buffer_init, buffer_append, buffer_append_vprintf}
use aisl.Types.{
  Status, malloc_error, success, idle, HttpVersion, aisl_http_version_to_string, auto_length,
}
use aisl.Types.Response.{HttpResponse, response_code, aisl_http_response_to_string}
use aisl.Stream.{
  Conn, aisl_client_get_keepalive, aisl_get_http_version, rank, ready, send_header, send_body,
  with_stream, with_state, with_buffer,
}

abbrev pub crlf : Bytes
crlf = 13 ∷ 10 ∷ []

-- "%s %d %s\r\n"
abbrev pub status_line : HttpVersion → HttpResponse → Bytes
status_line version code =
    aisl_http_version_to_string version
    ++ (codes " "
        ++ (decimal (response_code code)
            ++ (codes " " ++ (aisl_http_response_to_string code ++ crlf))))

-- "%s: %s\r\n"
abbrev pub header_line : Bytes → Bytes → Bytes
header_line key value = key ++ (codes ": " ++ (value ++ crlf))

abbrev pub server_line : Bytes
server_line = codes "Server: AISL" ++ crlf

abbrev pub content_type_line : Bytes
content_type_line = codes "Content-Type: text/html; encoding=utf-8" ++ crlf

-- "Content-Length: %" PRIu64 "\r\n"
abbrev pub content_length_line : ℕ → Bytes
content_length_line n = codes "Content-Length: " ++ (decimal n ++ crlf)

abbrev pub connection_line : Bool → Bytes
connection_line keepalive =
    codes "Connection: " ++ ((if keepalive then codes "keepalive" else codes "close") ++ crlf)

abbrev pub mark_server : Conn → Conn
mark_server c = with_stream c (record c.stream { server_header_sent = true })

abbrev pub mark_content_type : Conn → Conn
mark_content_type c = with_stream c (record c.stream { content_type_header_sent = true })

abbrev pub mark_content_length : Conn → Conn
mark_content_length c = with_stream c (record c.stream { content_length_header_sent = true })

abbrev pub mark_connection : Conn → Conn
mark_connection c = with_stream c (record c.stream { connection_header_sent = true })

abbrev pub at_body : Conn → Conn
at_body c =
    with_stream c (record c.stream { body_offset = c.stream.buffer.used; state = send_body })

module _ {W : Type 0} (alloc : Alloc W) where
  -- A call of a buffer's operation on the stream's buffer.
  abbrev pub on_buffer : (W → Buffer → W × Buffer × Option ℕ) → W → Conn → W × Conn × Option ℕ
  on_buffer f w c = let r = f w c.stream.buffer in (r.0, with_buffer c r.1, r.2)

  abbrev pub append : Bytes → W → Conn → W × Conn × Option ℕ
  append text = on_buffer (λ w b. buffer_append alloc w b text)

  abbrev pub printf : Bytes → W → Conn → W × Conn × Option ℕ
  printf text = on_buffer (λ w b. buffer_append_vprintf alloc w b text)

  -- `buffer_init` with the uint64_t taken to its int32_t parameter. A size that stays negative when
  -- it is rounded is one that `realloc` refuses; -1 to -4095 are rounded to 4096, -4097 to -8191 to
  -- 0.
  unfoldable pub init_truncated : W → Buffer → ℕ → W × Buffer × Option ℕ
  init_truncated w b len =
      let low = len % 2 ^ 32 in
      let below = 2 ^ 32 - low in
      if ltb low (2 ^ 31)
      then buffer_init alloc w b low
      else if below % 4096 == 0 || leb 8192 below
      then (w, b, none)
      else if ltb below 4096
      then initialized alloc (resized alloc b 4096 (alloc.realloc w b.mem 4096))
      else initialized alloc (resized alloc b 0 (alloc.realloc w b.mem 0))

  unfoldable pub responded : W × Conn × Option ℕ → W × Conn × Status
  responded (w, c, none) = (w, c, malloc_error)
  responded (w, c, some _) = (w, with_state c send_header, success)

  -- The result of `buffer_init` is not looked at.
  unfoldable pub aisl_response : W → Conn → HttpResponse → ℕ → W × Conn × Status
  unfolding responded
  aisl_response w c code len =
      let asked = with_stream c (record c.stream { http_response = code; content_length = len }) in
      let init =
        on_buffer (λ w b. init_truncated w b (if len == auto_length then 0 else len)) w asked in
      if ltb (rank ready) (rank c.stream.state)
      then (w, c, idle)
      else responded (printf (status_line (aisl_get_http_version c) code) init.0 init.1)

  unfoldable pub aisl_start_response : W → Conn → W × Conn × Status
  aisl_start_response w c = aisl_response w c HttpResponse.ok auto_length

  -- A part of `aisl_stream_close_headers`; `false` is its return of AISL_MALLOC_ERROR.
  abbrev pub Part : Type 0
  Part = W → Conn → W × Conn × Bool

  unfoldable pub continued : Part → W × Conn × Bool → W × Conn × Bool
  continued next (w, c, false) = (w, c, false)
  continued next (w, c, true) = next w c

  infixr 30 ◌>>◌
  unfoldable pub ◌>>◌ : Part → Part → Part
  unfolding continued
  (first >> next) w c = continued next (first w c)

  unfoldable pub marked : (Conn → Conn) → W × Conn × Option ℕ → W × Conn × Bool
  marked mark (w, c, none) = (w, c, false)
  marked mark (w, c, some _) = (w, mark c, true)

  -- `if (!(flags & FLAG)) { l = ...; if (l == -1) return ...; flags |= FLAG; }`
  unfoldable pub unless : Bool → (W → Conn → W × Conn × Option ℕ) → (Conn → Conn) → Part
  unfolding marked
  unless sent op mark w c = if sent then (w, c, true) else marked mark (op w c)

  unfoldable pub started : W × Conn × Status → W × Conn × Bool
  started (w, c, malloc_error) = (w, c, false)
  started (w, c, _) = (w, c, true)

  unfoldable pub start_part : Part
  unfolding started
  start_part w c = started (aisl_start_response w c)

  unfoldable pub server_part : Part
  server_part w c = unless c.stream.server_header_sent (append server_line) mark_server w c

  unfoldable pub content_type_part : Part
  content_type_part w c =
      unless c.stream.content_type_header_sent (append content_type_line) mark_content_type w c

  unfoldable pub content_length_part : Part
  content_length_part w c =
      unless (c.stream.content_length_header_sent || c.stream.content_length == auto_length)
        (printf (content_length_line c.stream.content_length)) mark_content_length w c

  unfoldable pub connection_part : Part
  connection_part w c =
      unless c.stream.connection_header_sent
        (printf (connection_line (aisl_client_get_keepalive c))) mark_connection w c

  unfoldable pub blank_part : Part
  blank_part = unless false (append crlf) at_body

  unfoldable pub aisl_stream_close_headers : Part
  aisl_stream_close_headers =
      start_part >> server_part >> content_type_part >> content_length_part >> connection_part
      >> blank_part
