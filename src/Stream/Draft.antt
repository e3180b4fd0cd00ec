-- ===== src/Stream/Draft.antt =====
-- aisl_stream_close_headers as a function of the text written so far.
use aisl.Prelude.{
  ℕ, ◌≡◌, refl, sym, ap, ◌∙◌, Option, none, some, ◌++◌, Bytes, Bool, true, false, ◌||◌, length,
  ◌==◌, if◌then◌else◌,
}
use aisl.Prelude.Alloc.{Alloc}
use aisl.Buffer.{null, contents}
use aisl.Buffer.Grow.{IsValid, length-contents}
use aisl.Buffer.Contents.{Outcome, buffer_append-Outcome}
use aisl.Buffer.Print.{buffer_append_vprintf-Outcome}
use aisl.Types.{auto_length}
use aisl.Stream.{Conn, send_body, with_stream, with_buffer}
use aisl.Stream.Response.{
  crlf, server_line, content_type_line, content_length_line, connection_line, mark_server,
  mark_content_type, mark_content_length, mark_connection, Part, append, printf, marked, unless,
  continued, ◌>>◌, server_part, content_type_part, content_length_part, connection_part, blank_part,
  at_body,
}

-- The text of a response, and the rest of its state.
pub record Draft : Type 0 where
  pub text : Bytes
  pub rest : Conn

abbrev pub draft : Conn → Draft
draft c = record { text = contents c.stream.buffer; rest = with_buffer c null }

abbrev pub line : Bool → Bytes → (Conn → Conn) → Draft → Draft
line sent text mark d = if sent then d else record { text = d.text ++ text; rest = mark d.rest }

abbrev pub server : Draft → Draft
server d = line d.rest.stream.server_header_sent server_line mark_server d

abbrev pub content_type : Draft → Draft
content_type d = line d.rest.stream.content_type_header_sent content_type_line mark_content_type d

abbrev pub content_length : Draft → Draft
content_length d =
    line (d.rest.stream.content_length_header_sent || d.rest.stream.content_length == auto_length)
      (content_length_line d.rest.stream.content_length) mark_content_length d

abbrev pub connection : Draft → Draft
connection d =
    line d.rest.stream.connection_header_sent (connection_line d.rest.keepalive) mark_connection d

abbrev body_at : ℕ → Conn → Conn
body_at n c = with_stream c (record c.stream { body_offset = n; state = send_body })

abbrev pub blank : Draft → Draft
blank d = record { text = d.text ++ crlf; rest = body_at (length (d.text ++ crlf)) d.rest }

pub Draft-path : {d e : Draft} → d.text ≡ e.text → d.rest ≡ e.rest → d ≡ e
Draft-path p q = λ i. record { text = p i; rest = q i }

-- The call of a part succeeds with the draft `d`, or fails with the buffer still well formed.
abbrev pub Drafted : {W : Type 0} → Draft → W × Conn × Bool → Type 0
Drafted d (_, c, false) = IsValid c.stream.buffer
Drafted d (_, c, true) = IsValid c.stream.buffer × (draft c ≡ d)

-- What an operation leaves that adds `text` to the stream's buffer and changes nothing else.
abbrev pub Adds : {W : Type 0} → Conn → Bytes → W × Conn × Option ℕ → Type 0
Adds c text (_, c', r) =
    Outcome c.stream.buffer (contents c.stream.buffer ++ text) (length text) c'.stream.buffer r
    × (with_buffer c' null ≡ with_buffer c null)

module _ {W : Type 0} (alloc : Alloc W) where
  -- `part` does to every well-formed stream what `f` does to its draft.
  abbrev pub Drafts : Part alloc → (Draft → Draft) → Type 0
  Drafts part f = (w : W) (c : Conn) → IsValid c.stream.buffer → Drafted (f (draft c)) (part w c)

  pub continued-Drafted :
      (next : Part alloc) (g : Draft → Draft) (d : Draft) (r : W × Conn × Bool)
      → Drafts next g
      → Drafted d r
      → Drafted (g d) (continued alloc next r)
  unfolding continued
  continued-Drafted next g d (w, c, false) n h = h
  continued-Drafted next g d (w, c, true) n (v, e) = rw (← e) (n w c v)

  pub >>-Drafts :
      (first next : Part alloc) (f g : Draft → Draft)
      → Drafts first f
      → Drafts next g
      → Drafts (◌>>◌ alloc first next) (λ d. g (f d))
  unfolding ◌>>◌
  >>-Drafts first next f g h n w c v =
      continued-Drafted next g (f (draft c)) (first w c) n (h w c v)

  pub append-Adds :
      (w : W) (c : Conn) (text : Bytes)
      → IsValid c.stream.buffer
      → Adds c text (append alloc text w c)
  append-Adds w c text v = (buffer_append-Outcome alloc w c.stream.buffer text v, refl)

  pub printf-Adds :
      (w : W) (c : Conn) (text : Bytes)
      → IsValid c.stream.buffer
      → Adds c text (printf alloc text w c)
  printf-Adds w c text v =
      ((buffer_append_vprintf-Outcome alloc 0 w c.stream.buffer text v).0, refl)

  -- A mark changes other fields than the buffer.
  abbrev Marks : (Conn → Conn) → Type 0
  Marks mark =
      (c : Conn)
      → ((mark c).stream.buffer ≡ c.stream.buffer)
        × (with_buffer (mark c) null ≡ mark (with_buffer c null))

  marked-Drafted :
      (mark : Conn → Conn) (c : Conn) (text : Bytes) (r : W × Conn × Option ℕ)
      → Marks mark
      → Adds c text r
      → Drafted (line false text mark (draft c)) (marked alloc mark r)
  unfolding marked
  marked-Drafted mark c text (w, c', none) m h = h.0.0
  marked-Drafted mark c text (w, c', some n) m ((_, v, eq), same) =
      (rw ((m c').0) v, Draft-path (ap contents (m c').0 ∙ eq) ((m c').1 ∙ ap mark same))

  unless-Drafts :
      (sent : Bool) (op : W → Conn → W × Conn × Option ℕ) (mark : Conn → Conn) (text : Bytes)
      (w : W) (c : Conn)
      → Marks mark
      → IsValid c.stream.buffer
      → Adds c text (op w c)
      → Drafted (line sent text mark (draft c)) (unless alloc sent op mark w c)
  unfolding unless
  unless-Drafts true op mark text w c m v h = (v, refl)
  unless-Drafts false op mark text w c m v h = marked-Drafted mark c text (op w c) m h

  pub server_part-Drafts : Drafts (server_part alloc) server
  unfolding server_part
  server_part-Drafts w c v =
      unless-Drafts c.stream.server_header_sent _ mark_server server_line w c (λ c. (refl, refl)) v
        (append-Adds w c server_line v)

  pub content_type_part-Drafts : Drafts (content_type_part alloc) content_type
  unfolding content_type_part
  content_type_part-Drafts w c v =
      unless-Drafts c.stream.content_type_header_sent _ mark_content_type content_type_line w c
        (λ c. (refl, refl)) v (append-Adds w c content_type_line v)

  pub content_length_part-Drafts : Drafts (content_length_part alloc) content_length
  unfolding content_length_part
  content_length_part-Drafts w c v =
      let text = content_length_line c.stream.content_length in
      unless-Drafts (c.stream.content_length_header_sent || c.stream.content_length == auto_length)
        _ mark_content_length text w c (λ c. (refl, refl)) v (printf-Adds w c text v)

  pub connection_part-Drafts : Drafts (connection_part alloc) connection
  unfolding connection_part
  connection_part-Drafts w c v =
      let text = connection_line c.keepalive in
      unless-Drafts c.stream.connection_header_sent _ mark_connection text w c (λ c. (refl, refl)) v
        (printf-Adds w c text v)

  at_body-Drafted :
      (c : Conn) (r : W × Conn × Option ℕ)
      → Adds c crlf r
      → Drafted (blank (draft c)) (marked alloc at_body r)
  unfolding marked
  at_body-Drafted c (w, c', none) h = h.0.0
  at_body-Drafted c (w, c', some n) ((_, v, eq), same) = (
    v,
    Draft-path eq (
        ap (λ k. body_at k (with_buffer c' null)) (sym (length-contents v) ∙ ap length eq)
        ∙ ap (body_at (length (contents c.stream.buffer ++ crlf))) same),
  )

  pub blank_part-Drafts : Drafts (blank_part alloc) blank
  unfolding blank_part unless
  blank_part-Drafts w c v = at_body-Drafted c _ (append-Adds w c crlf v)
