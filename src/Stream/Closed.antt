-- ===== src/Stream/Closed.antt =====
-- aisl_stream_close_headers, aisl_write and aisl_flush of src/stream.c: the whole response.
use aisl.Prelude.{◌≤◌, ◌≡◌, refl, sym, ◌∙◌, ltb, if◌then◌else◌, Bool-cases, inl, inr, tests}
use aisl.Prelude.Alloc.{Alloc}
use aisl.Buffer.{null}
use aisl.Buffer.Grow.{IsValid}
use aisl.Types.{Status, auto_length}
use aisl.Types.Response.{HttpResponse}
use aisl.Stream.{Conn, rank, ready, send_header, with_state, with_buffer}
use aisl.Stream.Response.{
  status_line, aisl_response, aisl_start_response, started, start_part, Part, ◌>>◌, server_part,
  content_type_part, content_length_part, connection_part, blank_part, aisl_stream_close_headers,
}
use aisl.Stream.Draft.{
  Draft, draft, Drafted, Drafts, server, content_type, content_length, connection, blank,
  server_part-Drafts, content_type_part-Drafts, content_length_part-Drafts, connection_part-Drafts,
  blank_part-Drafts, >>-Drafts, continued-Drafted,
}
use aisl.Stream.Status.{Answered, answering, aisl_response-Answered}

-- The draft that `aisl_start_response` leaves.
abbrev pub fresh : Conn → Draft
fresh c = record {
  text = status_line c.http_version HttpResponse.ok;
  rest = with_buffer (with_state (answering HttpResponse.ok auto_length c) send_header) null;
}

-- The draft when the headers are closed: of a response begun before, or else of "200 OK".
abbrev pub begun : Conn → Draft
begun c = if ltb (rank ready) (rank c.stream.state) then draft c else fresh c

abbrev pub headed : Draft → Draft
headed d = connection (content_length (content_type (server d)))

-- Where no response has begun, the buffer holds nothing.
abbrev pub IsReady : Conn → Type 0
IsReady c = IsValid c.stream.buffer × (rank c.stream.state ≤ rank ready → c.stream.buffer.used ≡ 0)

module _ {W : Type 0} (alloc : Alloc W) where
  Answered-Drafted :
      (c : Conn) (d : Draft) (r : W × Conn × Status)
      → Answered c HttpResponse.ok auto_length r
      → d ≡ fresh c
      → Drafted d (started alloc r)
  unfolding started
  Answered-Drafted c d (w, c', r) (inl (e, v, same)) h = rw e (v, same ∙ sym h)
  Answered-Drafted c d (w, c', r) (inr (e, v, _)) h = rw e (v.0)

  pub start_part-Drafted : (w : W) (c : Conn) → IsReady c → Drafted (begun c) (start_part alloc w c)
  start_part-Drafted w c (v, empty) = elim (Bool-cases (ltb (rank ready) (rank c.stream.state))) [
    | inl e ↦ unfold start_part aisl_start_response aisl_response started in rw e (v, refl)
    | inr e ↦
        let le : rank c.stream.state ≤ rank ready = omega (tests, e) in
        unfold start_part aisl_start_response in
        Answered-Drafted c (begun c) _
          (aisl_response-Answered alloc w c HttpResponse.ok auto_length le (v, empty le))
          (rw e refl)
  ]

  -- The parts behind the first.
  abbrev pub lines : Part alloc
  lines = ◌>>◌ alloc (server_part alloc) (
      ◌>>◌ alloc (content_type_part alloc) (
        ◌>>◌ alloc (content_length_part alloc)
          (◌>>◌ alloc (connection_part alloc) (blank_part alloc))))

  lines-Drafts : Drafts alloc lines (λ d. blank (headed d))
  lines-Drafts =
      >>-Drafts alloc _ _ server (λ d. blank (connection (content_length (content_type d))))
        (server_part-Drafts alloc)
        (>>-Drafts alloc _ _ content_type (λ d. blank (connection (content_length d)))
          (content_type_part-Drafts alloc)
          (>>-Drafts alloc _ _ content_length (λ d. blank (connection d))
            (content_length_part-Drafts alloc)
            (>>-Drafts alloc _ _ connection blank (connection_part-Drafts alloc)
              (blank_part-Drafts alloc))))

  -- `aisl_stream_close_headers` writes what is missing of status line, "Server", "Content-Type",
  -- announced "Content-Length" and "Connection", in this order, and the empty line, or fails.
  pub aisl_stream_close_headers-Drafted :
      (w : W) (c : Conn)
      → IsReady c
      → Drafted (blank (headed (begun c))) (aisl_stream_close_headers alloc w c)
  unfolding aisl_stream_close_headers ◌>>◌
  aisl_stream_close_headers-Drafted w c h =
      continued-Drafted alloc lines (λ d. blank (headed d)) (begun c) (start_part alloc w c)
        lines-Drafts (start_part-Drafted w c h)
