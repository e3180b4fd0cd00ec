-- ===== src/Stream/Refusal.antt =====
-- Why the functions of src/stream.c that write a response fail: `realloc` has just refused.
use aisl.Prelude.{
  ℕ, ◌≤◌, ◌⊎◌, ◌==◌, if◌then◌else◌, ◌≡◌, refl, Option, none, some, Bytes, Bool, true, false, ltb,
  Bool-cases, inl, inr, tests, le→ltb,
}
use aisl.Prelude.Alloc.{Alloc}
use aisl.Buffer.{Buffer, buffer_append, buffer_append_vprintf}
use aisl.Buffer.Grow.{IsValid}
use aisl.Buffer.Refusal.{
  Refused, IsExcused, buffer_append-IsExcused, buffer_append_vprintf-IsExcused,
}
use aisl.Types.{Status, success, malloc_error, auto_length}
use aisl.Types.Response.{HttpResponse}
use aisl.Stream.{Conn, rank, ready, with_buffer}
use aisl.Stream.Response.{
  Part, append, printf, aisl_response, responded, aisl_start_response, started, marked, unless,
  continued, ◌>>◌, start_part, server_part, content_type_part, content_length_part, connection_part,
  blank_part, aisl_stream_close_headers, init_truncated, status_line,
}
use aisl.Stream.Draft.{
  Draft, draft, Drafted, Drafts, server, content_type, content_length, connection,
  server_part-Drafts, content_type_part-Drafts, content_length_part-Drafts, connection_part-Drafts,
}
use aisl.Stream.Status.{IsEmpty, init_truncated-IsEmpty}
use aisl.Stream.Closed.{begun, IsReady, start_part-Drafted, lines}

module _ {W : Type 0} (alloc : Alloc W) where
  -- The return of AISL_MALLOC_ERROR by a part comes right behind a refused `realloc`.
  abbrev pub IsExcusedPart : W × Conn × Bool → Type 0
  IsExcusedPart (w, _, false) = Refused alloc w
  IsExcusedPart (w, _, true) = Unit {0}

  -- Success, or AISL_MALLOC_ERROR right behind a refused `realloc`.
  abbrev pub IsExcusedStatus : W × Conn × Status → Type 0
  IsExcusedStatus (w, _, r) = (r ≡ success) ⊎ ((r ≡ malloc_error) × Refused alloc w)

  -- A part that fails on a well-formed stream only where `realloc` refuses.
  abbrev Excuses : Part alloc → Type 0
  Excuses part = (w : W) (c : Conn) → IsValid c.stream.buffer → IsExcusedPart (part w c)

  responded-IsExcused :
      (r : W × Conn × Option ℕ) → IsExcused alloc r → IsExcusedStatus (responded alloc r)
  unfolding responded
  responded-IsExcused (w, c, none) h = inr (refl, h)
  responded-IsExcused (w, c, some n) h = inl refl

  pub aisl_response-IsExcused :
      (w : W) (c : Conn) (code : HttpResponse) (len : ℕ)
      → rank c.stream.state ≤ rank ready
      → IsEmpty c.stream.buffer
      → IsExcusedStatus (aisl_response alloc w c code len)
  aisl_response-IsExcused w c code len le h =
      let n = if len == auto_length then 0 else len in
      let init = init_truncated alloc w c.stream.buffer n in
      let empty = init_truncated-IsEmpty alloc w c.stream.buffer n h in
      unfold aisl_response in
      rw (le→ltb (rank ready) (rank c.stream.state) le) (
        responded-IsExcused _ (
          buffer_append_vprintf-IsExcused alloc init.0 init.1 (status_line c.http_version code)
            (empty.0)))

  started-IsExcused : (r : W × Conn × Status) → IsExcusedStatus r → IsExcusedPart (started alloc r)
  unfolding started
  started-IsExcused (w, c, r) (inl e) = rw e tt
  started-IsExcused (w, c, r) (inr (e, h)) = rw e h

  start_part-IsExcused : (w : W) (c : Conn) → IsReady c → IsExcusedPart (start_part alloc w c)
  start_part-IsExcused w c (v, empty) = elim (Bool-cases (ltb (rank ready) (rank c.stream.state))) [
    | inl e ↦ unfold start_part aisl_start_response aisl_response started in rw e tt
    | inr e ↦
        let le : rank c.stream.state ≤ rank ready = omega (tests, e) in
        unfold start_part aisl_start_response in
        started-IsExcused _
          (aisl_response-IsExcused w c HttpResponse.ok auto_length le (v, empty le))
  ]

  continued-IsExcused :
      (next : Part alloc) (d : Draft) (r : W × Conn × Bool)
      → Excuses next
      → Drafted d r
      → IsExcusedPart r
      → IsExcusedPart (continued alloc next r)
  unfolding continued
  continued-IsExcused next d (w, c, false) n h e = e
  continued-IsExcused next d (w, c, true) n (v, _) e = n w c v

  >>-Excuses :
      (first next : Part alloc) (f : Draft → Draft)
      → Drafts alloc first f
      → Excuses first
      → Excuses next
      → Excuses (◌>>◌ alloc first next)
  unfolding ◌>>◌
  >>-Excuses first next f d h n w c v =
      continued-IsExcused next (f (draft c)) (first w c) n (d w c v) (h w c v)

  marked-IsExcused :
      (mark : Conn → Conn) (r : W × Conn × Option ℕ)
      → IsExcused alloc r
      → IsExcusedPart (marked alloc mark r)
  unfolding marked
  marked-IsExcused mark (w, c, none) h = h
  marked-IsExcused mark (w, c, some n) h = tt

  pub on_buffer-IsExcused :
      (c : Conn) (r : W × Buffer × Option ℕ)
      → IsExcused alloc r
      → IsExcused alloc {A = Conn} (r.0, with_buffer c r.1, r.2)
  on_buffer-IsExcused c (w, b, none) h = h
  on_buffer-IsExcused c (w, b, some n) h = tt

  pub append-IsExcused : (w : W) (c : Conn) (text : Bytes) → IsExcused alloc (append alloc text w c)
  append-IsExcused w c text =
      on_buffer-IsExcused c (buffer_append alloc w c.stream.buffer text)
        (buffer_append-IsExcused alloc w c.stream.buffer text)

  printf-IsExcused :
      (w : W) (c : Conn) (text : Bytes)
      → IsValid c.stream.buffer
      → IsExcused alloc (printf alloc text w c)
  printf-IsExcused w c text v =
      on_buffer-IsExcused c (buffer_append_vprintf alloc w c.stream.buffer text)
        (buffer_append_vprintf-IsExcused alloc w c.stream.buffer text v)

  unless-IsExcused :
      (sent : Bool) (op : W → Conn → W × Conn × Option ℕ) (mark : Conn → Conn) (w : W) (c : Conn)
      → IsExcused alloc (op w c)
      → IsExcusedPart (unless alloc sent op mark w c)
  unfolding unless
  unless-IsExcused true op mark w c h = tt
  unless-IsExcused false op mark w c h = marked-IsExcused mark (op w c) h

  server_part-Excuses : Excuses (server_part alloc)
  unfolding server_part
  server_part-Excuses w c v = unless-IsExcused _ _ _ w c (append-IsExcused w c _)

  content_type_part-Excuses : Excuses (content_type_part alloc)
  unfolding content_type_part
  content_type_part-Excuses w c v = unless-IsExcused _ _ _ w c (append-IsExcused w c _)

  content_length_part-Excuses : Excuses (content_length_part alloc)
  unfolding content_length_part
  content_length_part-Excuses w c v = unless-IsExcused _ _ _ w c (printf-IsExcused w c _ v)

  connection_part-Excuses : Excuses (connection_part alloc)
  unfolding connection_part
  connection_part-Excuses w c v = unless-IsExcused _ _ _ w c (printf-IsExcused w c _ v)

  blank_part-Excuses : Excuses (blank_part alloc)
  unfolding blank_part
  blank_part-Excuses w c v = unless-IsExcused false _ _ w c (append-IsExcused w c _)

  lines-Excuses : Excuses (lines alloc)
  lines-Excuses = >>-Excuses _ _ server (server_part-Drafts alloc) server_part-Excuses (
      >>-Excuses _ _ content_type (content_type_part-Drafts alloc) content_type_part-Excuses (
        >>-Excuses _ _ content_length (content_length_part-Drafts alloc) content_length_part-Excuses
          (>>-Excuses _ _ connection (connection_part-Drafts alloc) connection_part-Excuses
            blank_part-Excuses)))

  -- `aisl_stream_close_headers` fails only where `realloc` refuses.
  pub aisl_stream_close_headers-IsExcused :
      (w : W) (c : Conn) → IsReady c → IsExcusedPart (aisl_stream_close_headers alloc w c)
  unfolding aisl_stream_close_headers ◌>>◌
  aisl_stream_close_headers-IsExcused w c h =
      continued-IsExcused (lines alloc) (begun c) (start_part alloc w c) lines-Excuses
        (start_part-Drafted alloc w c h) (start_part-IsExcused w c h)
