-- ===== src/Stream/Reply.antt =====
-- src/stream.c: a handler that writes a body and flushes it.
use aisl.Prelude.{
  ℕ, ◌≤◌, ◌≡◌, refl, Option, none, some, ◌++◌, [], Bytes, Bool, true, false, length, ltb, arith,
  le→ltb,
}
use aisl.Prelude.Alloc.{Alloc}
use aisl.Buffer.Grow.{IsValid}
use aisl.Buffer.Refusal.{Refused}
use aisl.Stream.Refusal.{IsExcusedPart, append-IsExcused, aisl_stream_close_headers-IsExcused}
use aisl.Types.Response.{HttpResponse}
use aisl.Stream.{Conn, rank, ready, send_header, send_body, with_stream}
use aisl.Stream.Response.{
  status_line, server_line, content_type_line, connection_line, append, aisl_stream_close_headers,
}
use aisl.Stream.Draft.{Draft, Drafted, blank}
use aisl.Stream.Closed.{begun, headed, IsReady, aisl_stream_close_headers-Drafted}
use aisl.Stream.Write.{sized, in_body, with_closed_headers, aisl_write, aisl_flush}
use aisl.Stream.Status.{IsEmpty}
use aisl.Stream.Page.{Page, blank-Page, Written, Adds-Written, Flushed, aisl_flush-Flushed}
use aisl.Stream.Draft.{append-Adds}

below_body : (n : ℕ) → n ≤ rank send_header → ltb n (rank send_body) ≡ true
unfolding rank
below_body n h = ground arith

ranks : (n : ℕ) → n ≤ rank ready → n ≤ rank send_header
unfolding rank
ranks n h = omega arith

-- `c` before any header was written by the handler.
abbrev pub unmarked : Conn → Conn
unmarked c = with_stream c (record c.stream {
  server_header_sent = false;
  content_type_header_sent = false;
  content_length_header_sent = false;
  connection_header_sent = false;
})

-- The header lines that the library writes by itself.
abbrev pub default_head : Conn → Bytes
default_head c =
    ((status_line c.http_version HttpResponse.ok ++ server_line) ++ content_type_line)
    ++ connection_line c.keepalive

default_head_lem :
    (c : Conn)
    → rank c.stream.state ≤ rank ready
    → ((headed (begun (unmarked c))).text ≡ default_head c)
      × ((headed (begun (unmarked c))).rest.stream.content_length_header_sent ≡ false)
default_head_lem c le = rw (le→ltb (rank ready) (rank c.stream.state) le) (refl, refl)

module _ {W : Type 0} (alloc : Alloc W) where
  -- The first `aisl_write`: -1 with a well-formed buffer where `realloc` has just refused, or the
  -- headers with the data as the body.
  abbrev pub Started : Bool → Bytes → Bytes → W × Conn × Option ℕ → Type 0
  Started sent head text (w, c, none) = IsValid c.stream.buffer × Refused alloc w
  Started sent head text (_, c, some n) = (n ≡ length text) × Page c sent head text

  pub Started-same :
      (sent sent' : Bool) (head head' text text' : Bytes) (r : W × Conn × Option ℕ)
      → sent ≡ sent'
      → head ≡ head'
      → text ≡ text'
      → Started sent head text r
      → Started sent' head' text' r
  Started-same sent sent' head head' text text' r e f g h = rw (← e, ← f, ← g) h

  Written-Started :
      (sent : Bool) (head text : Bytes) (r : W × Conn × Option ℕ)
      → Written alloc sent head [] text r
      → Started sent head text r
  Written-Started sent head text (w, c, none) (p, h) = (p.valid, h)
  Written-Started sent head text (w, c, some n) p = p

  in_body-Started :
      (d : Draft) (text : Bytes) (r : W × Conn × Bool)
      → Drafted (blank d) r
      → IsExcusedPart alloc r
      → Started d.rest.stream.content_length_header_sent d.text text
          (in_body alloc (append alloc text) r)
  unfolding in_body
  in_body-Started d text (w, c, false) v h = (v, h)
  in_body-Started d text (w, c, true) (v, e) h =
      let p = blank-Page c d v e in
      let sent = d.rest.stream.content_length_header_sent in
      Written-Started sent d.text text (append alloc text w c) (
        Adds-Written alloc c sent d.text [] text (append alloc text w c) p
          (append-Adds alloc w c text (p.valid)) (append-IsExcused alloc w c text))

  -- The first `aisl_write` of a response closes its headers and makes its data the body.
  pub aisl_write-Started :
      (w : W) (c : Conn) (text : Bytes) (d_len : Option ℕ)
      → IsReady c
      → rank c.stream.state ≤ rank send_header
      → let d = headed (begun c) in
        Started d.rest.stream.content_length_header_sent d.text
          (sized text d_len)
          (aisl_write alloc w c text d_len)
  unfolding aisl_write with_closed_headers
  aisl_write-Started w c text d_len h le =
      let first : ltb (rank c.stream.state) (rank send_body) ≡ true = below_body _ le in
      rw first (
        in_body-Started (headed (begun c)) (sized text d_len) (aisl_stream_close_headers alloc w c)
          (aisl_stream_close_headers-Drafted alloc w c h)
          (aisl_stream_close_headers-IsExcused alloc w c h))

  -- The first write and the flush: -1 with a well-formed buffer where `realloc` has just refused, or
  -- the length written and what `aisl_flush` leaves of the page.
  abbrev pub Replied : Bool → Bytes → Bytes → W × Conn × Option ℕ → Type 0
  Replied sent head text (w, c, none) = IsValid c.stream.buffer × Refused alloc w
  Replied sent head text (w, c, some n) =
      (n ≡ length text) × Flushed alloc sent head text (aisl_flush alloc w c)

  Started-Replied :
      (sent : Bool) (head text : Bytes) (r : W × Conn × Option ℕ)
      → Started sent head text r
      → Replied sent head text r
  Started-Replied sent head text (w, c, none) v = v
  Started-Replied sent head text (w, c, some n) (l, p) =
      (l, aisl_flush-Flushed alloc w c sent head text p)

  -- On a stream whose buffer is well formed, empty unless a response has begun, and whose headers
  -- are still open, one `aisl_write` and a flush leave the header lines begun, those added by
  -- `aisl_stream_close_headers`, the length of the data unless one was announced, an empty line
  -- and the data. Only where `realloc` has just refused, the write answers -1 and leaves a
  -- well-formed buffer, or the flush answers AISL_MALLOC_ERROR and leaves the page as it was.
  pub aisl_write-aisl_flush :
      (w : W) (c : Conn) (text : Bytes) (d_len : Option ℕ)
      → IsReady c
      → rank c.stream.state ≤ rank send_header
      → let d = headed (begun c) in
        Replied d.rest.stream.content_length_header_sent d.text
          (sized text d_len)
          (aisl_write alloc w c text d_len)
  aisl_write-aisl_flush w c text d_len h le =
      let d = headed (begun c) in
      Started-Replied d.rest.stream.content_length_header_sent d.text (sized text d_len)
        (aisl_write alloc w c text d_len) (aisl_write-Started w c text d_len h le)

  Replied-same :
      (sent sent' : Bool) (head head' text : Bytes) (r : W × Conn × Option ℕ)
      → sent ≡ sent'
      → head ≡ head'
      → Replied sent head text r
      → Replied sent' head' text r
  Replied-same sent sent' head head' text r e f h = rw (← e, ← f) h

  -- On a stream on which no response has begun and whose buffer is well formed and empty, a
  -- handler that only writes data with one `aisl_write` and flushes sends "200 OK", the headers of
  -- the library with the length of the data, an empty line and the data. Only where `realloc` has
  -- just refused, the write answers -1 and leaves a well-formed buffer, or the flush answers
  -- AISL_MALLOC_ERROR and leaves the page as it was.
  pub default_reply :
      (w : W) (c : Conn) (text : Bytes) (d_len : Option ℕ)
      → IsEmpty c.stream.buffer
      → rank c.stream.state ≤ rank ready
      → Replied false
          (default_head c)
          (sized text d_len)
          (aisl_write alloc w (unmarked c) text d_len)
  default_reply w c text d_len h le =
      let (e, f) = default_head_lem c le in
      Replied-same _ _ _ _ (sized text d_len) (aisl_write alloc w (unmarked c) text d_len) f e
        (aisl_write-aisl_flush w (unmarked c) text d_len (h.0, λ _. h.1) (ranks _ le))
