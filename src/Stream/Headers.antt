-- ===== src/Stream/Headers.antt =====
-- aisl_header of src/stream.c: the handler's own header lines.
use aisl.Prelude.{
  if_false, if_true, ◌<◌, ◌≡◌, refl, ap, ◌∙◌, Option, some, Bytes, codes, Bool, true, false, ◌&&◌,
  not, ltb, if◌then◌else◌, arith,
}
use aisl.Prelude.Alloc.{Alloc}
use aisl.Buffer.{Buffer}
use aisl.Buffer.Grow.{IsValid}
use aisl.Stream.{Conn, rank, send_header}
use aisl.Stream.Response.{header_line, mark_content_type, mark_content_length, mark_connection}
use aisl.Stream.Draft.{Adds, printf-Adds}
use aisl.Stream.Write.{
  keyed, asked_keepalive, noted, verified, aisl_stream_verify_header, if_verified, aisl_header,
}

if_buffer :
    (t : Bool) (a b : Conn) (s : Buffer)
    → a.stream.buffer ≡ s
    → b.stream.buffer ≡ s
    → (if t then a else b).stream.buffer ≡ s
if_buffer true a b s e f = e
if_buffer false a b s e f = f

noted_buffer :
    (c : Conn) (key : Bytes) (value : Option Bytes)
    → (noted c key value).stream.buffer ≡ c.stream.buffer
unfolding noted
noted_buffer c key value =
    let named = λ (sent : Bool) (name : Bytes). not sent && keyed key name in
    let with_length = named c.stream.content_length_header_sent (codes "content-length") in
    let with_type = named c.stream.content_type_header_sent (codes "content-type") in
    let third = if with_length then mark_content_length c else c in
    let second = if with_type then mark_content_type c else third in
    let first = mark_connection (record c { keepalive = asked_keepalive c value }) in
    let s = c.stream.buffer in
    if_buffer (named c.stream.connection_header_sent (codes "connection")) first second s refl (
      if_buffer with_type (mark_content_type c) third s refl
        (if_buffer with_length (mark_content_length c) c s refl refl))

module _ {W : Type 0} (alloc : Alloc W) where
  verify_late :
      (w : W) (c : Conn) (key : Bytes) (value : Option Bytes)
      → rank send_header < rank c.stream.state
      → aisl_stream_verify_header alloc w c key value ≡ (w, c, some 0)
  unfolding aisl_stream_verify_header
  verify_late w c key value h =
      let state = rank c.stream.state in
      let e : ltb state (rank send_header) ≡ false = ground arith in
      let f : ltb (rank send_header) state ≡ true = ground arith in
      if_false _ _ _ e ∙ if_true _ _ _ f

  verify_open :
      (w : W) (c : Conn) (key : Bytes) (value : Option Bytes)
      → c.stream.state ≡ send_header
      → aisl_stream_verify_header alloc w c key value ≡ (w, noted c key value, some 1)
  unfolding aisl_stream_verify_header verified
  verify_open w c key value h =
      let at = ap rank h in
      let state = rank c.stream.state in
      let e : ltb state (rank send_header) ≡ false = ground (arith, at) in
      let f : ltb (rank send_header) state ≡ false = ground (arith, at) in
      if_false _ _ _ e ∙ if_false _ _ _ f

  -- While the headers are open, `aisl_header` adds one line with its key and value, and notes
  -- which header it was; once they are closed, it answers 0 and changes nothing.
  pub aisl_header-Adds :
      (w : W) (c : Conn) (key value : Bytes)
      → IsValid c.stream.buffer
      → (c.stream.state ≡ send_header
          → let c' = noted c key (some value) in
            (c'.stream.buffer ≡ c.stream.buffer)
            × Adds c' (header_line key value) (aisl_header alloc w c key value))
        × (rank send_header < rank c.stream.state
            → aisl_header alloc w c key value ≡ (w, c, some 0))
  aisl_header-Adds w c key value v = (
    λ h.
        let same = noted_buffer c key (some value) in
        let c' = noted c key (some value) in
        let v' : IsValid c'.stream.buffer = rw same v in
        (
          same,
          unfold aisl_header in
              rw (verify_open w c key (some value) h)
                (unfold if_verified in printf-Adds alloc w c' (header_line key value) v'),
        ),
    λ h. unfold aisl_header in rw (verify_late w c key (some value) h) (unfold if_verified in refl),
  )
