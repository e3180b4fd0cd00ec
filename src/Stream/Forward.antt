-- ===== src/Stream/Forward.antt =====
-- src/stream.c: aisl_response and aisl_stream_close_headers do not take a stream back to an earlier
-- state.
use aisl.Prelude.{
  ℕ, ◌≤◌, ◌≡◌, refl, Option, none, some, Bytes, codes, Bool, true, false, ◌&&◌, not, ltb,
  if◌then◌else◌, Bool-cases, inl, inr, arith, tests,
}
use aisl.Prelude.Alloc.{Alloc}
use aisl.Types.{
  Status, success, malloc_error, idle, input_error, extcall_error, syscall_error, auto_length,
}
use aisl.Types.Response.{HttpResponse}
use aisl.Stream.{
  Conn, StreamState, rank, state_idle, wait_header, wait_body, ready, send_header, send_body, done,
}
use aisl.Stream.Response.{
  mark_connection, mark_content_type, mark_content_length, Part, aisl_response, responded,
  aisl_start_response, started, marked, unless, continued, ◌>>◌, start_part, server_part,
  content_type_part, content_length_part, connection_part, blank_part, aisl_stream_close_headers,
}
use aisl.Stream.Write.{keyed, asked_keepalive, noted}

-- The state after a call is not before `s`.
abbrev pub From : {W R : Type 0} → StreamState → W × Conn × R → Type 0
From s (_, c, _) = rank s ≤ rank c.stream.state

pub rank_le_done : (s : StreamState) → rank s ≤ rank done
unfolding rank
rank_le_done state_idle = omega arith
rank_le_done wait_header = omega arith
rank_le_done wait_body = omega arith
rank_le_done ready = omega arith
rank_le_done send_header = omega arith
rank_le_done send_body = omega arith
rank_le_done done = omega arith

if_state :
    (t : Bool) (a b : Conn) (s : StreamState)
    → a.stream.state ≡ s
    → b.stream.state ≡ s
    → (if t then a else b).stream.state ≡ s
if_state true a b s e f = e
if_state false a b s e f = f

pub noted_state :
    (c : Conn) (key : Bytes) (value : Option Bytes)
    → (noted c key value).stream.state ≡ c.stream.state
unfolding noted
noted_state c key value =
    let named = λ (sent : Bool) (name : Bytes). not sent && keyed key name in
    let with_length = named c.stream.content_length_header_sent (codes "content-length") in
    let with_type = named c.stream.content_type_header_sent (codes "content-type") in
    let third = if with_length then mark_content_length c else c in
    let second = if with_type then mark_content_type c else third in
    let first = mark_connection (record c { keepalive = asked_keepalive c value }) in
    let s = c.stream.state in
    if_state (named c.stream.connection_header_sent (codes "connection")) first second s refl (
      if_state with_type (mark_content_type c) third s refl
        (if_state with_length (mark_content_length c) c s refl refl))

module _ {W : Type 0} (alloc : Alloc W) where
  responded-From :
      (s : StreamState) (r : W × Conn × Option ℕ)
      → rank s ≤ rank ready
      → r.1.stream.state ≡ s
      → From s (responded alloc r)
  unfolding responded
  responded-From s (w, c, none) le h = rw h (omega arith)
  responded-From s (w, c, some n) le h = unfold rank in omega arith

  pub aisl_response-From :
      (w : W) (c : Conn) (code : HttpResponse) (len : ℕ)
      → From c.stream.state (aisl_response alloc w c code len)
  unfolding aisl_response
  aisl_response-From w c code len = elim (Bool-cases (ltb (rank ready) (rank c.stream.state))) [
    | inl e ↦ rw e (omega arith)
    | inr e ↦ rw e (responded-From c.stream.state _ (omega (tests, e)) refl)
  ]

  -- A part that does not go back from a state in which the headers are open.
  abbrev Forward : Part alloc → Type 0
  Forward part =
      (s : StreamState) (w : W) (c : Conn)
      → rank s ≤ rank send_body
      → rank s ≤ rank c.stream.state
      → From s (part w c)

  continued-From :
      (next : Part alloc) (s : StreamState) (r : W × Conn × Bool)
      → Forward next
      → rank s ≤ rank send_body
      → From s r
      → From s (continued alloc next r)
  unfolding continued
  continued-From next s (w, c, false) g le h = h
  continued-From next s (w, c, true) g le h = g s w c le h

  >>-Forward :
      (first next : Part alloc) → Forward first → Forward next → Forward (◌>>◌ alloc first next)
  unfolding ◌>>◌
  >>-Forward first next f g s w c le h = continued-From next s (first w c) g le (f s w c le h)

  marked-From :
      (mark : Conn → Conn) (s : StreamState) (r : W × Conn × Option ℕ)
      → ((c : Conn) → rank s ≤ rank c.stream.state → rank s ≤ rank (mark c).stream.state)
      → From s r
      → From s (marked alloc mark r)
  unfolding marked
  marked-From mark s (w, c, none) m h = h
  marked-From mark s (w, c, some n) m h = m c h

  unless-From :
      (sent : Bool) (op : W → Conn → W × Conn × Option ℕ) (mark : Conn → Conn) (s : StreamState)
      (w : W) (c : Conn)
      → ((c : Conn) → rank s ≤ rank c.stream.state → rank s ≤ rank (mark c).stream.state)
      → rank s ≤ rank c.stream.state
      → From s (op w c)
      → From s (unless alloc sent op mark w c)
  unfolding unless
  unless-From true op mark s w c m h k = h
  unless-From false op mark s w c m h k = marked-From mark s (op w c) m k

  started-From : (s : StreamState) (r : W × Conn × Status) → From s r → From s (started alloc r)
  unfolding started
  started-From s (w, c, input_error) h = h
  started-From s (w, c, extcall_error) h = h
  started-From s (w, c, syscall_error) h = h
  started-From s (w, c, malloc_error) h = h
  started-From s (w, c, success) h = h
  started-From s (w, c, idle) h = h

  start_part-Forward : Forward (start_part alloc)
  unfolding start_part aisl_start_response
  start_part-Forward s w c le h =
      let later = aisl_response-From w c HttpResponse.ok auto_length in
      started-From s (aisl_response alloc w c HttpResponse.ok auto_length) (omega (arith, h, later))

  server_part-Forward : Forward (server_part alloc)
  unfolding server_part
  server_part-Forward s w c le h = unless-From _ _ _ s w c (λ c h. h) h h

  content_type_part-Forward : Forward (content_type_part alloc)
  unfolding content_type_part
  content_type_part-Forward s w c le h = unless-From _ _ _ s w c (λ c h. h) h h

  content_length_part-Forward : Forward (content_length_part alloc)
  unfolding content_length_part
  content_length_part-Forward s w c le h = unless-From _ _ _ s w c (λ c h. h) h h

  connection_part-Forward : Forward (connection_part alloc)
  unfolding connection_part
  connection_part-Forward s w c le h = unless-From _ _ _ s w c (λ c h. h) h h

  blank_part-Forward : Forward (blank_part alloc)
  unfolding blank_part
  blank_part-Forward s w c le h = unless-From false _ _ s w c (λ _ _. le) h h

  pub aisl_stream_close_headers-Forward : Forward (aisl_stream_close_headers alloc)
  unfolding aisl_stream_close_headers
  aisl_stream_close_headers-Forward = >>-Forward _ _ start_part-Forward (
      >>-Forward _ _ server_part-Forward (
        >>-Forward _ _ content_type_part-Forward (
          >>-Forward _ _ content_length_part-Forward
            (>>-Forward _ _ connection_part-Forward blank_part-Forward))))
