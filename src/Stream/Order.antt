-- ===== src/Stream/Order.antt =====
-- src/stream.c: the order in which a stream goes through its states.
use aisl.Prelude.{
  if_true, if_false, ℕ, zero, suc, ◌+◌, ◌++◌, codes, ◌≤◌, ◌≡◌, ◌∙◌, Option, none, some, Bytes, Bool,
  true, false, ltb, ◌==◌, Bool-cases, inl, inr, arith, tests,
}
use aisl.Prelude.Alloc.{Alloc}
use aisl.Types.{
  Status, success, malloc_error, idle, input_error, extcall_error, syscall_error, auto_length,
}
use aisl.Types.Response.{HttpResponse}
use aisl.Stream.{Conn, StreamState, rank, send_header, send_body, aisl_set_output_event}
use aisl.Api.{
  Call, response, header, header_printf, write, puts, flush, set_output_event, set_context,
  answered, counted, perform,
}
use aisl.Stream.Response.{
  crlf, append, printf, aisl_response, aisl_start_response, aisl_stream_close_headers,
}
use aisl.Stream.Write.{
  verified, aisl_stream_verify_header, if_verified, aisl_header, then_adds, aisl_header_vprintf,
  aisl_puts, aisl_vprintf, in_body, with_closed_headers, aisl_write, aisl_flush, finished,
  length_inserted, marked_length,
}
use aisl.Stream.Page.{announce, flush_inserts}
use aisl.Stream.Forward.{
  From, rank_le_done, noted_state, aisl_response-From, aisl_stream_close_headers-Forward,
}

module _ {W : Type 0} (alloc : Alloc W) where
  -- A call that does not go back.
  abbrev Advances : (W → Conn → W × Conn × Option ℕ) → Type 0
  Advances next = (w : W) (c : Conn) → From c.stream.state (next w c)

  in_body-From :
      (s : StreamState) (next : W → Conn → W × Conn × Option ℕ) (r : W × Conn × Bool)
      → Advances next
      → From s r
      → From s (in_body alloc next r)
  unfolding in_body
  in_body-From s next (w, c, false) k h = h
  in_body-From s next (w, c, true) k h = omega (arith, h, k w c)

  with_closed_headers-From :
      (next : W → Conn → W × Conn × Option ℕ) (w : W) (c : Conn)
      → Advances next
      → From c.stream.state (with_closed_headers alloc next w c)
  unfolding with_closed_headers
  with_closed_headers-From next w c k =
      elim (Bool-cases (ltb (rank c.stream.state) (rank send_body))) [
        | inl e ↦
            let le : rank c.stream.state ≤ rank send_body = omega (tests, e) in
            rw e (
              in_body-From c.stream.state next (aisl_stream_close_headers alloc w c) k
                (aisl_stream_close_headers-Forward alloc c.stream.state w c le (omega arith)))
        | inr e ↦ rw e (in_body-From c.stream.state next (w, c, true) k (omega arith))
      ]

  verified-From :
      (s : StreamState) (key : Bytes) (value : Option Bytes) (r : W × Conn × Status)
      → From s r
      → From s (verified alloc key value r)
  unfolding verified
  verified-From s key value (w, c, input_error) h = h
  verified-From s key value (w, c, extcall_error) h = h
  verified-From s key value (w, c, syscall_error) h = h
  verified-From s key value (w, c, malloc_error) h = h
  verified-From s key value (w, c, success) h = rw (noted_state c key value) h
  verified-From s key value (w, c, idle) h = h

  aisl_stream_verify_header-From :
      (w : W) (c : Conn) (key : Bytes) (value : Option Bytes)
      → From c.stream.state (aisl_stream_verify_header alloc w c key value)
  unfolding aisl_stream_verify_header aisl_start_response
  aisl_stream_verify_header-From w c key value =
      elim (Bool-cases (ltb (rank c.stream.state) (rank send_header))) [
        | inl e ↦ rw e (
            verified-From c.stream.state key value
              (aisl_response alloc w c HttpResponse.ok auto_length)
              (aisl_response-From alloc w c HttpResponse.ok auto_length))
        | inr e ↦ rw e (elim (Bool-cases (ltb (rank send_header) (rank c.stream.state))) [
          | inl f ↦ rw f (omega arith)
          | inr f ↦ rw f (verified-From c.stream.state key value (w, c, success) (omega arith))
        ])
      ]

  if_verified-From :
      (s : StreamState) (next : W → Conn → W × Conn × Option ℕ) (r : W × Conn × Option ℕ)
      → Advances next
      → From s r
      → From s (if_verified alloc next r)
  unfolding if_verified
  if_verified-From s next (w, c, none) k h = h
  if_verified-From s next (w, c, some zero) k h = h
  if_verified-From s next (w, c, some (suc zero)) k h = omega (arith, h, k w c)
  if_verified-From s next (w, c, some (suc (suc n))) k h = h

  finished-From : (s : StreamState) (r : W × Conn × Bool) → From s (finished alloc r)
  unfolding finished
  finished-From s (w, c, ok) = rank_le_done s

  length_inserted-From :
      (s : StreamState) (r : W × Conn × Option ℕ) → From s r → From s (length_inserted alloc r)
  unfolding length_inserted finished
  length_inserted-From s (w, c, none) h = h
  length_inserted-From s (w, c, some n) h = rank_le_done s

  flush_finishes :
      (w : W) (c : Conn)
      → c.stream.content_length_header_sent ≡ true
      → aisl_flush alloc w c ≡ finished alloc (w, c, true)
  unfolding aisl_flush
  flush_finishes w c e = if_true _ _ _ e

  flush_closes :
      (w : W) (c : Conn)
      → c.stream.content_length_header_sent ≡ false
      → (c.stream.body_offset == 0) ≡ true
      → aisl_flush alloc w c
        ≡ finished alloc (marked_length alloc (aisl_stream_close_headers alloc w c))
  unfolding aisl_flush
  flush_closes w c e f = if_false _ _ _ e ∙ if_true _ _ _ f

  aisl_flush-From : (w : W) (c : Conn) → From c.stream.state (aisl_flush alloc w c)
  aisl_flush-From w c = elim (Bool-cases c.stream.content_length_header_sent) [
    | inl e ↦ rw (flush_finishes w c e) (finished-From c.stream.state (w, c, true))
    | inr e ↦ elim (Bool-cases (c.stream.body_offset == 0)) [
      | inl f ↦
          rw (flush_closes w c e f) (
            finished-From c.stream.state
              (marked_length alloc (aisl_stream_close_headers alloc w c)))
      | inr f ↦
          rw (flush_inserts alloc w c e f)
            (length_inserted-From c.stream.state (announce alloc w c) (omega arith))
    ]
  ]

  sum-From :
      (s : StreamState) (n : ℕ) (r : W × Conn × Option ℕ)
      → From s r
      → From {W = W} {R = Option ℕ} s
          (elim r.2 [ none ↦ (r.0, r.1, none) | some m ↦ (r.0, r.1, some (n + m)) ])
  sum-From s n (w, c, none) h = h
  sum-From s n (w, c, some m) h = h

  then_adds-From :
      (s : StreamState) (next : W → Conn → W × Conn × Option ℕ) (r : W × Conn × Option ℕ)
      → Advances next
      → From s r
      → From s (then_adds alloc next r)
  unfolding then_adds
  then_adds-From s next (w, c, none) k h = h
  then_adds-From s next (w, c, some n) k h = sum-From s n (next w c) (omega (arith, h, k w c))

  aisl_header_vprintf-From :
      (w : W) (c : Conn) (key value : Bytes)
      → From c.stream.state (aisl_header_vprintf alloc w c key value)
  unfolding aisl_header_vprintf
  aisl_header_vprintf-From w c key value =
      if_verified-From c.stream.state _ _
        (λ w c.
          then_adds-From c.stream.state (append alloc crlf) _ (λ w c. omega arith)
            (then_adds-From c.stream.state (printf alloc value)
              (printf alloc (key ++ codes ": ") w c) (λ w c. omega arith) (omega arith)))
        (aisl_stream_verify_header-From w c key none)

  aisl_write-From :
      (w : W) (c : Conn) (text : Bytes) (d_len : Option ℕ)
      → From c.stream.state (aisl_write alloc w c text d_len)
  unfolding aisl_write
  aisl_write-From w c text d_len = with_closed_headers-From _ w c (λ w c. omega arith)

  aisl_puts-From : (w : W) (c : Conn) (str : Bytes) → From c.stream.state (aisl_puts alloc w c str)
  unfolding aisl_puts
  aisl_puts-From w c str = with_closed_headers-From _ w c (λ w c. aisl_write-From w c str none)

  -- No call of the library's interface takes a stream back to an earlier state.
  pub perform-From : (call : Call) (w : W) (c : Conn) → From c.stream.state (perform alloc call w c)
  unfolding perform answered counted aisl_header aisl_vprintf aisl_set_output_event
  perform-From (response code len) w c = aisl_response-From alloc w c code len
  perform-From (header key value) w c =
      if_verified-From c.stream.state _ _ (λ w c. omega arith)
        (aisl_stream_verify_header-From w c key (some value))
  perform-From (header_printf key value) w c = aisl_header_vprintf-From w c key value
  perform-From (Call.printf text) w c = with_closed_headers-From _ w c (λ w c. omega arith)
  perform-From (write text len) w c = aisl_write-From w c text len
  perform-From (puts text) w c = aisl_puts-From w c text
  perform-From flush w c = aisl_flush-From w c
  perform-From (set_output_event value) w c = omega arith
  perform-From (set_context p) w c = omega arith
