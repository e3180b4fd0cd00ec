-- ===== src/Api.antt =====
-- What the library is given and what a handler may do with it: the callback of
-- include/aisl/types.h, the sockets, the clock, and the functions of include/aisl/stream.h that a
-- handler can call.
use aisl.Prelude.{ℕ, ◌≤◌, ◌<◌, ◌≡◌, Option, Bytes, Bool, length}
use aisl.Prelude.Alloc.{Alloc}
use aisl.Types.{Status, EventCode, stream_open, stream_header, stream_input}
use aisl.Types.Response.{HttpResponse}
use aisl.Stream.{Conn, with_stream, aisl_set_output_event, aisl_set_context}
use aisl.Stream.Response.{aisl_response}
use aisl.Stream.Write.{
  aisl_header, aisl_header_printf, aisl_printf, aisl_write, aisl_puts, aisl_flush,
}
use aisl.Stream.Request.{Event, on_open, on_header, on_input}

-- An event with its source left out: those of a request carry data, the others a status.
pub data Raised : Type 0 where
  carrying : Event → Raised
  plain : EventCode → Status → Raised

-- `evt->code`
unfoldable pub event_code : Raised → EventCode
event_code (carrying (on_open m path query)) = stream_open
event_code (carrying (on_header key value)) = stream_header
event_code (carrying (on_input piece)) = stream_input
event_code (plain code st) = code

-- A call that a handler makes on the stream of the event.
pub data Call : Type 0 where
  response : HttpResponse → ℕ → Call
  header : Bytes → Bytes → Call
  header_printf : Bytes → Bytes → Call
  printf : Bytes → Call
  write : Bytes → Option ℕ → Call
  puts : Bytes → Call
  flush : Call
  set_output_event : Bool → Call
  set_context : ℕ → Call

pub data Reply : Type 0 where
  status : Status → Reply
  count : Option ℕ → Reply
  nothing : Reply

-- What a handler does with an event: its calls, each chosen by the answers to those before, by
-- what the functions that only read tell of the stream, and by the world. `visit` changes the world
-- and goes on by what it was before; `reject` is `aisl_reject` and `aisl_client_disconnect`.
pub data Program (W : Type 0) : Type 0 where
  stop : Program W
  inspect : (Conn → Program W) → Program W
  visit : (W → W) → (W → Program W) → Program W
  call : Call → (Reply → Program W) → Program W
  reject : Program W → Program W

-- How `recv` or `SSL_read` ends: bytes, the end of the connection or an error, or nothing yet.
pub data Received : Type 0 where
  received : Bytes → Received
  lost : Received
  no_input : Received

-- How `send` or `SSL_write` ends.
pub data Sent : Type 0 where
  sent : ℕ → Sent
  broken : Sent
  no_room : Sent

-- How `SSL_accept` ends.
pub data Handshake : Type 0 where
  shaken waiting refused : Handshake

-- The C library, OpenSSL and the user's callback over a world `W`, which holds the user's data too.
-- The flag of `recv` and `send` is whether the connection has TLS.
pub record System (W : Type 0) : Type 0 where
  pub alloc : Alloc W
  pub callback : Option (Raised → Program W)
  pub recv : Bool → W → ℕ → W × Received
  pub send : Bool → W → Bytes → W × Sent
  pub ssl_accept : W → W × Handshake
  pub time : W → W × ℕ
  -- whether `calloc` gives a stream
  pub calloc_stream : W → W × Bool
  pub recv_bounds :
      (tls : Bool) (w : W) (n : ℕ) (bytes : Bytes)
      → (recv tls w n).1 ≡ Received.received bytes
      → (0 < length bytes) × (length bytes ≤ n)
  pub send_bounds :
      (tls : Bool) (w : W) (bytes : Bytes) (n : ℕ)
      → (send tls w bytes).1 ≡ Sent.sent n
      → (0 < n) × (n ≤ length bytes)

module _ {W : Type 0} (alloc : Alloc W) where
  unfoldable pub answered : W × Conn × Status → W × Conn × Reply
  answered (w, c, s) = (w, c, status s)

  unfoldable pub counted : W × Conn × Option ℕ → W × Conn × Reply
  counted (w, c, n) = (w, c, count n)

  -- A call of the API.
  unfoldable pub perform : Call → W → Conn → W × Conn × Reply
  unfolding answered counted
  perform (response code len) w c = answered (aisl_response alloc w c code len)
  perform (header key value) w c = counted (aisl_header alloc w c key value)
  perform (header_printf key value) w c = counted (aisl_header_printf alloc w c key value)
  perform (printf text) w c = counted (aisl_printf alloc w c text)
  perform (write text len) w c = counted (aisl_write alloc w c text len)
  perform (puts text) w c = counted (aisl_puts alloc w c text)
  perform flush w c = answered (aisl_flush alloc w c)
  perform (set_output_event value) w c =
      (w, with_stream c (aisl_set_output_event c.stream value), nothing)
  perform (set_context p) w c = (w, with_stream c (aisl_set_context c.stream p), nothing)
