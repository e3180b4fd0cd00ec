-- ===== src/Stream.antt =====
-- src/stream.c, src/stream.h: the stream of a request and its response. This file has the state
-- and what the other parts of the library do to it; Stream/Response is the interface for the
-- user's handlers.
pub mod Closed
pub mod Draft
pub mod Forward
pub mod Headers
pub mod Order
pub mod Page
pub mod Pointer
pub mod Reply
pub mod Response
pub mod Status
pub mod Refusal
pub mod Request
mod Tests
pub mod Write
use aisl.Prelude.{ℕ, ◌-◌, ◌≤◌, Option, Bytes, Bool, true, false, ◌&&◌, ltb, ◌==◌, if◌then◌else◌}
use aisl.Buffer.{Buffer, contents, null, buffer_release, buffer_shift}
use aisl.Types.{HttpVersion}
use aisl.Types.Response.{HttpResponse}

-- `AislStreamState`
pub data StreamState : Type 0 where
  state_idle wait_header wait_body ready send_header send_body done : StreamState

-- the number of the enumerator, by which states are compared
unfoldable pub rank : StreamState → ℕ
rank state_idle = 0
rank wait_header = 1
rank wait_body = 2
rank ready = 3
rank send_header = 4
rank send_body = 5
rank done = 6

-- `struct aisl_stream` without its pointer to the client; each bit of `flags` is a field, and the
-- user's pointer is a number that is only stored.
pub record Stream : Type 0 where
  pub buffer : Buffer
  pub u_ptr : ℕ
  pub content_length : ℕ
  pub head_offset : ℕ
  pub body_offset : ℕ
  pub id : ℕ
  pub flushed : Bool
  pub output_chunked : Bool
  pub server_header_sent : Bool
  pub content_type_header_sent : Bool
  pub content_length_header_sent : Bool
  pub connection_header_sent : Bool
  pub http_response : HttpResponse
  pub state : StreamState

-- A stream and the fields of its client that the functions of src/stream.c read and write.
pub record Conn : Type 0 where
  pub keepalive : Bool
  pub http_version : HttpVersion
  pub stream : Stream

-- What `aisl_stream_reset` writes; `body_offset` is not among it.
unfoldable pub aisl_stream_reset : Stream → Stream
aisl_stream_reset s = record s {
  buffer = buffer_release s.buffer;
  u_ptr = 0;
  content_length = 0;
  head_offset = 0;
  flushed = false;
  output_chunked = false;
  server_header_sent = false;
  content_type_header_sent = false;
  content_length_header_sent = false;
  connection_header_sent = false;
  state = state_idle;
  http_response = HttpResponse.ok;
}

unfoldable pub aisl_stream_new : ℕ → Stream
aisl_stream_new id = aisl_stream_reset (record {
  buffer = null;
  u_ptr = 0;
  content_length = 0;
  head_offset = 0;
  body_offset = 0;
  id = id;
  flushed = false;
  output_chunked = false;
  server_header_sent = false;
  content_type_header_sent = false;
  content_length_header_sent = false;
  connection_header_sent = false;
  http_response = HttpResponse.ok;
  state = state_idle;
})

abbrev pub with_stream : Conn → Stream → Conn
with_stream c s = record c { stream = s }

abbrev pub with_state : Conn → StreamState → Conn
with_state c state = with_stream c (record c.stream { state = state })

abbrev pub with_buffer : Conn → Buffer → Conn
with_buffer c b = with_stream c (record c.stream { buffer = b })

unfoldable pub aisl_stream_get_buffer_space : Stream → ℕ
aisl_stream_get_buffer_space s = s.buffer.size - s.buffer.used

abbrev pub aisl_stream_get_buffer_size : Stream → ℕ
aisl_stream_get_buffer_size s = s.buffer.size

-- The bytes of the response that wait to be sent.
abbrev pub aisl_stream_get_data : Stream → Bytes
aisl_stream_get_data s = contents s.buffer

abbrev pub aisl_stream_get_state : Stream → StreamState
aisl_stream_get_state s = s.state

abbrev pub aisl_get_context : Stream → ℕ
aisl_get_context s = s.u_ptr

abbrev pub aisl_set_context : Stream → ℕ → Stream
aisl_set_context s u_ptr = record s { u_ptr = u_ptr }

unfoldable pub aisl_stream_shift : Stream → ℕ → Stream
aisl_stream_shift s offset = record s { buffer = (buffer_shift s.buffer offset).0 }

unfoldable pub aisl_stream_is_done : Stream → Bool
aisl_stream_is_done s = s.buffer.used == 0 && rank s.state == rank done

abbrev pub aisl_get_output_event : Stream → Bool
aisl_get_output_event s = s.output_chunked

unfoldable pub aisl_set_output_event : Stream → Bool → Stream
aisl_set_output_event s value = record s { output_chunked = value }

-- `aisl_client_get_keepalive` and `aisl_client_set_keepalive` of the stream's client
abbrev pub aisl_client_get_keepalive : Conn → Bool
aisl_client_get_keepalive c = c.keepalive

abbrev pub aisl_client_set_keepalive : Conn → Bool → Conn
aisl_client_set_keepalive c value = record c { keepalive = value }

-- `aisl_get_http_version`, by `aisl_client_get_http_version`
abbrev pub aisl_get_http_version : Conn → HttpVersion
aisl_get_http_version c = c.http_version
