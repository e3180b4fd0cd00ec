-- ===== src/Stream/Tests.antt =====
-- Runs of the functions of src/stream.c, and the theorems about them at concrete streams.
use aisl.Prelude.{◌≡◌, refl, ◌≤◌, none, some, codes, true, false, arith}
use aisl.Prelude.Plenty.{plenty}
use aisl.Prelude.Decimal.{decimal, strtoll}
use aisl.Buffer.{buffer_release}
use aisl.Buffer.Grow.{IsValid}
use aisl.Types.{http_1_0}
use aisl.Stream.{
  Conn, rank, send_header, send_body, ready, aisl_stream_new, aisl_stream_reset, with_stream,
}
use aisl.Stream.Write.{aisl_write, sized}
use aisl.Stream.Status.{IsEmpty}
use aisl.Stream.Closed.{begun, headed}
use aisl.Stream.Page.{Page}
use aisl.Stream.Reply.{Replied, unmarked, default_head, default_reply, aisl_write-aisl_flush}

-- A stream whose request has been read.
abbrev asked : Conn
asked = record {
  keepalive = true;
  http_version = http_1_0;
  stream = record (aisl_stream_new 1) { state = ready };
}

asked-IsEmpty : IsEmpty asked.stream.buffer
unfolding aisl_stream_new aisl_stream_reset buffer_release
asked-IsEmpty = (record { sized = refl; fits = omega arith }, refl)

asked_ready : rank asked.stream.state ≤ rank ready
asked_ready = omega arith

decimal_run : decimal 1305 ≡ codes "1305"
unfolding decimal
decimal_run = refl

strtoll_run : strtoll (codes " +1305x") ≡ 1305
unfolding strtoll
strtoll_run = refl

-- A page whose two headers are closed and whose body is "ab".
abbrev closed : Conn
closed = with_stream asked (record asked.stream {
  buffer = record { mem = codes "X\r\n\r\nab"; size = 7; used = 7 };
  body_offset = 5;
  state = send_body;
})

closed-Page : Page closed false (codes "X\r\n") (codes "ab")
unfolding aisl_stream_new aisl_stream_reset
closed-Page = record {
  valid = record { sized = refl; fits = omega arith };
  bytes = refl;
  offset = refl;
  in_state = refl;
  announced = refl;
}

default_reply_example :
    Replied plenty false
      (default_head asked)
      (codes "ab")
      (aisl_write plenty 0 (unmarked asked) (codes "ab") (some 2))
default_reply_example = default_reply plenty 0 asked (codes "ab") (some 2) asked-IsEmpty asked_ready

-- A response that a handler has begun.
abbrev begun_response : Conn
begun_response = with_stream asked (record asked.stream {
  buffer = record { mem = codes "HTTP"; size = 4; used = 4 };
  state = send_header;
})

begun_response-IsValid : IsValid begun_response.stream.buffer
begun_response-IsValid = record { sized = refl; fits = omega arith }

header_sent : rank send_header ≤ rank send_header
header_sent = omega arith

from_header : rank begun_response.stream.state ≤ rank ready → begun_response.stream.buffer.used ≡ 0
unfolding rank
from_header h = omega (arith, h)

aisl_write-aisl_flush_example :
    let d = headed (begun begun_response) in
    Replied plenty d.rest.stream.content_length_header_sent d.text
      (sized (codes "ab") none)
      (aisl_write plenty 0 begun_response (codes "ab") none)
aisl_write-aisl_flush_example =
    aisl_write-aisl_flush plenty 0 begun_response (codes "ab") none
      (begun_response-IsValid, from_header) header_sent
