-- ===== src/Client/Parse.antt =====
-- aisl_client_parse of src/client.c, and the parsers of src/http.c with the events that they raise.
-- The input is the `size` bytes of the input buffer from `pos` on.
use aisl.Prelude.{
  ℕ, zero, suc, ◌+◌, ◌-◌, Option, none, some, ◌++◌, true, false, Bytes, codes, take, drop, ◌==◌,
  if◌then◌else◌,
}
use aisl.Types.{Status, success, stream_request, stream_error, HttpVersion, http_2_0, auto_length}
use aisl.Types.Response.{bad_request}
use aisl.Buffer.{buffer_shift}
use aisl.Stream.{
  Conn, aisl_stream_get_state, StreamState, state_idle, wait_header, wait_body, with_stream,
}
use aisl.Stream.Request.{
  Event, aisl_stream_set_request, aisl_stream_set_header, aisl_stream_set_end_of_headers,
  aisl_stream_set_body,
}
use aisl.Http.{Parsed, Request, request, parse_request_line}
use aisl.Http.Header.{HeaderLine, field, end_of_headers, parse_header_line}
use aisl.Api.{carrying, plain, System}
use aisl.Client.{Session, with_client, with_conn, raise, aisl_client_close}

-- `ParserStatus`, without the prefix
pub data ParserStatus : Type 0 where
  parsed ready hungry failed : ParserStatus

-- The bytes of the input from `pos` on, and the session with them replaced.
abbrev pub input_at : {W : Type 0} → ℕ → Session W → Bytes
input_at pos s = drop pos s.client.input.mem

abbrev pub store_at : {W : Type 0} → ℕ → Bytes → Session W → Session W
store_at pos mem s =
    let b = s.client.input in
    with_client s (record s.client { input = record b { mem = take pos b.mem ++ mem } })

-- `switch (aisl_stream_set_body(...))`; -1 is `none`.
unfoldable pub body_status : Option ℕ → ParserStatus
body_status none = failed
body_status (some zero) = ready
body_status (some (suc n)) = parsed

-- The end of a round: with `parsed`, the loop `go` goes on behind the bytes taken.
abbrev pub continued :
    {W : Type 0}
    → (ℕ → ℕ → Session W → Session W × ParserStatus × ℕ)
    → ℕ
    → ℕ
    → Session W × ParserStatus × ℕ
    → Session W × ParserStatus × ℕ
continued go pos size (s, parsed, left) = go (pos + (size - left)) left s
continued go pos size (s, ready, left) = (s, ready, left)
continued go pos size (s, hungry, left) = (s, hungry, left)
continued go pos size (s, failed, left) = (s, failed, left)

-- `buffer_shift(&client->in, client->in.used - size)`
abbrev pub shift_input : {W : Type 0} → ℕ → Session W → Session W
shift_input left s =
    let b = s.client.input in
    with_client s (record s.client { input = (buffer_shift b (b.used - left)).0 })

module _ {W : Type 0} (sys : System W) where
  -- A function of the stream that may raise an event.
  unfoldable pub emit : Conn × Option Event → Session W → Session W
  emit (c, none) s = with_conn s c
  emit (c, some e) s = raise sys (carrying e) (with_conn s c)

  unfoldable pub set_host : Option Bytes → Session W → Session W
  set_host none s = s
  set_host (some host) s = emit (aisl_stream_set_header s.client.conn (codes "host") host) s

  unfoldable pub announced : Request → Session W → Session W
  announced r s =
      let c = record s.client.conn { http_version = r.http_version } in
      let (c', e) = aisl_stream_set_request c r.http_method r.path r.query in
      set_host r.host (emit (c', some e) s)

  unfoldable pub request_parsed : ℕ → Parsed → Session W → Session W × ParserStatus × ℕ
  request_parsed size Parsed.hungry s = (s, hungry, size)
  request_parsed size Parsed.error s = (s, failed, size)
  request_parsed size (request r) s = (announced r s, parsed, r.left)

  unfoldable pub http_10_parse_request : ℕ → ℕ → Session W → Session W × ParserStatus × ℕ
  http_10_parse_request pos size s =
      let (mem, r) = parse_request_line (input_at pos s) size in
      request_parsed size r (store_at pos mem s)

  unfoldable pub header_parsed : ℕ → HeaderLine → Session W → Session W × ParserStatus × ℕ
  header_parsed size HeaderLine.hungry s = (s, hungry, size)
  header_parsed size HeaderLine.error s = (s, failed, size)
  header_parsed size (field key value left) s =
      (emit (aisl_stream_set_header s.client.conn key value) s, parsed, left)
  header_parsed size (end_of_headers left) s =
      let (c, result) = aisl_stream_set_end_of_headers s.client.conn in
      (with_conn s c, (if result == 0 then ready else parsed), left)

  unfoldable pub http_10_parse_header : ℕ → ℕ → Session W → Session W × ParserStatus × ℕ
  http_10_parse_header pos size s =
      let (mem, r) = parse_header_line (input_at pos s) size in
      header_parsed size r (store_at pos mem s)

  unfoldable pub http_10_parse_body : ℕ → ℕ → Session W → Session W × ParserStatus × ℕ
  http_10_parse_body pos size s =
      let (c, result, event) = aisl_stream_set_body s.client.conn (take size (input_at pos s)) in
      if size == 0 then (s, hungry, size) else (emit (c, event) s, body_status result, 0)

  -- The `switch` in the loop of `aisl_client_parse`.
  unfoldable pub parse_one : StreamState → ℕ → ℕ → Session W → Session W × ParserStatus × ℕ
  parse_one state_idle pos size s = http_10_parse_request pos size s
  parse_one wait_header pos size s = http_10_parse_header pos size s
  parse_one wait_body pos size s = http_10_parse_body pos size s
  parse_one _ pos size s = (s, failed, size)

  -- The loop, in at most the given number of rounds. The last number is of the bytes not parsed.
  unfoldable pub parse_rounds : ℕ → ℕ → ℕ → Session W → Session W × ParserStatus × ℕ
  parse_rounds zero pos size s = (s, parsed, size)
  parse_rounds (suc rounds) pos size s =
      continued (parse_rounds rounds) pos size
        (parse_one (aisl_stream_get_state s.client.conn.stream) pos size s)

  -- The `switch` behind the loop.
  unfoldable pub concluded : Session W × ParserStatus × ℕ → Session W × Status
  concluded (s, ready, left) =
      let c = s.client in
      let c' = with_stream c.conn (record c.conn.stream { content_length = auto_length }) in
      let s' = with_client s (record c { conn = c'; can_read = false; can_write = true }) in
      (shift_input left (raise sys (plain stream_request success) s'), success)
  concluded (s, failed, left) =
      let c = s.client.conn in
      let s' = with_conn s (with_stream c (record c.stream { http_response = bad_request })) in
      (aisl_client_close sys success (raise sys (plain stream_error success) s'), success)
  concluded (s, parsed, left) = (shift_input left s, success)
  concluded (s, hungry, left) = (shift_input left s, success)

  unfoldable pub parse_as : HttpVersion → ℕ → Session W → Session W × Status
  parse_as http_2_0 size s = concluded (s, parsed, size)
  parse_as _ size s = concluded (parse_rounds (suc size) 0 size s)

  unfoldable pub aisl_client_parse : ℕ → Session W → Session W × Status
  aisl_client_parse size s = parse_as s.client.conn.http_version size s
