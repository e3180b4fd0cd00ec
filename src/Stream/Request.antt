-- ===== src/Stream/Request.antt =====
-- src/stream.c: the request side of a stream. Each function returns with its result the event that
-- it raises for the handlers. To raise it is the last that the function does, when the state and the
-- result are set already; `emit` of Client/Parse, round each call, runs the handler at that point.
use aisl.Prelude.{
  if_true, if_false, ℕ, ◌+◌, ◌-◌, ◌≤◌, ◌<◌, ◌≡◌, ap, ◌∙◌, Option, none, some, [], ◌∷◌, List, Bytes,
  codes, Bool, true, false, not, length, ltb, ◌==◌, if◌then◌else◌, arith, bytes_eq,
}
use aisl.Prelude.Decimal.{strtoll}
use aisl.StrUtils.{str_cmpi}
use aisl.Types.{HttpMethod}
use aisl.Stream.{
  Conn, aisl_client_set_keepalive, StreamState, wait_header, wait_body, ready, rank, with_stream,
  with_state,
}

-- The events that a stream raises while it reads its request.
pub data Event : Type 0 where
  on_open : HttpMethod → Bytes → Bytes → Event
  on_header : Bytes → Bytes → Event
  on_input : Bytes → Event

unfoldable pub aisl_stream_set_request : Conn → HttpMethod → Bytes → Bytes → Conn × Event
aisl_stream_set_request c http_method path query =
    (with_state c wait_header, on_open http_method path query)

unfoldable pub waits : StreamState → Bool
unfolding rank
waits s = rank s == rank wait_header

-- What a header changes before its event is raised.
abbrev pub header_effect : Conn → Bytes → Bytes → Conn
header_effect c key value =
    if bytes_eq key (codes "content-length")
    then with_stream c (record c.stream { content_length = strtoll value })
    else if bytes_eq key (codes "connection")
    then aisl_client_set_keepalive c (not (str_cmpi value (codes "close") == 0))
    else c

unfoldable pub aisl_stream_set_header : Conn → Bytes → Bytes → Conn × Option Event
aisl_stream_set_header c key value =
    if waits c.stream.state
    then (header_effect c key value, some (on_header key value))
    else (c, none)

-- The result is whether a body follows, or 2 for a stream that does not read headers.
unfoldable pub aisl_stream_set_end_of_headers : Conn → Conn × ℕ
aisl_stream_set_end_of_headers c =
    if waits c.stream.state
    then (if c.stream.content_length == 0
        then (with_state c ready, 0)
        else (with_state c wait_body, 1))
    else (c, 2)

unfoldable pub takes_body : StreamState → Bool
unfolding rank
takes_body s = rank s == rank wait_body

-- The stream behind a piece of the body that is not too long.
abbrev pub taken : Conn → ℕ → Conn
taken c size =
    let left = c.stream.content_length - size in
    with_stream c (record c.stream {
      content_length = left;
      state = if left == 0 then ready else c.stream.state;
    })

-- The result is `none` for -1.
unfoldable pub aisl_stream_set_body : Conn → Bytes → Conn × Option ℕ × Option Event
aisl_stream_set_body c piece =
    if takes_body c.stream.state
    then (if ltb c.stream.content_length (length piece) then (c, none, none) else (
      taken c (length piece),
      some (if c.stream.content_length - length piece == 0 then 0 else 1),
      some (on_input piece),
    ))
    else (c, some 2, none)

-- the number of bytes in all pieces
abbrev pub total : List Bytes → ℕ
total [] = 0
total (piece ∷ pieces) = length piece + total pieces

-- every piece has at least one byte
abbrev pub IsFed : List Bytes → Type 0
IsFed [] = Unit {0}
IsFed (piece ∷ pieces) = (0 < length piece) × IsFed pieces

pub set_body_piece :
    (c : Conn) (piece : Bytes)
    → c.stream.state ≡ wait_body
    → length piece ≤ c.stream.content_length
    → aisl_stream_set_body c piece ≡ (
      taken c (length piece),
      some (if c.stream.content_length - length piece == 0 then 0 else 1),
      some (on_input piece),
    )
unfolding aisl_stream_set_body takes_body rank
set_body_piece c piece h le =
    let e : takes_body c.stream.state ≡ true = ap takes_body h in
    let f : ltb c.stream.content_length (length piece) ≡ false = ground arith in
    if_true _ _ _ e ∙ if_false _ _ _ f
