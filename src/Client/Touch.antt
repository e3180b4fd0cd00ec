-- ===== src/Client/Touch.antt =====
-- aisl_client_touch of src/client.c, with the input and output that it does.
use aisl.Prelude.{
  ℕ, ◌+◌, ◌-◌, ◌/◌, Bool, true, false, not, ◌&&◌, Bytes, length, ltb, ◌==◌, if◌then◌else◌,
}
use aisl.Types.{Status, success, idle, syscall_error, extcall_error, stream_output, stream_close}
use aisl.Buffer.{blit}
use aisl.Stream.{
  with_stream, aisl_get_output_event, aisl_stream_get_buffer_space, aisl_stream_get_buffer_size,
  aisl_stream_get_data, aisl_client_get_keepalive, aisl_stream_shift, aisl_stream_is_done,
  aisl_stream_new,
}
use aisl.Api.{
  plain, System, Received, received, lost, no_input, Sent, sent, broken, no_room, Handshake, shaken,
  waiting, refused,
}
use aisl.Client.{aisl_client_is_secure, Session, with_client, with_conn, raise, aisl_client_close}
use aisl.Client.Parse.{aisl_client_parse}

abbrev pub with_world : {W : Type 0} → Session W → W → Session W
with_world s w = record s { world = w }

-- The bytes received behind those that the input buffer holds.
abbrev pub stored_input : {W : Type 0} → Bytes → Session W → Session W
stored_input bytes s =
    let b = s.client.input in
    with_client s (record s.client {
      input = record b { mem = blit b.mem b.used bytes; used = b.used + length bytes };
    })

-- `status < 0`
unfoldable pub is_negative : Status → Bool
is_negative success = false
is_negative idle = false
is_negative _ = true

-- `result == AISL_IDLE`
unfoldable pub is_idle : Status → Bool
is_idle idle = true
is_idle _ = false

unfoldable pub is_success : Status → Bool
is_success success = true
is_success _ = false

module _ {W : Type 0} (sys : System W) where
  -- `aisl_client_close` in front of a return of the same status.
  abbrev pub closed_as : Status → Session W → Session W × Status
  closed_as st s = (aisl_client_close sys st s, st)

  unfoldable pub on_received : Received → Session W → Session W × Status
  on_received (received bytes) s =
      let s' = stored_input bytes s in aisl_client_parse sys s'.client.input.used s'
  on_received no_input s = (s, idle)
  on_received lost s = closed_as syscall_error s

  unfoldable pub read_input : Session W → Session W × Status
  read_input s =
      let (w, r) = sys.recv s.client.secure s.world (s.client.input.size - s.client.input.used) in
      on_received r (with_world s w)

  unfoldable pub on_handshake : Handshake → Session W → Session W × Status
  on_handshake shaken s = read_input (with_client s (record s.client { handshake = false }))
  on_handshake waiting s = (s, idle)
  on_handshake refused s = closed_as extcall_error s

  unfoldable pub aisl_client_input : Session W → Session W × Status
  aisl_client_input s =
      let (w, h) = sys.ssl_accept s.world in
      if s.client.secure && not s.client.handshake
      then on_handshake h (with_world s w)
      else read_input s

  -- `aisl_stream_free(s)`: the event, behind which the memory is gone.
  abbrev pub stream_freed : Session W → Session W
  stream_freed = raise sys (plain stream_close success)

  unfoldable pub new_stream : Session W → Session W × Bool
  new_stream s =
      let (w, given) = sys.calloc_stream s.world in
      let c = s.client in
      let next = record c { next_id = c.next_id + 1 } in
      if given
      then (
        record s {
          world = w;
          client = record next { conn = record c.conn { stream = aisl_stream_new c.next_id } };
        },
        true,
      )
      else (record s { world = w; client = record next { has_stream = false } }, false)

  -- The end of a response that is sent.
  unfoldable pub response_sent : Session W → Session W
  response_sent s =
      let (s', fresh) = new_stream (stream_freed s) in
      if aisl_client_get_keepalive s.client.conn
      then (if fresh then s' else aisl_client_close sys success s')
      else aisl_client_close sys success s

  unfoldable pub on_sent : Sent → Session W → Session W × Status
  on_sent (sent n) s =
      let c = s.client.conn in
      let s' = with_conn s (with_stream c (aisl_stream_shift c.stream n)) in
      ((if aisl_stream_is_done s'.client.conn.stream then response_sent s' else s'), success)
  on_sent no_room s = (s, idle)
  on_sent broken s = closed_as syscall_error s

  -- STREAM_OUTPUT, for a handler that has asked for it, where half the buffer or more is free.
  unfoldable pub asked_for_output : Session W → Session W
  asked_for_output s =
      let stream = s.client.conn.stream in
      if aisl_get_output_event stream
        && not (ltb (aisl_stream_get_buffer_space stream) (aisl_stream_get_buffer_size stream / 2))
      then raise sys (plain stream_output success) s
      else s

  unfoldable pub send_output : Session W → Session W × Status
  send_output s =
      let stream = s.client.conn.stream in
      let (w, r) =
        sys.send (aisl_client_is_secure s.client) s.world (aisl_stream_get_data stream) in
      if stream.buffer.used == 0 then (s, idle) else on_sent r (with_world s w)

  unfoldable pub aisl_client_output : Session W → Session W × Status
  aisl_client_output s = send_output (asked_for_output s)

  -- The clock at the end of a touch: a client that was silent for `timeout` seconds is closed. The
  -- test is `now - client->timestamp < timeout` with the difference on the other side, for a clock
  -- that was set back.
  unfoldable pub timed : ℕ → Status → Session W → Session W × Status
  timed timeout result s =
      let (w, now) = sys.time s.world in
      let s' = with_world s w in
      if is_success result
      then (with_client s' (record s'.client { timestamp = now }), result)
      else if ltb now (s.client.timestamp + timeout)
      then (s', result)
      else (aisl_client_close sys result s', result)

  unfoldable pub after_input : ℕ → Session W × Status → Session W × Status
  after_input timeout (s, result) =
      let (s', status) = aisl_client_output s in
      if is_negative result
      then (s, result)
      else if s.client.can_write
      then (if is_negative status
          then (s', status)
          else timed timeout (if is_idle result then status else result) s')
      else timed timeout result s

  unfoldable pub aisl_client_touch : ℕ → Session W → Session W × Status
  aisl_client_touch timeout s =
      after_input timeout (if s.client.can_read then aisl_client_input s else (s, idle))

  -- The events of `aisl_client_free`, behind which the client is gone.
  unfoldable pub aisl_client_free : Session W → Session W
  aisl_client_free s =
      let s' = aisl_client_close sys success s in
      if s'.client.has_stream then stream_freed s' else s'
