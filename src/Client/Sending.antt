-- ===== src/Client/Sending.antt =====
-- aisl_client_output of src/client.c: how a finished response leaves the client.
use aisl.Prelude.{ℕ, ◌+◌, ◌≤◌, ◌<◌, ◌≡◌, none, false, drop}
use aisl.Buffer.{contents}
use aisl.Buffer.Grow.{IsValid}
use aisl.Types.{Status, success, idle, syscall_error}
use aisl.Stream.{Conn, done, with_stream, aisl_stream_shift}
use aisl.Api.{System, Sent, sent, no_room, broken}
use aisl.Client.{Session, with_conn}

-- A response that is done and waits to be sent, on a connection that is then closed.
pub record IsWhole (c : Conn) : Type 0 where
  pub valid : IsValid c.stream.buffer
  pub finished : c.stream.state ≡ done
  pub once : c.keepalive ≡ false
  pub quiet : c.stream.output_chunked ≡ false

-- What the answer of `send` or `SSL_write` leaves of such a response.
abbrev pub Sends : {W : Type 0} → Session W → Sent → Session W × Status → Type 0
Sends s (sent n) (t, status) =
    let b = s.client.conn.stream.buffer in
    (status ≡ success)
    × (n + n < b.used
        → IsWhole t.client.conn
          × (contents t.client.conn.stream.buffer ≡ drop n (contents b))
          × (t.client.fd ≡ s.client.fd)
          × (t.log ≡ s.log))
    × (b.used ≤ n + n → t.client.fd ≡ none)
Sends s no_room (t, status) = (status ≡ idle) × (t.client ≡ s.client) × (t.log ≡ s.log)
Sends s broken (t, status) = (status ≡ syscall_error) × (t.client.fd ≡ none)

module _ {W : Type 0} (sys : System W) where
  -- The session behind the shift.
  abbrev shifted : ℕ → Session W → Session W
  shifted n s = with_conn s (with_stream s.client.conn (aisl_stream_shift s.client.conn.stream n))
