-- ===== src/Client/TouchKeeps.antt =====
-- aisl_client_touch and aisl_client_free of src/client.c keep what their parts keep.
use aisl.Prelude.{ℕ, ◌+◌, refl, ltb, ◌==◌, if◌then◌else◌}
use aisl.Types.{Status, success, stream_output, stream_close, syscall_error}
use aisl.Stream.{with_stream, aisl_stream_shift, aisl_stream_is_done}
use aisl.Buffer.{contents}
use aisl.Api.{plain, System, Sent, sent, broken, no_room}
use aisl.Client.{Session, with_conn, aisl_client_close}
use aisl.Client.Depth.{IsPolite}
use aisl.Client.Keeps.{
  Keeps, Keeps-refl, Keeps-update, Keeps-trans, Keeps-conn, raise-Keeps, aisl_client_close-Keeps,
}
use aisl.Client.Touch.{
  stream_freed, new_stream, response_sent, on_sent, asked_for_output, send_output,
  aisl_client_output, is_negative, is_idle, is_success, timed, after_input, aisl_client_touch,
  aisl_client_free, with_world,
}
use aisl.Client.InputKeeps.{Keeps-if, Keeps-if_pair, with_world-Keeps, aisl_client_input-Keeps}

module _ {W : Type 0} (sys : System W) (polite : IsPolite sys) where
  pub stream_freed-Keeps : (s : Session W) → Keeps s (stream_freed sys s)
  stream_freed-Keeps s = raise-Keeps sys polite (plain stream_close success) s refl

  new_stream-Keeps : (s : Session W) → Keeps s (new_stream sys s).0
  unfolding new_stream
  new_stream-Keeps s =
      Keeps-if_pair (sys.calloc_stream s.world).1 s _ _
        (Keeps-update s _ refl refl (λ h. h) (λ h. h) (λ v. v))
        (Keeps-update s _ refl refl (λ h. h) (λ h. h) (λ v. v))

  response_sent-Keeps : (s : Session W) → Keeps s (response_sent sys s)
  unfolding response_sent
  response_sent-Keeps s =
      let t = stream_freed sys s in
      let (u, fresh) = new_stream sys t in
      let h = Keeps-trans s t u (stream_freed-Keeps s) (new_stream-Keeps t) in
      Keeps-if s.client.conn.keepalive s _ _
        (Keeps-if fresh s _ _ h
          (Keeps-trans s u _ h (aisl_client_close-Keeps sys polite success u)))
        (aisl_client_close-Keeps sys polite success s)

  on_sent-Keeps : (r : Sent) (s : Session W) → Keeps s (on_sent sys r s).0
  unfolding on_sent
  on_sent-Keeps (sent n) s =
      let c = s.client.conn in
      let t = with_conn s (with_stream c (aisl_stream_shift c.stream n)) in
      Keeps-trans s t _ (Keeps-conn s s.world t.client.conn) (
        Keeps-if (aisl_stream_is_done t.client.conn.stream) t _ _ (response_sent-Keeps t)
          (Keeps-refl t))
  on_sent-Keeps no_room s = Keeps-refl s
  on_sent-Keeps broken s = aisl_client_close-Keeps sys polite syscall_error s

  asked_for_output-Keeps : (s : Session W) → Keeps s (asked_for_output sys s)
  unfolding asked_for_output
  asked_for_output-Keeps s =
      Keeps-if _ s _ _ (raise-Keeps sys polite (plain stream_output success) s refl) (Keeps-refl s)

  send_output-Keeps : (s : Session W) → Keeps s (send_output sys s).0
  unfolding send_output
  send_output-Keeps s =
      let (w, r) = sys.send s.client.secure s.world (contents s.client.conn.stream.buffer) in
      let t = with_world s w in
      Keeps-if_pair (s.client.conn.stream.buffer.used == 0) s _ _ (Keeps-refl s)
        (Keeps-trans s t _ (with_world-Keeps sys polite s w) (on_sent-Keeps r t))

  aisl_client_output-Keeps : (s : Session W) → Keeps s (aisl_client_output sys s).0
  unfolding aisl_client_output
  aisl_client_output-Keeps s =
      let t = asked_for_output sys s in
      Keeps-trans s t _ (asked_for_output-Keeps s) (send_output-Keeps t)

  timed-Keeps :
      (timeout : ℕ) (result : Status) (s : Session W) → Keeps s (timed sys timeout result s).0
  unfolding timed
  timed-Keeps timeout result s =
      let (w, now) = sys.time s.world in
      let t = with_world s w in
      let h = with_world-Keeps sys polite s w in
      Keeps-if_pair (is_success result) s _ _
        (Keeps-update s _ refl refl (λ h. h) (λ h. h) (λ v. v))
        (Keeps-if_pair (ltb now (s.client.timestamp + timeout)) s _ _ h
          (Keeps-trans s t _ h (aisl_client_close-Keeps sys polite result t)))

  after_input-Keeps :
      (timeout : ℕ) (s : Session W) (r : Session W × Status)
      → Keeps s r.0
      → Keeps s (after_input sys timeout r).0
  unfolding after_input
  after_input-Keeps timeout s (t, result) h =
      let (u, status) = aisl_client_output sys t in
      let k = Keeps-trans s t u h (aisl_client_output-Keeps t) in
      let last = if is_idle result then status else result in
      Keeps-if_pair (is_negative result) s _ _ h (
        Keeps-if_pair t.client.can_write s _ _
          (Keeps-if_pair (is_negative status) s _ _ k
            (Keeps-trans s u _ k (timed-Keeps timeout last u)))
          (Keeps-trans s t _ h (timed-Keeps timeout result t)))

  -- A touch of a client whose handler does not close it within CLIENT_DISCONNECT: CLIENT_DISCONNECT
  -- is raised as often as the client goes offline, at most once; a client that is offline stays so;
  -- one that does not read any more never reads again; one whose handshake is due stays so; the
  -- input buffer stays well formed, and the events raised before stay.
  pub aisl_client_touch-Keeps :
      (timeout : ℕ) (s : Session W) → Keeps s (aisl_client_touch sys timeout s).0
  unfolding aisl_client_touch
  aisl_client_touch-Keeps timeout s =
      after_input-Keeps timeout s _ (
        Keeps-if_pair s.client.can_read s _ _ (aisl_client_input-Keeps sys polite s) (Keeps-refl s))

  pub aisl_client_free-Keeps : (s : Session W) → Keeps s (aisl_client_free sys s)
  unfolding aisl_client_free
  aisl_client_free-Keeps s =
      let t = aisl_client_close sys success s in
      let h = aisl_client_close-Keeps sys polite success s in
      Keeps-if t.client.has_stream s _ _ (Keeps-trans s t _ h (stream_freed-Keeps t)) h
