-- ===== src/Client/InputKeeps.antt =====
-- aisl_client_input of src/client.c keeps what its parts keep.
use aisl.Prelude.{
  ℕ, suc, ◌+◌, ◌-◌, ◌≤◌, ◌≡◌, refl, sym, ◌∙◌, arith, inl, inr, Bool-cases, Bool, true, false, not,
  ◌&&◌, Bytes, length, ltb, if◌then◌else◌, tests,
}
use aisl.Types.{
  success, stream_request, stream_error, syscall_error, extcall_error, auto_length, HttpVersion,
  http_0_9, http_1_0, http_1_1, http_2_0,
}
use aisl.Types.Response.{bad_request}
use aisl.Stream.{with_stream}
use aisl.Buffer.{Buffer, buffer_shift}
use aisl.Buffer.Grow.{IsValid, length-blit}
use aisl.Buffer.Shift.{buffer_shift-drop, buffer_shift_loses}
use aisl.Api.{
  plain, System, Received, received, lost, no_input, Handshake, shaken, waiting, refused,
}
use aisl.Client.{Session, with_client, with_conn, raise}
use aisl.Client.Depth.{IsPolite}
use aisl.Client.Keeps.{
  Keeps, Keeps-refl, Keeps-update, Keeps-trans, Keeps-conn, raise-Keeps, aisl_client_close-Keeps,
}
use aisl.Client.Parse.{
  ParserStatus, parsed, ready, hungry, failed, shift_input, concluded, parse_rounds, parse_as,
  aisl_client_parse,
}
use aisl.Client.ParseKeeps.{parse_rounds-Keeps}
use aisl.Client.Touch.{
  stored_input, on_received, read_input, on_handshake, aisl_client_input, with_world,
}

pub buffer_shift-IsValid : (b : Buffer) (offset : ℕ) → IsValid b → IsValid (buffer_shift b offset).0
buffer_shift-IsValid b offset v = elim (Bool-cases (ltb (offset + offset) b.used)) [
  | inl few ↦ (buffer_shift-drop b offset v (inr (inl (omega (tests, few))))).0
  | inr many ↦ elim (Bool-cases (ltb offset b.used)) [
    | inl some_left ↦
        (buffer_shift_loses b offset v (omega (tests, some_left)) (omega (tests, many))).0.0
    | inr all ↦ (buffer_shift-drop b offset v (inr (inr (omega (tests, all))))).0
  ]
]

shift_input-Keeps : {W : Type 0} (left : ℕ) (s : Session W) → Keeps s (shift_input left s)
shift_input-Keeps left s =
    Keeps-update s (shift_input left s) refl refl (λ h. h) (λ h. h)
      (buffer_shift-IsValid s.client.input (s.client.input.used - left))

stored_input-Keeps :
    {W : Type 0} (bytes : Bytes) (s : Session W)
    → length bytes ≤ s.client.input.size - s.client.input.used
    → Keeps s (stored_input bytes s)
stored_input-Keeps bytes s h =
    Keeps-update s (stored_input bytes s) refl refl (λ h. h) (λ h. h)
      (λ v. record {
        sized =
            length-blit s.client.input.mem s.client.input.used bytes
              (omega (arith, v.sized, v.fits, h))
            ∙ v.sized;
        fits = omega (arith, v.fits, h);
      })

pub Keeps-if :
    {W : Type 0} (test : Bool) (s a b : Session W)
    → Keeps s a
    → Keeps s b
    → Keeps s (if test then a else b)
Keeps-if true s a b h g = h
Keeps-if false s a b h g = g

pub Keeps-if_pair :
    {W B : Type 0} (test : Bool) (s : Session W) (a b : Session W × B)
    → Keeps s a.0
    → Keeps s b.0
    → Keeps s (if test then a else b).0
Keeps-if_pair true s a b h g = h
Keeps-if_pair false s a b h g = g

module _ {W : Type 0} (sys : System W) (polite : IsPolite sys) where
  concluded-Keeps :
      (s : Session W) (r : Session W × ParserStatus × ℕ) → Keeps s r.0 → Keeps s (concluded sys r).0
  unfolding concluded
  concluded-Keeps s (t, ready, left) h =
      let c = t.client in
      let c' = with_stream c.conn (record c.conn.stream { content_length = auto_length }) in
      let u = with_client t (record c { conn = c'; can_read = false; can_write = true }) in
      let v = raise sys (plain stream_request success) u in
      Keeps-trans s t _ h (
        Keeps-trans t u _ (Keeps-update t u refl refl (λ _. refl) (λ h. h) (λ v. v)) (
          Keeps-trans u v _ (raise-Keeps sys polite (plain stream_request success) u refl)
            (shift_input-Keeps left v)))
  concluded-Keeps s (t, failed, left) h =
      let c = t.client.conn in
      let c' = with_stream c (record c.stream { http_response = bad_request }) in
      let u = with_conn t c' in
      let v = raise sys (plain stream_error success) u in
      Keeps-trans s t _ h (
        Keeps-trans t u _ (Keeps-conn t t.world c') (
          Keeps-trans u v _ (raise-Keeps sys polite (plain stream_error success) u refl)
            (aisl_client_close-Keeps sys polite success v)))
  concluded-Keeps s (t, parsed, left) h = Keeps-trans s t _ h (shift_input-Keeps left t)
  concluded-Keeps s (t, hungry, left) h = Keeps-trans s t _ h (shift_input-Keeps left t)

  rounds-Keeps :
      (size : ℕ) (s : Session W) → Keeps s (concluded sys (parse_rounds sys (suc size) 0 size s)).0
  rounds-Keeps size s = concluded-Keeps s _ (parse_rounds-Keeps sys polite (suc size) 0 size s)

  parse_as-Keeps : (v : HttpVersion) (size : ℕ) (s : Session W) → Keeps s (parse_as sys v size s).0
  unfolding parse_as
  parse_as-Keeps http_2_0 size s = concluded-Keeps s (s, parsed, size) (Keeps-refl s)
  parse_as-Keeps http_0_9 size s = rounds-Keeps size s
  parse_as-Keeps http_1_0 size s = rounds-Keeps size s
  parse_as-Keeps http_1_1 size s = rounds-Keeps size s

  on_received-Keeps :
      (r : Received) (s : Session W)
      → ((bytes : Bytes)
          → r ≡ received bytes
          → length bytes ≤ s.client.input.size - s.client.input.used)
      → Keeps s (on_received sys r s).0
  unfolding on_received aisl_client_parse
  on_received-Keeps (received bytes) s h =
      let t = stored_input bytes s in
      Keeps-trans s t _ (stored_input-Keeps bytes s (h bytes refl))
        (parse_as-Keeps t.client.conn.http_version t.client.input.used t)
  on_received-Keeps no_input s h = Keeps-refl s
  on_received-Keeps lost s h = aisl_client_close-Keeps sys polite syscall_error s

  pub with_world-Keeps : (s : Session W) (w : W) → Keeps s (with_world s w)
  with_world-Keeps s w = Keeps-update s (with_world s w) refl refl (λ h. h) (λ h. h) (λ v. v)

  read_input-Keeps : (s : Session W) → Keeps s (read_input sys s).0
  unfolding read_input
  read_input-Keeps s =
      let room = s.client.input.size - s.client.input.used in
      let (w, r) = sys.recv s.client.secure s.world room in
      let t = with_world s w in
      Keeps-trans s t _ (with_world-Keeps s w) (
        on_received-Keeps r t (λ bytes e. (sys.recv_bounds s.client.secure s.world room bytes e).1))

  on_handshake-Keeps :
      (h : Handshake) (s : Session W)
      → s.client.handshake ≡ false
      → Keeps s (on_handshake sys h s).0
  unfolding on_handshake
  on_handshake-Keeps shaken s e =
      let t = with_client s (record s.client { handshake = false }) in
      Keeps-trans s t _ (Keeps-update s t refl refl (λ h. h) (λ h. sym e ∙ h) (λ v. v))
        (read_input-Keeps t)
  on_handshake-Keeps waiting s e = Keeps-refl s
  on_handshake-Keeps refused s e = aisl_client_close-Keeps sys polite extcall_error s

  pub aisl_client_input-Keeps : (s : Session W) → Keeps s (aisl_client_input sys s).0
  unfolding aisl_client_input
  aisl_client_input-Keeps s =
      let (w, h) = sys.ssl_accept s.world in
      let t = with_world s w in
      elim (Bool-cases (s.client.secure && not s.client.handshake)) [
        | inl e ↦
            rw e (Keeps-trans s t _ (with_world-Keeps s w) (on_handshake-Keeps h t (ground arith)))
        | inr e ↦ rw e (read_input-Keeps s)
      ]
