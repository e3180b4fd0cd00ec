-- ===== src/Client/ParseKeeps.antt =====
-- The parsers of src/http.c, with their events, keep what src/client.c keeps of a client; and each
-- round of the loop of aisl_client_parse takes at least one byte or ends it.
use aisl.Prelude.{
  ℕ, zero, suc, ◌+◌, ◌-◌, ◌≡◌, refl, Option, none, some, arith, inl, inr, Bool-cases, Bytes, length,
  take, length-append, length-take, length-drop, ◌==◌, codes,
}
use aisl.Stream.{
  Conn, StreamState, state_idle, wait_header, wait_body, send_header, send_body, done,
}
use aisl.Stream.Request.{
  Event, aisl_stream_set_request, aisl_stream_set_header, aisl_stream_set_end_of_headers,
  aisl_stream_set_body,
}
use aisl.Http.{Parsed, Request, request, parse_request_line}
use aisl.Http.Header.{HeaderLine, field, end_of_headers, parse_header_line}
use aisl.Http.Extent.{length-parse_request_line}
use aisl.Http.Header.Extent.{length-parse_header_line}
use aisl.Api.{carrying, System}
use aisl.Client.{Session, with_conn}
use aisl.Client.Depth.{IsPolite}
use aisl.Client.Keeps.{Keeps, Keeps-refl, Keeps-update, Keeps-trans, Keeps-conn, raise-Keeps}
use aisl.Client.Parse.{
  ParserStatus, parsed, ready, hungry, failed, input_at, store_at, emit, set_host, announced,
  request_parsed, http_10_parse_request, header_parsed, http_10_parse_header, http_10_parse_body,
  parse_one, continued, parse_rounds,
}

-- Bytes of the same number in the place of those from `pos` on.
pub store_at-Keeps :
    {W : Type 0} (pos : ℕ) (mem : Bytes) (s : Session W)
    → length mem ≡ length (input_at pos s)
    → Keeps s (store_at pos mem s)
store_at-Keeps pos mem s h =
    Keeps-update s (store_at pos mem s) refl refl (λ e. e) (λ e. e)
      (λ v. record {
        sized = omega (
          arith,
          v.sized,
          h,
          length-append (take pos s.client.input.mem) mem,
          length-take pos s.client.input.mem,
          length-drop pos s.client.input.mem,
        );
        fits = v.fits;
      })

module _ {W : Type 0} (sys : System W) (polite : IsPolite sys) where
  emit-Keeps : (r : Conn × Option Event) (s : Session W) → Keeps s (emit sys r s)
  unfolding emit
  emit-Keeps (c, none) s = Keeps-conn s s.world c
  emit-Keeps (c, some e) s =
      let t = with_conn s c in
      Keeps-trans s t _ (Keeps-conn s s.world c) (raise-Keeps sys polite (carrying e) t refl)

  set_host-Keeps : (host : Option Bytes) (s : Session W) → Keeps s (set_host sys host s)
  unfolding set_host
  set_host-Keeps none s = Keeps-refl s
  set_host-Keeps (some host) s =
      emit-Keeps (aisl_stream_set_header s.client.conn (codes "host") host) s

  announced-Keeps : (r : Request) (s : Session W) → Keeps s (announced sys r s)
  unfolding announced
  announced-Keeps r s =
      let c = record s.client.conn { http_version = r.http_version } in
      let (c', e) = aisl_stream_set_request c r.http_method r.path r.query in
      let t = emit sys (c', some e) s in
      Keeps-trans s t _ (emit-Keeps (c', some e) s) (set_host-Keeps r.host t)

  request_parsed-Keeps :
      (size : ℕ) (r : Parsed) (s : Session W) → Keeps s (request_parsed sys size r s).0
  unfolding request_parsed
  request_parsed-Keeps size Parsed.hungry s = Keeps-refl s
  request_parsed-Keeps size Parsed.error s = Keeps-refl s
  request_parsed-Keeps size (request r) s = announced-Keeps r s

  request-Keeps : (pos size : ℕ) (s : Session W) → Keeps s (http_10_parse_request sys pos size s).0
  unfolding http_10_parse_request
  request-Keeps pos size s =
      let (mem, r) = parse_request_line (input_at pos s) size in
      let t = store_at pos mem s in
      Keeps-trans s t _ (store_at-Keeps pos mem s (length-parse_request_line (input_at pos s) size))
        (request_parsed-Keeps size r t)

  header_parsed-Keeps :
      (size : ℕ) (r : HeaderLine) (s : Session W) → Keeps s (header_parsed sys size r s).0
  unfolding header_parsed
  header_parsed-Keeps size HeaderLine.hungry s = Keeps-refl s
  header_parsed-Keeps size HeaderLine.error s = Keeps-refl s
  header_parsed-Keeps size (field key value left) s =
      emit-Keeps (aisl_stream_set_header s.client.conn key value) s
  header_parsed-Keeps size (end_of_headers left) s =
      Keeps-conn s s.world (aisl_stream_set_end_of_headers s.client.conn).0

  header-Keeps : (pos size : ℕ) (s : Session W) → Keeps s (http_10_parse_header sys pos size s).0
  unfolding http_10_parse_header
  header-Keeps pos size s =
      let (mem, r) = parse_header_line (input_at pos s) size in
      let t = store_at pos mem s in
      Keeps-trans s t _ (store_at-Keeps pos mem s (length-parse_header_line (input_at pos s) size))
        (header_parsed-Keeps size r t)

  body-Keeps : (pos size : ℕ) (s : Session W) → Keeps s (http_10_parse_body sys pos size s).0
  unfolding http_10_parse_body
  body-Keeps pos size s =
      let (c, result, event) = aisl_stream_set_body s.client.conn (take size (input_at pos s)) in
      elim (Bool-cases (size == 0)) [
        | inl e ↦ rw e (Keeps-refl s)
        | inr e ↦ rw e (emit-Keeps (c, event) s)
      ]

  pub parse_one-Keeps :
      (state : StreamState) (pos size : ℕ) (s : Session W)
      → Keeps s (parse_one sys state pos size s).0
  unfolding parse_one
  parse_one-Keeps state_idle pos size s = request-Keeps pos size s
  parse_one-Keeps wait_header pos size s = header-Keeps pos size s
  parse_one-Keeps wait_body pos size s = body-Keeps pos size s
  parse_one-Keeps StreamState.ready pos size s = Keeps-refl s
  parse_one-Keeps send_header pos size s = Keeps-refl s
  parse_one-Keeps send_body pos size s = Keeps-refl s
  parse_one-Keeps done pos size s = Keeps-refl s

  continued-Keeps :
      (go : ℕ → ℕ → Session W → Session W × ParserStatus × ℕ) (pos size : ℕ) (s : Session W)
      (r : Session W × ParserStatus × ℕ)
      → ((pos size : ℕ) (s : Session W) → Keeps s (go pos size s).0)
      → Keeps s r.0
      → Keeps s (continued go pos size r).0
  continued-Keeps go pos size s (t, parsed, left) all h =
      Keeps-trans s t _ h (all (pos + (size - left)) left t)
  continued-Keeps go pos size s (t, ready, left) all h = h
  continued-Keeps go pos size s (t, hungry, left) all h = h
  continued-Keeps go pos size s (t, failed, left) all h = h

  pub parse_rounds-Keeps :
      (rounds pos size : ℕ) (s : Session W) → Keeps s (parse_rounds sys rounds pos size s).0
  unfolding parse_rounds
  parse_rounds-Keeps zero pos size s = Keeps-refl s
  parse_rounds-Keeps (suc rounds) pos size s =
      let r = parse_one sys s.client.conn.stream.state pos size s in
      continued-Keeps (parse_rounds sys rounds) pos size s r (parse_rounds-Keeps rounds)
        (parse_one-Keeps s.client.conn.stream.state pos size s)
