-- ===== src/Client/Request.antt =====
-- A whole request, read by aisl_client_parse of src/client.c where no handler is set.
use aisl.Prelude.{
  ℕ, suc, ◌≡◌, ◌≢◌, refl, sym, ap, subst, Option, none, List, ◌∷◌, ◌++◌, Bytes, true, false, length,
  arith,
}
use aisl.Types.{
  Status, success, stream_request, auto_length, HttpMethod, method_unknown, HttpVersion, http_1_0,
}
use aisl.Http.Cuts.{request_text}
use aisl.Http.Scan.{all_chars, is_path_char, IsQuery}
use aisl.Stream.{Conn, state_idle, with_stream}
use aisl.Stream.Request.{on_header}
use aisl.Api.{Raised, carrying, plain, System}
use aisl.Client.{Session, with_client, chosen_by, chosen, run, raise_within, raise}
use aisl.Client.Lines.{Line, headers_text, ArePlain}
use aisl.Client.Fields.{header_events, Completes, Holds}
use aisl.Client.Opening.{opening, told_of, headers_fit, parse_rounds-request_text}
use aisl.Client.Parse.{
  ParserStatus, parsed, ready, hungry, failed, parse_rounds, concluded, parse_as, aisl_client_parse,
}

-- A request was read and told of: these events in front of STREAM_REQUEST, and the client has
-- turned from reading to writing.
abbrev pub IsRead : {W : Type 0} → List Raised → Session W × Status → Type 0
IsRead log (s, status) =
    (status ≡ success)
    × (s.log ≡ plain stream_request success ∷ log)
    × (s.client.can_read ≡ false)
    × (s.client.can_write ≡ true)

module _ {W : Type 0} (sys : System W) (quiet : sys.callback ≡ none) where
  raise_quiet : (e : Raised) (s : Session W) → raise sys e s ≡ record s { log = e ∷ s.log }
  unfolding raise raise_within chosen run
  raise_quiet e s = ap (λ f. let (t, p) = chosen_by f e s in run sys p 2 t) quiet

  -- What follows the loop for a complete request.
  concluded-Completes :
      (log : List Raised) (c : Conn) (s : Session W) (r : Session W × ParserStatus × ℕ)
      → Completes (λ w p. Unit {0}) log c s r
      → IsRead log (concluded sys r)
  unfolding concluded
  concluded-Completes log conn s (t, ready, left) (_, _, e, _, _) =
      let c = t.client in
      let c' = with_stream c.conn (record c.conn.stream { content_length = auto_length }) in
      let u = with_client t (record c { conn = c'; can_read = false; can_write = true }) in
      rw (raise_quiet (plain stream_request success) u)
        (refl, ap (λ es. plain stream_request success ∷ es) e, refl, refl)
  concluded-Completes log c s (t, parsed, left) (h, _, _, _, _) = absurd (cc)
  concluded-Completes log c s (t, hungry, left) (h, _, _, _, _) = absurd (cc)
  concluded-Completes log c s (t, failed, left) (h, _, _, _, _) = absurd (cc)

  module _ (m : HttpMethod) (path : Bytes) (query : Option Bytes) (v : HttpVersion)
      (known : m ≢ method_unknown) (ok : all_chars is_path_char path ≡ true)
      (good : IsQuery query) where
    -- aisl_client_parse reads a whole request without a body. For a client of HTTP/1.0 with an idle
    -- stream that expects no body and no handler, whose input begins with a request line of a known
    -- method, with a path and a query of bytes that are no NUL, space, colon or line end (nor, in
    -- the path, a question mark), with headers that are read as they are, none of them a
    -- Content-Length, and an empty line: the events are STREAM_OPEN with the method, the path and
    -- the query, one STREAM_HEADER for each header, in their order, with the key in lower case, and
    -- STREAM_REQUEST; the client stops to read and begins to write.
    pub aisl_client_parse-request_text :
        (hs : List Line) (beyond : Bytes) (s : Session W)
        → ArePlain hs
        → s.client.conn.http_version ≡ http_1_0
        → s.client.conn.stream.state ≡ state_idle
        → s.client.conn.stream.content_length ≡ 0
        → s.client.input.mem ≡ request_text m path query v (headers_text hs ++ beyond)
        → IsRead
            (header_events hs (opening m path query v ∷ s.log))
            (aisl_client_parse sys (length (request_text m path query v (headers_text hs))) s)
    unfolding aisl_client_parse parse_as
    aisl_client_parse-request_text hs beyond s lines version idle no_body mem =
        let size = length (request_text m path query v (headers_text hs)) in
        let log = header_events hs (opening m path query v ∷ s.log) in
        let at : Holds 0 (request_text m path query v (headers_text hs ++ beyond)) s = record {
          at_pos = mem;
          inside = omega arith;
        } in
        subst (λ v. IsRead log (parse_as sys v size s)) (sym version)
          (concluded-Completes log
            (told_of m path query v hs s.client.conn.stream.u_ptr s.client.conn) s
            (parse_rounds sys (suc size) 0 size s)
            (parse_rounds-request_text m path query v known ok good sys (λ e w. w) (λ w p. Unit {0})
              (λ key value t h. (raise_quiet (carrying (on_header key value)) t, tt))
              (λ w. Unit {0}) (λ w. w) (λ w p. p)
              (λ t h. (raise_quiet (opening m path query v) t, tt)) hs beyond size 0 s lines idle
              no_body tt at (headers_fit m path query v known ok good hs)))
