-- ===== src/Client/Body.antt =====
-- A request's Content-Length and its body: http_10_parse_header and http_10_parse_body of src/http.c
-- with src/stream.c, and the handlers that are called for each piece.
use aisl.Prelude.{
  if_true, if_false, ℕ, ◌-◌, ◌^◌, ◌<◌, ◌≤◌, ◌≡◌, refl, ap, subst, sym, ◌∙◌, some, List, [], ◌∷◌,
  Bytes, codes, true, false, ◌==◌, arith, bytes_eq, bytes_eq_refl, length,
}
use aisl.Prelude.Decimal.{decimal, strtoll-decimal}
use aisl.Stream.{Conn, wait_header, wait_body, ready, rank, with_stream, with_state}
use aisl.Stream.Request.{
  Event, on_header, on_input, waits, header_effect, taken, aisl_stream_set_header,
  aisl_stream_set_end_of_headers, aisl_stream_set_body, total, IsFed, set_body_piece,
}
use aisl.Api.{Raised, carrying, System}
use aisl.Client.{Session, with_conn, raise}
use aisl.Client.Parse.{emit}

-- `c` once it has read the header that announces `n` bytes.
abbrev announced : Conn → ℕ → Conn
announced c n = with_stream c (record c.stream { content_length = n })

length_header :
    (c : Conn) (n : ℕ)
    → c.stream.state ≡ wait_header
    → n < 2 ^ 63
    → aisl_stream_set_header c (codes "content-length") (decimal n)
      ≡ (announced c n, some (on_header (codes "content-length") (decimal n)))
unfolding aisl_stream_set_header waits rank
length_header c n h small =
    let e : waits c.stream.state ≡ true = ap waits h in
    let key : bytes_eq (codes "content-length") (codes "content-length") ≡ true = bytes_eq_refl _ in
    let effect : header_effect c (codes "content-length") (decimal n) ≡ announced c n =
      if_true _ _ _ key ∙ ap (announced c) (strtoll-decimal n small) in
    if_true _ _ _ e ∙ ap (λ c'. (c', some (on_header (codes "content-length") (decimal n)))) effect

body_expected :
    (c : Conn) (n : ℕ)
    → c.stream.state ≡ wait_header
    → 0 < n
    → aisl_stream_set_end_of_headers (announced c n) ≡ (with_state (announced c n) wait_body, 1)
unfolding aisl_stream_set_end_of_headers waits rank
body_expected c n h pos =
    let e : waits c.stream.state ≡ true = ap waits h in
    let f : (n == 0) ≡ false = ground arith in if_true _ _ _ e ∙ if_false _ _ _ f

-- The events of the pieces, the newest first, in front of those raised before.
abbrev pub inputs : List Bytes → List Raised → List Raised
inputs [] log = log
inputs (piece ∷ pieces) log = inputs pieces (carrying (on_input piece) ∷ log)

module _ {W : Type 0} (sys : System W) where
  -- The handler leaves the client as it is when it is told of a request line, a header or input, and
  -- raises no event then.
  abbrev pub Listens : Type 0
  Listens =
      (e : Event) (s : Session W)
      → ((raise sys (carrying e) s).client ≡ s.client)
        × ((raise sys (carrying e) s).log ≡ carrying e ∷ s.log)

  -- The calls of `aisl_stream_set_body` for the pieces of a body in their order, each with the
  -- handler that its event calls.
  unfoldable pub fed : List Bytes → Session W → Session W
  fed [] s = s
  fed (piece ∷ pieces) s =
      let (c, result, event) = aisl_stream_set_body s.client.conn piece in
      fed pieces (emit sys (c, event) s)

  module _ (listens : Listens) where
    -- The stream of `t` is `c`, and `e` the event raised since `s`.
    abbrev Emitted : Conn → Event → Session W → Session W → Type 0
    Emitted c e s t = (t.client.conn ≡ c) × (t.log ≡ carrying e ∷ s.log)

    emit-Emitted : (c : Conn) (e : Event) (s : Session W) → Emitted c e s (emit sys (c, some e) s)
    unfolding emit
    emit-Emitted c e s =
        let (client, log) = listens e (with_conn s c) in (ap (λ c. c.conn) client, log)

    piece-Emitted :
        (piece : Bytes) (s : Session W)
        → s.client.conn.stream.state ≡ wait_body
        → length piece ≤ s.client.conn.stream.content_length
        → let r = aisl_stream_set_body s.client.conn piece in
          Emitted (taken s.client.conn (length piece)) (on_input piece) s (emit sys (r.0, r.2) s)
    piece-Emitted piece s h le =
        let c = taken s.client.conn (length piece) in
        subst (λ r. Emitted c (on_input piece) s (emit sys (r.0, r.2) s))
          (sym (set_body_piece s.client.conn piece h le)) (emit-Emitted c (on_input piece) s)

    -- What the pieces leave: the stream is ready, and these are the events.
    abbrev Fed : List Raised → Session W → Type 0
    Fed log t =
        (t.log ≡ log)
        × (t.client.conn.stream.state ≡ ready)
        × (t.client.conn.stream.content_length ≡ 0)

    fed_all :
        (pieces : List Bytes) (s : Session W) (log : List Raised)
        → s.client.conn.stream.state ≡ wait_body
        → IsFed pieces
        → 0 < total pieces
        → s.client.conn.stream.content_length ≡ total pieces
        → s.log ≡ log
        → Fed (inputs pieces log) (fed pieces s)
    unfolding fed
    fed_all [] s log h f pos e l = absurd (omega (arith, pos))
    fed_all (piece ∷ []) s log h f pos e l =
        let conn = s.client.conn in
        let none_left : (conn.stream.content_length - length piece == 0) ≡ true = ground arith in
        let (same, told) = piece-Emitted piece s h (omega arith) in
        (
          told ∙ ap (λ es. carrying (on_input piece) ∷ es) l,
          ap (λ c. c.stream.state) same ∙ if_true _ _ _ none_left,
          ap (λ c. c.stream.content_length) same ∙ omega arith,
        )
    fed_all (piece ∷ next ∷ pieces) s log h (_, f) pos e l =
        let conn = s.client.conn in
        let some_left : (conn.stream.content_length - length piece == 0) ≡ false =
          ground (arith, f.0) in
        let (same, told) = piece-Emitted piece s h (omega arith) in
        let r = aisl_stream_set_body conn piece in
        fed_all (next ∷ pieces) (emit sys (r.0, r.2) s) (carrying (on_input piece) ∷ log)
          (ap (λ c. c.stream.state) same ∙ if_false _ _ _ some_left ∙ h) f (omega (arith, f.0))
          (ap (λ c. c.stream.content_length) same ∙ omega arith)
          (told ∙ ap (λ es. carrying (on_input piece) ∷ es) l)

    announced-Fed :
        (pieces : List Bytes) (s : Session W) (log : List Raised) (c : Conn)
        → s.client.conn ≡ announced c (total pieces)
        → c.stream.state ≡ wait_header
        → s.log ≡ log
        → IsFed pieces
        → 0 < total pieces
        → let (c', result) = aisl_stream_set_end_of_headers s.client.conn in
          (result ≡ 1) × Fed (inputs pieces log) (fed pieces (with_conn s c'))
    announced-Fed pieces s log c same h l f pos =
        let n = total pieces in
        let expecting = with_state (announced c n) wait_body in
        let eq = ap aisl_stream_set_end_of_headers same ∙ body_expected c n h pos in
        subst (λ r. (r.1 ≡ 1) × Fed (inputs pieces log) (fed pieces (with_conn s r.0))) (sym eq)
          (refl, fed_all pieces (with_conn s expecting) log refl f pos refl l)

    -- A stream that reads headers, and a handler that leaves the client as it is when it is told of a
    -- request line, a header or input, and raises no event then. The request announces a body by a
    -- Content-Length in decimal, and then brings it in pieces of that total length, which is not 0
    -- and below 2^63, none of them empty: each piece is handed to the handler, whole and in order,
    -- behind the header, and behind the last of them the stream is ready for the response.
    pub request_body :
        (s : Session W) (pieces : List Bytes)
        → s.client.conn.stream.state ≡ wait_header
        → IsFed pieces
        → 0 < total pieces
        → total pieces < 2 ^ 63
        → let key = codes "content-length" in
          let value = decimal (total pieces) in
          let read = emit sys (aisl_stream_set_header s.client.conn key value) s in
          let (c, result) = aisl_stream_set_end_of_headers read.client.conn in
          let t = fed pieces (with_conn read c) in
          (result ≡ 1)
          × (t.log ≡ inputs pieces (carrying (on_header key value) ∷ s.log))
          × (t.client.conn.stream.state ≡ ready)
          × (t.client.conn.stream.content_length ≡ 0)
    request_body s pieces h f pos small =
        let c = s.client.conn in
        let n = total pieces in
        let key = codes "content-length" in
        let read = emit sys (aisl_stream_set_header c key (decimal n)) s in
        let emitted : Emitted (announced c n) (on_header key (decimal n)) s read =
          subst (λ r. Emitted (announced c n) (on_header key (decimal n)) s (emit sys r s))
            (sym (length_header c n h small))
            (emit-Emitted (announced c n) (on_header key (decimal n)) s) in
        let (result, all) =
          announced-Fed pieces read (carrying (on_header key (decimal n)) ∷ s.log) c (emitted.0) h
            (emitted.1) f pos in
        (result, all.0, all.1, all.2)
