-- ===== src/Client/Opening.antt =====
-- The loop of aisl_client_parse of src/client.c over a whole request, where the handler only looks
-- on after it has answered the request line.
use aisl.Prelude.{
  ℕ, suc, ◌+◌, ◌-◌, ◌<◌, ◌≡◌, ◌≢◌, refl, sym, ap, subst, ◌∙◌, Option, List, [], ◌∷◌, ◌++◌, Bytes,
  true, length, take, drop, arith, length-append, length-take, drop_exact, append_assoc, replicate,
}
use aisl.Types.{HttpMethod, method_unknown, HttpVersion}
use aisl.Http.{Parsed}
use aisl.Http.Cuts.{request_text, cut_text, split_request, request_text-append}
use aisl.Http.Extent.{length-parse_request_line}
use aisl.Http.Line.{parse_request_line-request_text}
use aisl.Http.Scan.{all_chars, is_path_char, IsQuery}
use aisl.Stream.{
  Conn, StreamState, state_idle, wait_header, with_state, with_stream, aisl_set_context,
}
use aisl.Stream.Request.{Event, on_open, aisl_stream_set_request}
use aisl.Api.{Raised, carrying, System}
use aisl.Client.{Session, with_conn, raise}
use aisl.Http.Header.Field.{header_text, header_text-append}
use aisl.Http.Header.Sweep.{line_tail}
use aisl.Client.Lines.{Line, headers_text, ArePlain}
use aisl.Client.Fields.{
  header_events, Completes, Holds, drop-stored, LooksOn, parse_rounds-headers_text,
}
use aisl.Client.Effects.{headers_effect}
use aisl.Client.Parse.{
  parsed, store_at, emit, set_host, announced, request_parsed, http_10_parse_request, parse_one,
  continued, parse_rounds,
}

length-header_text : (h : Line) → 0 < length (header_text h.key h.before h.value h.after [])
length-header_text h = omega (
  arith,
  length-append h.key (b':' ∷ (replicate h.before b' ' ++ (h.value ++ line_tail h.after []))),
)

length-headers_text : (hs : List Line) → length hs < length (headers_text hs)
length-headers_text [] = omega arith
length-headers_text (h ∷ hs) =
    let whole = header_text h.key h.before h.value h.after in
    omega (
      arith,
      length-headers_text hs,
      ap length (header_text-append h.key h.value [] (headers_text hs) h.before h.after),
      length-append (whole []) (headers_text hs),
      length-header_text h,
    )

module _ (m : HttpMethod) (path : Bytes) (query : Option Bytes) (v : HttpVersion) where
  -- The event of the request line.
  abbrev pub open_event : Event
  open_event = let r = split_request m path query v 0 in on_open m r.path r.query

  abbrev pub opening : Raised
  opening = carrying open_event

  cut-append : (rest : Bytes) → cut_text m path query v rest ≡ cut_text m path query v [] ++ rest
  cut-append rest = simp append_assoc

  -- The stream and its client behind the request line, where the handler has set the context `p`,
  -- and behind the headers.
  abbrev pub greeted : ℕ → Conn → Conn
  greeted p c =
      let c' = with_state (record c { http_version = v }) wait_header in
      with_stream c' (aisl_set_context c'.stream p)

  abbrev pub told_of : List Line → ℕ → Conn → Conn
  told_of hs p c = with_state (headers_effect hs (greeted p c)) StreamState.ready

  -- What the handler does with the request line where `Start` holds of the world: it changes the
  -- world and the user's pointer only, and `Inv` holds after it.
  abbrev pub Opens :
      {W : Type 0} → System W → (W → ℕ → Type 0) → (W → Type 0) → (W → W) → (W → ℕ → ℕ) → Type 0
  Opens {W} sys Inv Start entered pointer =
      (s : Session W)
      → Start s.world
      → let p = pointer s.world s.client.conn.stream.u_ptr in
        (raise sys opening s
          ≡ record (with_conn s
              (with_stream s.client.conn (aisl_set_context s.client.conn.stream p))) {
                world = entered s.world;
                log = opening ∷ s.log;
              })
        × Inv (entered s.world) p

  module _ (known : m ≢ method_unknown) (ok : all_chars is_path_char path ≡ true)
      (good : IsQuery query) where
    length-cut :
        (rest beyond : Bytes)
        → length (cut_text m path query v (rest ++ beyond))
          ≡ length (request_text m path query v rest) + length beyond
    length-cut rest beyond =
        let line = parse_request_line-request_text m path query v rest beyond known ok good in
        let whole = request_text m path query v in
        omega (
          arith,
          length-parse_request_line (whole (rest ++ beyond)) (length (whole rest)),
          ap (λ (r : Bytes × Parsed). length r.0) line,
          ap length (request_text-append m path query v rest beyond),
          length-append (whole rest) beyond,
        )

    drop-cut :
        (rest beyond : Bytes)
        → drop
            (length (request_text m path query v rest) - length rest)
            (cut_text m path query v (rest ++ beyond))
          ≡ rest ++ beyond
    drop-cut rest beyond =
        let size = length (request_text m path query v rest) in
        ap (drop (size - length rest)) (cut-append (rest ++ beyond))
        ∙ drop_exact (size - length rest) (cut_text m path query v []) (rest ++ beyond) (
            omega (
              arith,
              length-cut rest beyond,
              ap length (cut-append (rest ++ beyond)),
              length-append (cut_text m path query v []) (rest ++ beyond),
              length-append rest beyond,
            ))

    pub headers_fit :
        (hs : List Line) → length hs < length (request_text m path query v (headers_text hs))
    headers_fit hs = omega (
      arith,
      length-headers_text hs,
      ap length (request_text-append m path query v [] (headers_text hs)),
      length-append (request_text m path query v []) (headers_text hs),
    )

    module _ {W : Type 0} (sys : System W) (heard : Event → W → W) (Inv : W → ℕ → Type 0)
        (looks : LooksOn sys heard Inv) (Start : W → Type 0) (entered : W → W) (pointer : W → ℕ → ℕ)
        (opens : Opens sys Inv Start entered pointer) where
      -- The session behind the request line.
      abbrev opened : ℕ → Bytes → Session W → Session W
      opened pos cut s =
          let t = store_at pos cut s in
          record (with_conn t
            (greeted (pointer s.world s.client.conn.stream.u_ptr) s.client.conn)) {
              world = entered s.world;
              log = opening ∷ s.log;
            }

      parse_line :
          (rest beyond : Bytes) (pos : ℕ) (s : Session W)
          → Start s.world
          → Holds pos (request_text m path query v (rest ++ beyond)) s
          → http_10_parse_request sys pos (length (request_text m path query v rest)) s
            ≡ (opened pos (cut_text m path query v (rest ++ beyond)) s, parsed, length rest)
      unfolding http_10_parse_request request_parsed announced emit set_host aisl_stream_set_request
      parse_line rest beyond pos s start at =
          let line = parse_request_line-request_text m path query v rest beyond known ok good in
          rw (at.at_pos, line)
            (ap {A = Session W} (λ t. (t, parsed, length rest)) ((opens _ start).0))

      parse_one_idle :
          (pos size : ℕ) (s : Session W)
          → s.client.conn.stream.state ≡ state_idle
          → parse_one sys s.client.conn.stream.state pos size s
            ≡ http_10_parse_request sys pos size s
      unfolding parse_one
      parse_one_idle pos size s e = ap (λ st. parse_one sys st pos size s) e

      -- The loop reads a request line and the headers behind it to their end.
      pub parse_rounds-request_text :
          (hs : List Line) (beyond : Bytes) (rounds pos : ℕ) (s : Session W)
          → ArePlain hs
          → s.client.conn.stream.state ≡ state_idle
          → s.client.conn.stream.content_length ≡ 0
          → Start s.world
          → Holds pos (request_text m path query v (headers_text hs ++ beyond)) s
          → length hs < rounds
          → Completes Inv
              (header_events hs (opening ∷ s.log))
              (told_of hs (pointer s.world s.client.conn.stream.u_ptr) s.client.conn)
              s
              (parse_rounds sys
                (suc rounds)
                pos
                (length (request_text m path query v (headers_text hs)))
                s)
      unfolding parse_rounds
      parse_rounds-request_text hs beyond rounds pos s lines idle no_body start at h =
          let rest = headers_text hs in
          let size = length (request_text m path query v rest) in
          let cut = cut_text m path query v (rest ++ beyond) in
          let t = opened pos cut s in
          let step = parse_one_idle pos size s idle ∙ parse_line rest beyond pos s start at in
          let next : Holds (pos + (size - length rest)) (rest ++ beyond) t = record {
            at_pos =
                drop-stored pos (size - length rest) s.client.input.mem cut at.inside
                ∙ drop-cut rest beyond;
            inside = omega (
              arith,
              at.inside,
              length-append (take pos s.client.input.mem) cut,
              length-take pos s.client.input.mem,
              length-cut rest beyond,
            );
          } in
          subst
            (λ r.
              Completes Inv (header_events hs (opening ∷ s.log))
                (told_of hs (pointer s.world s.client.conn.stream.u_ptr) s.client.conn) s
                (continued (parse_rounds sys rounds) pos size r))
            (sym step)
            (parse_rounds-headers_text sys heard Inv looks hs beyond rounds
              (pos + (size - length rest)) t lines (record { waits = refl; no_body = no_body })
              ((opens s start).1) next h)
