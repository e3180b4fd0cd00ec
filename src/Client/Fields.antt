-- ===== src/Client/Fields.antt =====
-- The headers of a request, read by the loop of aisl_client_parse of src/client.c where the handler
-- only looks on.
use aisl.Prelude.{
  ℕ, zero, suc, ◌+◌, ◌-◌, ◌≤◌, ◌<◌, ◌≡◌, refl, sym, ap, subst, ◌∙◌, some, List, [], ◌∷◌, ◌++◌,
  Bytes, codes, bytes_eq, true, false, map, to_lower, length, take, drop, arith, inl, inr,
  Bool-cases, if_true, length-append, length-take, drop-append_ge, ◌==◌,
}
use aisl.Http.Scan.{all_chars}
use aisl.Http.Header.{
  end_of_headers, parse_header_line, scan_header, header_char, header_byte, swept, cut_header,
}
use aisl.Http.Header.Field.{
  header_text, cut_header_text, header_text-append, parse_header_line-header_text,
}
use aisl.Http.Header.Sweep.{is_key_char, is_value}
use aisl.Stream.{Conn, StreamState, wait_header, with_state, rank}
use aisl.Stream.Request.{
  Event, on_header, header_effect, waits, aisl_stream_set_header, aisl_stream_set_end_of_headers,
}
use aisl.Api.{Raised, carrying, System}
use aisl.Client.{Session, with_conn, raise}
use aisl.Client.Parse.{
  ParserStatus, parsed, ready, hungry, failed, input_at, store_at, emit, header_parsed,
  http_10_parse_header, parse_one, continued, parse_rounds,
}
use aisl.Client.Effects.{headers_effect, header_effect-u_ptr}
use aisl.Client.Lines.{Line, headers_text, ArePlain, length-cut, drop-cut}

-- The events of the headers, the newest first, in front of those raised before.
abbrev pub header_events : List Line → List Raised → List Raised
header_events [] log = log
header_events (h ∷ hs) log =
    header_events hs (carrying (on_header (map to_lower h.key) h.value) ∷ log)

-- The request is complete, nothing is left of the input, these are the events, and of the client of
-- `s` only the input buffer and `conn` have changed; `Inv` holds of the world and of the user's
-- pointer.
abbrev pub Completes :
    {W : Type 0}
    → (W → ℕ → Type 0)
    → List Raised
    → Conn
    → Session W
    → Session W × ParserStatus × ℕ
    → Type 0
Completes Inv log c s (s', status, left) =
    (status ≡ ready)
    × (left ≡ 0)
    × (s'.log ≡ log)
    × (s'.client ≡ record s.client { conn = c; input = s'.client.input })
    × Inv s'.world s'.client.conn.stream.u_ptr

-- A stream that reads headers and knows of no body.
pub record ReadsHeaders (c : Conn) : Type 0 where
  pub waits : c.stream.state ≡ wait_header
  pub no_body : c.stream.content_length ≡ 0

-- The input from `pos` on.
pub record Holds {W : Type 0} (pos : ℕ) (text : Bytes) (s : Session W) : Type 0 where
  pub at_pos : input_at pos s ≡ text
  pub inside : pos ≤ length s.client.input.mem

pub drop-stored :
    (pos k : ℕ) (mem new : Bytes)
    → pos ≤ length mem
    → drop (pos + k) (take pos mem ++ new) ≡ drop k new
drop-stored pos k mem new h =
    let n : length (take pos mem) ≡ pos = omega (arith, length-take pos mem) in
    drop-append_ge (pos + k) (take pos mem) new (omega (arith, n))
    ∙ ap (λ j. drop j new) (omega (arith, n))

header_effect-ReadsHeaders :
    (c : Conn) (key value : Bytes)
    → bytes_eq key (codes "content-length") ≡ false
    → ReadsHeaders c
    → ReadsHeaders (header_effect c key value)
header_effect-ReadsHeaders c key value e h =
    rw e (elim (Bool-cases (bytes_eq key (codes "connection"))) [
      | inl f ↦ rw f (record { waits = h.waits; no_body = h.no_body })
      | inr f ↦ rw f h
    ])

pub Completes-continued :
    {W : Type 0} (go : ℕ → ℕ → Session W → Session W × ParserStatus × ℕ) (Inv : W → ℕ → Type 0)
    (log : List Raised) (c : Conn) (s : Session W) (pos size : ℕ) (r : Session W × ParserStatus × ℕ)
    → Completes Inv log c s r
    → Completes Inv log c s (continued go pos size r)
Completes-continued go Inv log c s pos size (t, parsed, left) (h, _, _, _, _) = absurd (cc)
Completes-continued go Inv log c s pos size (t, ready, left) h = h
Completes-continued go Inv log c s pos size (t, hungry, left) h = h
Completes-continued go Inv log c s pos size (t, failed, left) h = h

-- The handler looks on while headers are read: where `Inv` holds of the world and of the user's
-- pointer, a header's event changes the world only, and `Inv` holds after it.
abbrev pub LooksOn : {W : Type 0} → System W → (Event → W → W) → (W → ℕ → Type 0) → Type 0
LooksOn {W} sys heard Inv =
    (key value : Bytes) (s : Session W)
    → Inv s.world s.client.conn.stream.u_ptr
    → let e = on_header key value in
      (raise sys (carrying e) s ≡ record s { world = heard e s.world; log = carrying e ∷ s.log })
      × Inv (heard e s.world) s.client.conn.stream.u_ptr

module _ {W : Type 0} (sys : System W) (heard : Event → W → W) (Inv : W → ℕ → Type 0)
    (looks : LooksOn sys heard Inv) where
  set_header_waits :
      (c : Conn) (key value : Bytes)
      → c.stream.state ≡ wait_header
      → aisl_stream_set_header c key value ≡ (header_effect c key value, some (on_header key value))
  unfolding aisl_stream_set_header waits rank
  set_header_waits c key value e = if_true _ _ _ (ap (λ st. rank st == rank wait_header) e)

  -- The session behind a header.
  abbrev headed : ℕ → Bytes → Bytes → Bytes → Session W → Session W
  headed pos cut key value s =
      let t = store_at pos cut s in
      record (with_conn t (header_effect s.client.conn key value)) {
        world = heard (on_header key value) s.world;
        log = carrying (on_header key value) ∷ s.log;
      }

  parse_field :
      (h : Line) (rest beyond : Bytes) (pos : ℕ) (s : Session W)
      → all_chars is_key_char h.key ≡ true
      → is_value h.value ≡ true
      → ReadsHeaders s.client.conn
      → Inv s.world s.client.conn.stream.u_ptr
      → Holds pos (header_text h.key h.before h.value h.after (rest ++ beyond)) s
      → http_10_parse_header sys pos (length (header_text h.key h.before h.value h.after rest)) s
        ≡ (
          headed pos
              (cut_header_text h.key h.before h.value h.after (rest ++ beyond))
              (map to_lower h.key)
              h.value
              s,
          parsed,
          length rest,
        )
  unfolding http_10_parse_header header_parsed emit
  parse_field h rest beyond pos s ok good reads inv at =
      let line = parse_header_line-header_text h.key h.value rest beyond h.before h.after ok good in
      rw (at.at_pos, line, set_header_waits s.client.conn (map to_lower h.key) h.value reads.waits)
        (ap {A = Session W} (λ t. (t, parsed, length rest))
          ((looks (map to_lower h.key) h.value _
            (subst (Inv s.world) (sym (header_effect-u_ptr s.client.conn _ _)) inv)).0))

  empty_line :
      (beyond : Bytes)
      → parse_header_line (codes "\r\n" ++ beyond) 2 ≡ (codes "\r\n" ++ beyond, end_of_headers 0)
  unfolding parse_header_line scan_header header_char header_byte swept cut_header
  empty_line beyond = refl

  end_of_no_body :
      (c : Conn)
      → ReadsHeaders c
      → aisl_stream_set_end_of_headers c ≡ (with_state c StreamState.ready, 0)
  unfolding aisl_stream_set_end_of_headers waits rank
  end_of_no_body c h =
      if_true _ _ _ (ap (λ st. rank st == rank wait_header) h.waits)
      ∙ if_true _ _ _ (ap (λ n. n == 0) h.no_body)

  -- The empty line ends the headers of a request without a body.
  parse_end :
      (beyond : Bytes) (pos : ℕ) (s : Session W) (log : List Raised)
      → ReadsHeaders s.client.conn
      → Inv s.world s.client.conn.stream.u_ptr
      → Holds pos (codes "\r\n" ++ beyond) s
      → s.log ≡ log
      → Completes Inv log
          (with_state s.client.conn StreamState.ready)
          s
          (http_10_parse_header sys pos 2 s)
  unfolding http_10_parse_header header_parsed
  parse_end beyond pos s log reads inv at same =
      rw (at.at_pos, empty_line beyond, end_of_no_body s.client.conn reads)
        (refl, refl, same, refl, inv)

  parse_one_waits :
      (pos size : ℕ) (s : Session W)
      → s.client.conn.stream.state ≡ wait_header
      → parse_one sys s.client.conn.stream.state pos size s ≡ http_10_parse_header sys pos size s
  unfolding parse_one
  parse_one_waits pos size s e = ap (λ st. parse_one sys st pos size s) e

  -- The loop reads header lines to their end: each raises its event, in their order, and behind the
  -- empty line the request is complete.
  pub parse_rounds-headers_text :
      (hs : List Line) (beyond : Bytes) (rounds pos : ℕ) (s : Session W)
      → ArePlain hs
      → ReadsHeaders s.client.conn
      → Inv s.world s.client.conn.stream.u_ptr
      → Holds pos (headers_text hs ++ beyond) s
      → length hs < rounds
      → Completes Inv
          (header_events hs s.log)
          (with_state (headers_effect hs s.client.conn) StreamState.ready)
          s
          (parse_rounds sys rounds pos (length (headers_text hs)) s)
  unfolding parse_rounds
  parse_rounds-headers_text hs beyond zero pos s plain reads inv at h = absurd (omega (arith, h))
  parse_rounds-headers_text [] beyond (suc rounds) pos s plain reads inv at h =
      let r = http_10_parse_header sys pos 2 s in
      let done = with_state s.client.conn StreamState.ready in
      Completes-continued (parse_rounds sys rounds) Inv s.log done s pos 2 _ (
        subst (Completes Inv s.log done s) (sym (parse_one_waits pos 2 s reads.waits))
          (parse_end beyond pos s s.log reads inv at refl))
  parse_rounds-headers_text (l ∷ hs) beyond (suc rounds) pos s (ok, good, other, plain) reads inv at
        h =
      let rest = headers_text hs in
      let size = length (headers_text (l ∷ hs)) in
      let low = map to_lower l.key in
      let cut = cut_header_text l.key l.before l.value l.after (rest ++ beyond) in
      let t = headed pos cut low l.value s in
      let at' : Holds pos (header_text l.key l.before l.value l.after (rest ++ beyond)) s = record {
        at_pos = at.at_pos ∙ sym (header_text-append l.key l.value rest beyond l.before l.after);
        inside = at.inside;
      } in
      let step =
        parse_one_waits pos size s reads.waits
        ∙ parse_field l rest beyond pos s ok good reads inv at' in
      let inv' : Inv t.world t.client.conn.stream.u_ptr =
        (looks low l.value
          (with_conn (store_at pos cut s) (header_effect s.client.conn low l.value))
          (subst (Inv s.world) (sym (header_effect-u_ptr s.client.conn low l.value)) inv)).1 in
      let next : Holds (pos + (size - length rest)) (rest ++ beyond) t = record {
        at_pos =
            drop-stored pos (size - length rest) s.client.input.mem cut at.inside
            ∙ drop-cut l rest beyond ok good;
        inside = omega (
          arith,
          at.inside,
          length-append (take pos s.client.input.mem) cut,
          length-take pos s.client.input.mem,
          length-cut l rest beyond ok good,
        );
      } in
      subst
        (λ r.
          Completes Inv (header_events (l ∷ hs) s.log)
            (with_state (headers_effect (l ∷ hs) s.client.conn) StreamState.ready) s
            (continued (parse_rounds sys rounds) pos size r))
        (sym step)
        (parse_rounds-headers_text hs beyond rounds (pos + (size - length rest)) t plain
          (header_effect-ReadsHeaders s.client.conn low l.value other reads) inv' next
          (omega (arith, h)))
