-- ===== src/Client/Rounds.antt =====
-- The loop of aisl_client_parse ends: each round takes at least one byte of the input.
use aisl.Prelude.{
  ℕ, zero, suc, ◌+◌, ◌-◌, ◌≤◌, ◌<◌, ◌≡◌, refl, ap, ◌≢◌, Option, none, some, arith, inl, inr,
  Bool-cases, Bytes, length, take, length-take, ◌==◌,
}
use aisl.Stream.{StreamState, state_idle, wait_header, wait_body, send_header, send_body, done}
use aisl.Stream.Request.{aisl_stream_set_end_of_headers, aisl_stream_set_body}
use aisl.Http.{Parsed, request, parse_request_line}
use aisl.Http.Frame.{left-parse_request_line}
use aisl.Http.Header.{HeaderLine, field, end_of_headers, parse_header_line}
use aisl.Http.Header.Progress.{Framed, parse_header_line-Framed}
use aisl.Api.{System}
use aisl.Client.Depth.{IsPolite}
use aisl.Client.{Session}
use aisl.Client.Parse.{
  ParserStatus, parsed, ready, hungry, failed, input_at, store_at, emit, request_parsed,
  http_10_parse_request, header_parsed, http_10_parse_header, body_status, http_10_parse_body,
  parse_one, continued, parse_rounds,
}

-- What an answer says of the bytes that are left of `size`.
abbrev pub Takes : {W : Type 0} → ℕ → Session W × ParserStatus × ℕ → Type 0
Takes size (_, parsed, left) = left < size
Takes size (_, ready, left) = left < size
Takes size (_, hungry, left) = left ≡ size
Takes size (_, failed, left) = Unit {0}

length-take_le : (n : ℕ) (xs : Bytes) → length (take n xs) ≤ n
length-take_le n xs = omega (arith, length-take n xs)

module _ {W : Type 0} (sys : System W) where
  request_parsed-Takes :
      (size : ℕ) (r : Parsed) (mem : Bytes) (s : Session W)
      → (parse_request_line mem size).1 ≡ r
      → Takes size (request_parsed sys size r s)
  unfolding request_parsed
  request_parsed-Takes size Parsed.hungry mem s e = refl
  request_parsed-Takes size Parsed.error mem s e = tt
  request_parsed-Takes size (request r) mem s e =
      let mem' = (parse_request_line mem size).0 in
      let (_, less) = left-parse_request_line mem mem' size r (ap (λ x. (mem', x)) e) in
      omega (arith, less, length-take_le size mem)

  header_parsed-Takes :
      (size : ℕ) (r : HeaderLine) (mem : Bytes) (s : Session W)
      → Framed (take size mem) r
      → Takes size (header_parsed sys size r s)
  unfolding header_parsed
  header_parsed-Takes size HeaderLine.hungry mem s f = refl
  header_parsed-Takes size HeaderLine.error mem s f = tt
  header_parsed-Takes size (field key value left) mem s f =
      omega (arith, f.1, length-take_le size mem)
  header_parsed-Takes size (end_of_headers left) mem s f =
      let less : left < size = omega (arith, f.1, length-take_le size mem) in
      elim (Bool-cases ((aisl_stream_set_end_of_headers s.client.conn).1 == 0)) [
        | inl e ↦ rw e less
        | inr e ↦ rw e less
      ]

  body_status-Takes :
      (size : ℕ) (result : Option ℕ) (s : Session W)
      → 0 < size
      → Takes size (s, body_status result, 0)
  unfolding body_status
  body_status-Takes size none s h = tt
  body_status-Takes size (some zero) s h = h
  body_status-Takes size (some (suc n)) s h = h

  pub parse_one-Takes :
      (state : StreamState) (pos size : ℕ) (s : Session W)
      → Takes size (parse_one sys state pos size s)
  unfolding parse_one http_10_parse_request http_10_parse_header http_10_parse_body
  parse_one-Takes state_idle pos size s =
      let (mem, r) = parse_request_line (input_at pos s) size in
      request_parsed-Takes size r (input_at pos s) (store_at pos mem s) refl
  parse_one-Takes wait_header pos size s =
      let (mem, r) = parse_header_line (input_at pos s) size in
      header_parsed-Takes size r (input_at pos s) (store_at pos mem s)
        (parse_header_line-Framed (input_at pos s) size)
  parse_one-Takes wait_body pos size s =
      let (c, result, event) = aisl_stream_set_body s.client.conn (take size (input_at pos s)) in
      elim (Bool-cases (size == 0)) [
        | inl e ↦ rw e refl
        | inr e ↦ rw e (body_status-Takes size result (emit sys (c, event) s) (ground arith))
      ]
  parse_one-Takes StreamState.ready pos size s = tt
  parse_one-Takes send_header pos size s = tt
  parse_one-Takes send_body pos size s = tt
  parse_one-Takes done pos size s = tt

  continued_same :
      (f g : ℕ → ℕ → Session W → Session W × ParserStatus × ℕ) (pos size : ℕ)
      (r : Session W × ParserStatus × ℕ)
      → ((pos left : ℕ) (s : Session W) → left < size → f pos left s ≡ g pos left s)
      → Takes size r
      → continued f pos size r ≡ continued g pos size r
  continued_same f g pos size (s, parsed, left) all h = all (pos + (size - left)) left s h
  continued_same f g pos size (s, ready, left) all h = refl
  continued_same f g pos size (s, hungry, left) all h = refl
  continued_same f g pos size (s, failed, left) all h = refl

  parse_rounds_same :
      (n m pos size : ℕ) (s : Session W)
      → size < n
      → size < m
      → parse_rounds sys n pos size s ≡ parse_rounds sys m pos size s
  unfolding parse_rounds
  parse_rounds_same zero m pos size s h g = absurd (omega arith)
  parse_rounds_same (suc n) zero pos size s h g = absurd (omega arith)
  parse_rounds_same (suc n) (suc m) pos size s h g =
      let r = parse_one sys s.client.conn.stream.state pos size s in
      continued_same (parse_rounds sys n) (parse_rounds sys m) pos size r
        (λ pos left s less. parse_rounds_same n m pos left s (omega arith) (omega arith))
        (parse_one-Takes s.client.conn.stream.state pos size s)

  continued_ends :
      (f : ℕ → ℕ → Session W → Session W × ParserStatus × ℕ) (pos size : ℕ)
      (r : Session W × ParserStatus × ℕ)
      → ((pos left : ℕ) (s : Session W) → left < size → (f pos left s).1 ≢ parsed)
      → Takes size r
      → (continued f pos size r).1 ≢ parsed
  continued_ends f pos size (s, parsed, left) all h = all (pos + (size - left)) left s h
  continued_ends f pos size (s, ready, left) all h = λ e. cc
  continued_ends f pos size (s, hungry, left) all h = λ e. cc
  continued_ends f pos size (s, failed, left) all h = λ e. cc

  parse_rounds_ends :
      (n pos size : ℕ) (s : Session W) → size < n → (parse_rounds sys n pos size s).1 ≢ parsed
  unfolding parse_rounds
  parse_rounds_ends zero pos size s h = absurd (omega arith)
  parse_rounds_ends (suc n) pos size s h =
      continued_ends (parse_rounds sys n) pos size
        (parse_one sys s.client.conn.stream.state pos size s)
        (λ pos left s less. parse_rounds_ends n pos left s (omega arith))
        (parse_one-Takes s.client.conn.stream.state pos size s)

  -- Whatever else the handlers do, if they do not close the client within CLIENT_DISCONNECT, the
  -- loop of `aisl_client_parse` ends within one round more than there are bytes: its last status is
  -- not HTTP_PARSER_SUCCESS, and more rounds change nothing.
  pub parse_rounds_end :
      IsPolite sys
      → (more pos size : ℕ) (s : Session W)
      → ((parse_rounds sys (suc size) pos size s).1 ≢ parsed)
        × (parse_rounds sys (suc size + more) pos size s ≡ parse_rounds sys (suc size) pos size s)
  parse_rounds_end polite more pos size s = (
    parse_rounds_ends (suc size) pos size s (omega arith),
    parse_rounds_same (suc size + more) (suc size) pos size s (omega arith) (omega arith),
  )
