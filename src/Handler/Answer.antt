-- ===== src/Handler/Answer.antt =====
-- A handler that looks on while a request is read and then sends a page: from the bytes of the
-- request in the input buffer to those of the page in the buffer of the stream.
use aisl.Prelude.{
  ℕ, suc, ◌≡◌, ◌≢◌, refl, sym, ap, subst, ◌∙◌, Option, none, List, ◌∷◌, ◌++◌, Bytes, Bool, true,
  false, inl, inr, ◌⊎◌, arith, length, ◌==◌,
}
use aisl.Types.{
  Status, success, stream_request, auto_length, http_1_0, HttpVersion, HttpMethod, method_unknown,
}
use aisl.Buffer.{contents}
use aisl.Buffer.Grow.{IsValid}
use aisl.Stream.{Conn, state_idle, wait_header, done, with_stream}
use aisl.Stream.Request.{Event}
use aisl.Api.{Raised, plain, System}
use aisl.Handler.{page_served}
use aisl.Handler.Page.{page_text, IsRefused, IsServed, IsUnanswered, page_served-IsServed}
use aisl.Client.{Session, with_client, run, raise}
use aisl.Stream.Status.{IsEmpty}
use aisl.Client.Effects.{
  headers_effect, headers_effect-plain, asked_keepalive, headers_effect-keepalive,
}
use aisl.Client.Lines.{Line, ArePlain, headers_text}
use aisl.Client.Fields.{LooksOn, Completes, Holds}
use aisl.Client.Effects.{headers_effect}
use aisl.Client.Parse.{
  ParserStatus, parsed, hungry, failed, shift_input, concluded, parse_rounds, parse_as,
  aisl_client_parse,
}
use aisl.Client.Opening.{Opens, greeted, told_of, headers_fit, parse_rounds-request_text}
use aisl.Http.Cuts.{request_text}
use aisl.Http.Scan.{all_chars, is_path_char, IsQuery}
use aisl.Stream.{Stream, ready}

-- A stream that has never written a header.
abbrev pub IsFresh : Stream → Type 0
IsFresh st =
    IsEmpty st.buffer
    × (st ≡ record st {
      server_header_sent = false;
      content_type_header_sent = false;
      content_length_header_sent = false;
      connection_header_sent = false;
    })

-- The stream in front of STREAM_REQUEST.
abbrev asks : Stream → Stream
asks st = record st { state = ready; content_length = auto_length }

asks-IsUnanswered : (c : Conn) (st : Stream) → IsFresh st → IsUnanswered (with_stream c (asks st))
asks-IsUnanswered c st (empty, same) = record {
  before = omega arith;
  empty = empty;
  same = ap (λ st. with_stream c (asks st)) same;
}

-- The answer to a request: the page waits in its buffer whole, the response is done, and the client
-- is as open as it was and writes; or `aisl_reject` has closed the client, called where `realloc`
-- had just refused, and the input that is left, of some length, has been moved to the front.
abbrev pub Replies :
    {W : Type 0} → System W → Bytes → HttpVersion → Bool → Option ℕ → Session W × Status → Type 0
Replies {W} sys html version keepalive fd (s, status) =
    (status ≡ success)
    × ((s.client.fd ≡ none)
          × ((left : ℕ) × (r : Session W) × IsRefused sys 2 r × (s ≡ shift_input left r))
        ⊎ ((s.client.conn.stream.state ≡ done)
            × IsValid s.client.conn.stream.buffer
            × (contents s.client.conn.stream.buffer ≡ page_text version keepalive html)
            × (s.client.fd ≡ fd)
            × (s.client.can_write ≡ true)))

-- The handler serves a page: where `Inv` holds, it changes the world at STREAM_REQUEST, and sends
-- the page.
abbrev pub Serves : {W : Type 0} → Bytes → System W → (W → ℕ → Type 0) → (W → W) → Type 0
Serves {W} html sys Inv asked =
    (s : Session W)
    → Inv s.world s.client.conn.stream.u_ptr
    → raise sys (plain stream_request success) s
      ≡ run sys (page_served html) 2
          (record s { world = asked s.world; log = plain stream_request success ∷ s.log })

module _ {W : Type 0} (html : Bytes) (sys : System W) (Inv : W → ℕ → Type 0) (asked : W → W)
    (fits : (length html == auto_length) ≡ false) (serves : Serves html sys Inv asked) where
  shifted-Replies :
      (u r : Session W) (left : ℕ)
      → u.client.can_write ≡ true
      → IsServed sys 2 html u r
      → Replies sys html u.client.conn.http_version u.client.conn.keepalive u.client.fd
          (shift_input left r, success)
  shifted-Replies u r left writes (inl h) = (refl, inl (h.0, (left, r, h, refl)))
  shifted-Replies u r left writes (inr (state, v, text, same)) = (
    refl,
    inr (
      state,
      v,
      text,
      ap (λ (s : Session W). s.client.fd) same,
      ap (λ (s : Session W). s.client.can_write) same ∙ writes,
    ),
  )

  concluded-Replies :
      (log : List Raised) (c : Conn) (s : Session W) (r : Session W × ParserStatus × ℕ)
      → Completes Inv log c s r
      → IsUnanswered (with_stream c (record c.stream { content_length = auto_length }))
      → Replies sys html c.http_version c.keepalive s.client.fd (concluded sys r)
  unfolding concluded
  concluded-Replies log c s (t, ParserStatus.ready, left) (_, _, _, same, inv) h =
      let now = record t.client {
        conn =
            with_stream t.client.conn
              (record t.client.conn.stream { content_length = auto_length });
        can_read = false;
        can_write = true;
      } in
      let u = with_client t now in
      let served_by : Session W = record u {
        world = asked t.world;
        log = plain stream_request success ∷ t.log;
      } in
      let conn : t.client.conn ≡ c = ap (λ c. c.conn) same in
      let unanswered : IsUnanswered now.conn =
        subst (λ c. IsUnanswered (with_stream c (record c.stream { content_length = auto_length })))
          (sym conn) h in
      let result : Session W → Session W × Status = λ r. (shift_input left r, success) in
      let replies =
        shifted-Replies served_by (run sys (page_served html) 2 served_by) left refl
          (page_served-IsServed sys html 1 served_by unanswered fits) in
      subst (λ r. Replies sys html c.http_version c.keepalive s.client.fd (result r))
        (sym (serves u inv))
        (subst
          (λ fd.
            Replies sys html c.http_version c.keepalive fd
              (result (run sys (page_served html) 2 served_by)))
          (ap (λ c. c.fd) same)
          (subst
            (λ c.
              Replies sys html c.http_version c.keepalive t.client.fd
                (result (run sys (page_served html) 2 served_by)))
            conn replies))
  concluded-Replies log c s (t, parsed, left) (h, _, _, _, _) g = absurd (cc)
  concluded-Replies log c s (t, hungry, left) (h, _, _, _, _) g = absurd (cc)
  concluded-Replies log c s (t, failed, left) (h, _, _, _, _) g = absurd (cc)

  module _ (m : HttpMethod) (path : Bytes) (query : Option Bytes) (v : HttpVersion)
      (known : m ≢ method_unknown) (ok : all_chars is_path_char path ≡ true) (good : IsQuery query)
      (heard : Event → W → W) (looks : LooksOn sys heard Inv) (Start : W → Type 0) (entered : W → W)
      (pointer : W → ℕ → ℕ) (opens : Opens m path query v sys Inv Start entered pointer) where
    -- The client behind the headers.
    abbrev behind : List Line → ℕ → Conn → Conn
    behind hs p c = headers_effect hs (greeted m path query v p c)

    behind-IsUnanswered :
        (hs : List Line) (p : ℕ) (c : Conn)
        → ArePlain hs
        → IsFresh c.stream
        → IsUnanswered (with_stream (behind hs p c) (asks (behind hs p c).stream))
    behind-IsUnanswered hs p c lines fresh =
        let start = greeted m path query v p c in
        let (stream, _) = headers_effect-plain hs start lines in
        subst (λ st. IsUnanswered (with_stream (behind hs p c) (asks st))) (sym stream)
          (asks-IsUnanswered (behind hs p c) start.stream (
            fresh.0,
            ap {A = Stream} (λ st. record st { state = wait_header; u_ptr = p }) (fresh.1),
          ))

    -- The page answers a whole request without a body.
    pub aisl_client_parse-Replies :
        (hs : List Line) (beyond : Bytes) (s : Session W)
        → ArePlain hs
        → s.client.conn.http_version ≡ http_1_0
        → s.client.conn.stream.state ≡ state_idle
        → s.client.conn.stream.content_length ≡ 0
        → IsFresh s.client.conn.stream
        → Start s.world
        → s.client.input.mem ≡ request_text m path query v (headers_text hs ++ beyond)
        → Replies sys html v
            (asked_keepalive hs s.client.conn.keepalive)
            s.client.fd
            (aisl_client_parse sys (length (request_text m path query v (headers_text hs))) s)
    unfolding aisl_client_parse parse_as
    aisl_client_parse-Replies hs beyond s lines version idle no_body fresh begins mem =
        let size = length (request_text m path query v (headers_text hs)) in
        let p = pointer s.world s.client.conn.stream.u_ptr in
        let c = behind hs p s.client.conn in
        let r = parse_rounds sys (suc size) 0 size s in
        let (_, same) = headers_effect-plain hs (greeted m path query v p s.client.conn) lines in
        let alive = headers_effect-keepalive hs (greeted m path query v p s.client.conn) lines in
        let at : Holds 0 (request_text m path query v (headers_text hs ++ beyond)) s = record {
          at_pos = mem;
          inside = omega arith;
        } in
        let completes =
          parse_rounds-request_text m path query v known ok good sys heard Inv looks Start entered
            pointer opens hs beyond size 0 s lines idle no_body begins at
            (headers_fit m path query v known ok good hs) in
        let replies =
          concluded-Replies _ (told_of m path query v hs p s.client.conn) s r completes
            (behind-IsUnanswered hs p s.client.conn lines fresh) in
        let fd = s.client.fd in
        subst
          (λ w.
            Replies sys html v (asked_keepalive hs s.client.conn.keepalive) fd
              (parse_as sys w size s))
          (sym version)
          (subst (λ k. Replies sys html v k fd (concluded sys r)) alive
            (subst (λ w. Replies sys html w c.keepalive fd (concluded sys r)) same replies))
