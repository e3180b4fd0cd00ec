-- ===== src/Handler/Page.antt =====
-- A handler that sends a page: the response is the page with its headers, or the client is closed.
use aisl.Prelude.{
  ℕ, suc, ◌≤◌, ◌≡◌, refl, sym, ap, subst, ◌∙◌, Option, none, some, ◌++◌, Bytes, Bool, true, false,
  length, ltb, ◌==◌, ◌⊎◌, inl, inr, arith, take_all, if◌then◌else◌, if_true,
}
use aisl.Types.{Status, success, client_disconnect, HttpVersion, auto_length}
use aisl.Types.Response.{HttpResponse}
use aisl.Buffer.{contents, null}
use aisl.Buffer.Grow.{IsValid}
use aisl.Buffer.Refusal.{Refused}
use aisl.Stream.Refusal.{IsExcusedStatus, aisl_response-IsExcused}
use aisl.Stream.{Conn, rank, ready, send_header, done, with_buffer, with_state}
use aisl.Stream.Response.{
  crlf, status_line, server_line, content_type_line, content_length_line, connection_line,
  aisl_response,
}
use aisl.Stream.Draft.{Draft, draft}
use aisl.Stream.Closed.{begun, headed, IsReady}
use aisl.Stream.Status.{IsEmpty, Answered, answering, aisl_response-Answered}
use aisl.Stream.Write.{sized, aisl_write, finished, aisl_flush}
use aisl.Stream.Reply.{unmarked, Started, Started-same, aisl_write-Started}
use aisl.Client.Touch.{is_success}
use aisl.Api.{
  plain, status, count, Program, stop, call, reject, write, System, perform, answered, counted,
}
use aisl.Client.{Session, with_conn, chosen, close_by, run}
use aisl.Client.Outcome.{if_open_closes}
use aisl.Handler.{succeeds, is_count, flushed, page_served}

-- The bytes of a page and its headers.
abbrev pub page_text : HttpVersion → Bool → Bytes → Bytes
page_text version keepalive html =
    (((((status_line version HttpResponse.ok ++ server_line) ++ content_type_line)
          ++ content_length_line (length html))
        ++ connection_line keepalive)
      ++ crlf)
    ++ html

-- A response has not begun: nothing is written, and no header is marked as sent.
pub record IsUnanswered (c : Conn) : Type 0 where
  pub before : rank c.stream.state ≤ rank ready
  pub empty : IsEmpty c.stream.buffer
  pub same : c ≡ unmarked c

-- The draft of a response that is begun with "200 OK" and a length.
abbrev started_page : Conn → ℕ → Draft
started_page c len = record {
  text = status_line c.http_version HttpResponse.ok;
  rest = with_buffer (with_state (answering HttpResponse.ok len c) send_header) null;
}

abbrev page_head : Conn → ℕ → Bytes
page_head c len =
    (((status_line c.http_version HttpResponse.ok ++ server_line) ++ content_type_line)
      ++ content_length_line len)
    ++ connection_line c.keepalive

page_head_lem :
    (c : Conn) (len : ℕ)
    → (len == auto_length) ≡ false
    → ((headed (started_page (unmarked c) len)).text ≡ page_head c len)
      × ((headed (started_page (unmarked c) len)).rest.stream.content_length_header_sent ≡ true)
page_head_lem c len e = rw e (refl, refl)

-- A response begun with a length has these headers when they are closed.
begun_lem :
    (c c' : Conn) (len : ℕ)
    → c ≡ unmarked c
    → (len == auto_length) ≡ false
    → draft c' ≡ started_page c len
    → ((headed (begun c')).text ≡ page_head c len)
      × ((headed (begun c')).rest.stream.content_length_header_sent ≡ true)
unfolding rank
begun_lem c c' len same e eq =
    let state : ltb (rank ready) (rank c'.stream.state) ≡ true =
      ap (λ d. ltb (rank ready) (rank d.rest.stream.state)) eq in
    let begins : begun c' ≡ started_page (unmarked c) len =
      if_true _ _ _ state ∙ eq ∙ ap (λ c. started_page c len) same in
    subst
      (λ d.
        ((headed d).text ≡ page_head c len)
        × ((headed d).rest.stream.content_length_header_sent ≡ true))
      (sym begins) (page_head_lem c len e)

begun-IsReady :
    (c c' : Conn) (len : ℕ)
    → IsValid c'.stream.buffer
    → draft c' ≡ started_page c len
    → IsReady c' × (rank c'.stream.state ≤ rank send_header)
unfolding rank
begun-IsReady c c' len v eq =
    let state : rank c'.stream.state ≡ rank send_header = ap (λ d. rank d.rest.stream.state) eq in
    ((v, λ le. absurd (omega (arith, state, le))), omega (arith, state))

module _ {W : Type 0} (sys : System W) where
  -- The client is closed by `aisl_reject`, called where `realloc` has just refused, with calls of
  -- handlers at most `d` deep.
  abbrev pub IsRefused : ℕ → Session W → Type 0
  IsRefused d r =
      (r.client.fd ≡ none)
      × ((t : Session W) × Refused sys.alloc t.world × (r ≡ run sys (reject stop) d t))

  -- What a handler that sends a page leaves of `s`: a client closed for want of memory, or a
  -- response that is done and waits in the buffer whole, with nothing else of the client changed.
  abbrev pub IsServed : ℕ → Bytes → Session W → Session W → Type 0
  IsServed d html s r =
      IsRefused d r
      ⊎ ((r.client.conn.stream.state ≡ done)
          × IsValid r.client.conn.stream.buffer
          × (contents r.client.conn.stream.buffer
              ≡ page_text s.client.conn.http_version s.client.conn.keepalive html)
          × (r ≡ record (with_conn s r.client.conn) { world = r.world }))

  pub reject-closes : (d : ℕ) (s : Session W) → (run sys (reject stop) (suc d) s).client.fd ≡ none
  unfolding run close_by
  reject-closes d s =
      let (t, q) = chosen sys (plain client_disconnect success) s in
      if_open_closes sys s.client.fd s (run sys q d t) refl

  rejected :
      (d : ℕ) (t : Session W)
      → Refused sys.alloc t.world
      → IsRefused (suc d) (run sys (reject stop) (suc d) t)
  rejected d t h = (reject-closes d t, (t, h, refl))

  pub run-if :
      (P : Session W → Type 0) (test : Bool) (p q : Program W) (d : ℕ) (s : Session W)
      → (test ≡ true → P (run sys p d s))
      → (test ≡ false → P (run sys q d s))
      → P (run sys (if test then p else q) d s)
  run-if P true p q d s h g = h refl
  run-if P false p q d s h g = g refl

  -- `c` is the stream of which the page is made, `t` the session when the write has answered.
  flushed_page :
      (html : Bytes) (d : ℕ) (s : Session W) (r : W × Conn × Option ℕ)
      → let c = s.client.conn in
        Started sys.alloc true (page_head c (length html)) html r
        → IsServed (suc d) html s (
            run sys
              (if is_count (count r.2) then flushed else reject stop)
              (suc d)
              (record (with_conn s r.1) { world = r.0 }))
  unfolding run perform answered is_count aisl_flush finished
  flushed_page html d s (w, c', none) (_, h) =
      inl (rejected d (record (with_conn s c') { world = w }) h)
  flushed_page html d s (w, c', some n) (_, p) =
      rw (if_true c'.stream.content_length_header_sent _ _ p.announced)
        (inr (refl, p.valid, p.bytes, refl))

  written_page :
      (html : Bytes) (d : ℕ) (s : Session W) (w : W) (c' : Conn)
      → s.client.conn ≡ unmarked s.client.conn
      → (length html == auto_length) ≡ false
      → IsValid c'.stream.buffer
      → draft c' ≡ started_page s.client.conn (length html)
      → let r = aisl_write sys.alloc w c' html (some (length html)) in
        IsServed (suc d) html s (
          run sys
            (if is_count (count r.2) then flushed else reject stop)
            (suc d)
            (record (with_conn s r.1) { world = r.0 }))
  written_page html d s w c' same e v eq =
      let (text, sent) = begun_lem s.client.conn c' (length html) same e eq in
      let (ready_to, le) = begun-IsReady s.client.conn c' (length html) v eq in
      let n = length html in
      let r = aisl_write sys.alloc w c' html (some n) in
      flushed_page html d s r (
        Started-same sys.alloc _ true _ (page_head s.client.conn n) (sized html (some n)) html r
          sent text (take_all (length html) html (omega arith))
          (aisl_write-Started sys.alloc w c' html (some n) ready_to le))

  Answered-page :
      (html : Bytes) (d : ℕ) (s : Session W) (r : W × Conn × Status)
      → s.client.conn ≡ unmarked s.client.conn
      → (length html == auto_length) ≡ false
      → Answered s.client.conn HttpResponse.ok (length html) r
      → IsExcusedStatus sys.alloc r
      → IsServed (suc d) html s (
          run sys
            (if succeeds (status r.2)
              then call
                  (write html (some (length html)))
                  (λ n. if is_count n then flushed else reject stop)
              else reject stop)
            (suc d)
            (record (with_conn s r.1) { world = r.0 }))
  unfolding run perform counted
  Answered-page html d s (w, c', st) same e (inl (f, v, eq)) h =
      rw f (unfold succeeds is_success in written_page html d s w c' same e v eq)
  Answered-page html d s (w, c', st) same e (inr (f, _, _)) (inl g) = absurd (cc)
  Answered-page html d s (w, c', st) same e (inr (f, _, _)) (inr (_, h)) =
      let t = record (with_conn s c') { world = w } in
      rw f (unfold succeeds is_success in inl (rejected d t h))

  -- A handler that sends a page on a stream on which no response has begun leaves in the buffer the status line, the headers of the library with the length of the page,
  -- an empty line and the page, and the response done; only where `realloc` has just refused, it
  -- closes the client instead.
  pub page_served-IsServed :
      (html : Bytes) (d : ℕ) (s : Session W)
      → IsUnanswered s.client.conn
      → (length html == auto_length) ≡ false
      → IsServed (suc d) html s (run sys (page_served html) (suc d) s)
  unfolding page_served run perform answered
  page_served-IsServed html d s h e =
      let c = s.client.conn in
      let r = aisl_response sys.alloc s.world c HttpResponse.ok (length html) in
      Answered-page html d s r h.same e
        (aisl_response-Answered sys.alloc s.world c HttpResponse.ok (length html) h.before h.empty)
        (aisl_response-IsExcused sys.alloc s.world c HttpResponse.ok (length html) h.before h.empty)
