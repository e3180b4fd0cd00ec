-- ===== src/Bare/Answer.antt =====
-- What the sample server of bare/ answers to a request for its page.
use aisl.Prelude.{
  ℕ, suc, ◌≡◌, ◌≢◌, refl, ap, ◌∙◌, Option, none, some, List, [], ◌∷◌, ◌++◌, Bytes, Bool, true,
  false, length, bytes_eq, ◌==◌, if◌then◌else◌, arith,
}
use aisl.Types.{
  success, stream_close, http_1_0, HttpVersion, HttpMethod, method_unknown, auto_length,
}
use aisl.Types.Response.{HttpResponse}
use aisl.Stream.{state_idle, with_stream, aisl_set_context}
use aisl.Api.{plain, Program, stop, visit, System, perform}
use aisl.Handler.Answer.{IsFresh, Replies, Serves, aisl_client_parse-Replies}
use aisl.Client.Effects.{asked_keepalive}
use aisl.Client.{Session, with_conn, chosen, run, raise_within, raise}
use aisl.Client.Fields.{LooksOn}
use aisl.Client.Lines.{Line, ArePlain, headers_text}
use aisl.Client.Parse.{aisl_client_parse}
use aisl.Client.Opening.{opening, Opens}
use aisl.Http.Cuts.{request_text}
use aisl.Http.Scan.{IsQuery}
use aisl.Bare.Memory.{Context, Memory, World, Libc, put_at, accessed}
use aisl.Bare.Welcome.{
  welcome_html, new_cell, granted, new_context, context_pointer, welcomed, welcome_on_open,
}
use aisl.Bare.Router.{
  is_ours, owned, found, opened_by, open_modules, on_stream_open, router_callback,
}
use aisl.Bare.Contexts.{
  welcome_context, IsServedBy, set-append_last, new_cell-IsServedBy, with_router, raise_header,
  raise_request, raise_close,
}

-- The module's number is written into a new context.
put_own :
    (m : Memory) → put_at (new_cell m) (suc (length m.cells)) (some welcome_context) ≡ new_cell m
unfolding put_at new_cell
put_own m =
    ap {A = List (Option Context)} (λ cells. record m { cells = cells })
      (set-append_last m.cells (some welcome_context) (some welcome_context))

-- `calloc` gives memory.
abbrev pub Grants : {V : Type 0} → Libc V → World V → Type 0
Grants libc w = (libc.calloc w.outside).1 ≡ true

-- The pointer to the next context.
abbrev pub next_context : {V : Type 0} → World V → ℕ
next_context w = suc (length w.memory.cells)

module _ {V : Type 0} (libc : Libc V) (target : Bytes) (sys : System (World V)) where
  owned_new :
      (m : Memory) (v : V)
      → let w : World V = record { memory = new_cell m; outside = v } in
        owned libc (suc (length m.cells)) 0 w ≡ w
  unfolding owned is_ours
  owned_new m v =
      let p = suc (length m.cells) in
      let w : World V = record { memory = new_cell m; outside = v } in
      ap
        (λ o.
          accessed (λ c m. if is_ours c then put_at m p (some (record c { module_id = 0 })) else m)
            o w)
        (new_cell-IsServedBy m)
      ∙ ap {A = Memory} (λ m. record w { memory = m }) (put_own m)

  open_granted :
      (go : HttpResponse → Program (World V)) (s : Session (World V)) (r : V × Bool)
      → r.1 ≡ true
      → let p = next_context s.world in
        run
          (with_router libc target sys)
          (welcomed libc (opened_by libc go 0) (if r.1 then some p else none))
          2
          (record s { world = granted libc s.world r })
        ≡ record (with_conn s
            (with_stream s.client.conn (aisl_set_context s.client.conn.stream p))) {
              world = granted libc s.world r;
            }
  unfolding run welcomed opened_by perform found
  open_granted go s (v, false) e = absurd (cc)
  open_granted go s (v, true) e =
      let p = next_context s.world in
      let pointed : (p == 0) ≡ false = ground arith in
      let w : World V = record { memory = new_cell s.world.memory; outside = v } in
      let t =
        record (with_conn s (with_stream s.client.conn (aisl_set_context s.client.conn.stream p))) {
          world = w;
        } in
      ap
        (λ b.
          run (with_router libc target sys) (if b then stop else visit (owned libc p 0) (λ _. stop))
            2 t)
        pointed
      ∙ ap {A = World V} (λ w. record t { world = w }) (owned_new s.world.memory v)

  router_LooksOn : LooksOn (with_router libc target sys) (λ e w. w) IsServedBy
  router_LooksOn key value s h = (raise_header libc target sys key value s h, h)

  router_Serves : Serves (welcome_html target) (with_router libc target sys) IsServedBy (λ w. w)
  router_Serves s h = raise_request libc target sys s h

  granted-IsServedBy :
      (w : World V) (r : V × Bool) → r.1 ≡ true → IsServedBy (granted libc w r) (next_context w)
  granted-IsServedBy w (v, false) e = absurd (cc)
  granted-IsServedBy w (v, true) e = new_cell-IsServedBy w.memory

  -- STREAM_OPEN for the path of the page gives the stream a new context of the page's module, where
  -- there is memory for it, and changes nothing else.
  pub router_Opens :
      (m : HttpMethod) (query : Option Bytes) (v : HttpVersion)
      → Opens m [] query v
          (with_router libc target sys)
          IsServedBy
          (Grants libc)
          (new_context libc)
          (λ w p. next_context w)
  unfolding raise raise_within chosen run router_callback on_stream_open open_modules
      welcome_on_open context_pointer new_context bytes_eq
  router_Opens m query v s given = (
    open_granted _ (record s { log = opening m [] query v ∷ s.log }) (libc.calloc s.world.outside)
        given,
    granted-IsServedBy s.world (libc.calloc s.world.outside) given,
  )

  -- The sample server answers a whole request for the path "/" where there is memory for a context.
  -- For a client of HTTP/1.0 with an idle stream that expects no body and on which nothing was
  -- written, whose input begins with a request line of a known method for that path, with a query
  -- of bytes that are no NUL, space, colon or line end, with headers that are read as they are,
  -- none of them a Content-Length, and an empty line, aisl_client_parse answers success, and the
  -- stream's buffer holds "200 OK" in the version of the request, the headers of the library with
  -- the length of the page, which is not ~0, and the keep-alive that the headers of the request ask
  -- for, an empty line and the page, the response is done, the socket is as it was and the client
  -- writes; or else aisl_reject has closed the client, right behind a realloc that was refused.
  pub router-Replies :
      (m : HttpMethod) (query : Option Bytes) (v : HttpVersion) (hs : List Line) (beyond : Bytes)
      (s : Session (World V))
      → (length (welcome_html target) == auto_length) ≡ false
      → m ≢ method_unknown
      → IsQuery query
      → ArePlain hs
      → s.client.conn.http_version ≡ http_1_0
      → s.client.conn.stream.state ≡ state_idle
      → s.client.conn.stream.content_length ≡ 0
      → IsFresh s.client.conn.stream
      → Grants libc s.world
      → s.client.input.mem ≡ request_text m [] query v (headers_text hs ++ beyond)
      → Replies
          (with_router libc target sys)
          (welcome_html target)
          v
          (asked_keepalive hs s.client.conn.keepalive)
          s.client.fd
          (aisl_client_parse
            (with_router libc target sys)
            (length (request_text m [] query v (headers_text hs)))
            s)
  router-Replies m query v hs beyond s fits known good lines version idle no_body fresh given mem =
      aisl_client_parse-Replies (welcome_html target) (with_router libc target sys) IsServedBy
        (λ w. w) fits router_Serves m [] query v known refl good (λ e w. w) router_LooksOn
        (Grants libc) (new_context libc) (λ w p. next_context w) (router_Opens m query v) hs beyond
        s lines version idle no_body fresh given mem

  freed_last :
      (w : World V) (r : V × Bool)
      → r.1 ≡ true
      → put_at (granted libc w r).memory (next_context w) none
        ≡ record w.memory { cells = w.memory.cells ++ (none ∷ []) }
  unfolding put_at new_cell
  freed_last w (v, false) e = absurd (cc)
  freed_last w (v, true) e =
      ap {A = List (Option Context)} (λ cells. record w.memory { cells = cells })
        (set-append_last w.memory.cells (some welcome_context) none)

  -- The context that STREAM_OPEN allocates for the path of the page is the one that STREAM_CLOSE
  -- frees: what the two leave of the memory is a freed cell, the other contexts as they were, and
  -- no access but to that cell.
  pub context_life :
      (m : HttpMethod) (query : Option Bytes) (v : HttpVersion) (s : Session (World V))
      → Grants libc s.world
      → let router = with_router libc target sys in
        (raise router
          (plain stream_close success)
          (raise router (opening m [] query v) s)).world.memory
        ≡ record s.world.memory { cells = s.world.memory.cells ++ (none ∷ []) }
  context_life m query v s given =
      let router = with_router libc target sys in
      let p = next_context s.world in
      let opened : Session (World V) =
        record (with_conn s (with_stream s.client.conn (aisl_set_context s.client.conn.stream p))) {
          world = new_context libc s.world;
          log = opening m [] query v ∷ s.log;
        } in
      let (opens, served) = router_Opens m query v s given in
      ap (λ (t : Session (World V)). (raise router (plain stream_close success) t).world.memory)
        opens
      ∙ ap (λ (t : Session (World V)). t.world.memory) (raise_close libc target sys opened served)
      ∙ (unfold new_context in freed_last s.world (libc.calloc s.world.outside) given)
