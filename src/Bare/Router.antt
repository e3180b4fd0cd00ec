-- ===== src/Bare/Router.antt =====
-- bare/src/router.c: the events of the library, handed on to the module whose context the stream
-- has.
use aisl.Prelude.{
  ℕ, ◌+◌, Option, none, some, List, [], ◌∷◌, ◌++◌, Bytes, codes, Bool, ltb, ◌==◌, ◌&&◌,
  if◌then◌else◌, length, get_elem?,
}
use aisl.Types.{
  Status, HttpMethod, auto_length, EventCode, server_ready, server_error, client_connect,
  client_disconnect, stream_request, stream_output, stream_close, stream_error, event_number,
  aisl_event_to_string, aisl_status_to_string,
}
use aisl.Prelude.Decimal.{decimal}
use aisl.Client.Touch.{is_idle}
use aisl.Types.Response.{HttpResponse, not_found}
use aisl.Stream.{aisl_get_context}
use aisl.Stream.Request.{on_open, on_header, on_input}
use aisl.Api.{
  Raised, carrying, plain, Program, stop, inspect, visit, call, reject, response, printf,
}
use aisl.Handler.{succeeds, is_zero, flushed}
use aisl.Bare.Memory.{
  context_magic, Context, World, Libc, context_at, put_at, accessed, read_at, Module,
}
use aisl.Bare.Welcome.{welcome_init}

-- The page is the argument `html`.
unfoldable pub router_reply_error : {W : Type 0} → Bytes → HttpResponse → Program W
router_reply_error html http_response = call (response http_response auto_length) (λ r.
    if succeeds r
    then call (printf html) (λ ret_code. if is_zero ret_code then flushed else reject stop)
    else reject stop)

-- `module ? module->name : "NULL"`
abbrev pub optional_name : {W : Type 0} → Option (Module W) → Bytes
optional_name none = codes "NULL"
optional_name (some m) = m.name

-- `ctx->magic == AISL_CONTEXT_MAGIC`
unfoldable pub is_ours : Context → Bool
is_ours ctx = ctx.magic == context_magic

module _ {V : Type 0} (libc : Libc V) where
  -- `ctx->module_id = i` for a context of the server
  unfoldable pub owned : ℕ → ℕ → World V → World V
  owned ctx i w =
      accessed (λ c m. if is_ours c then put_at m ctx (some (record c { module_id = i })) else m)
        (context_at w.memory ctx) w

  -- The module that is found.
  unfoldable pub found : ℕ → Program (World V)
  found i = inspect (λ c.
      let ctx = aisl_get_context c.stream in
      if ctx == 0 then stop else visit (owned ctx i) (λ _. stop))

  -- The `switch` behind `on_open`; `go` goes on with the next module.
  unfoldable pub opened_by :
      (HttpResponse → Program (World V)) → ℕ → Option HttpResponse → Program (World V)
  opened_by go i none = found i
  opened_by go i (some not_found) = go not_found
  opened_by go i (some ret_code) = router_reply_error (libc.error_page ret_code) ret_code

  -- The loop over the modules from index `i` on.
  unfoldable pub open_modules :
      List (Module (World V)) → ℕ → HttpResponse → Bytes → Bytes → HttpMethod → Program (World V)
  open_modules [] i ret_code path query method =
      router_reply_error (libc.error_page ret_code) ret_code
  open_modules (m ∷ ms) i ret_code path query method =
      m.on_open m.config path query method
        (opened_by (λ code. open_modules ms (i + 1) code path query method) i)

  module _ (m_modules : List (Module (World V))) where
    unfoldable pub on_stream_open : Bytes → Bytes → HttpMethod → Program (World V)
    on_stream_open path query method = open_modules m_modules 0 not_found path query method

    -- `ctx->module_id < modules_count`, in front of the element
    unfoldable pub module_of : Context → Option (Module (World V))
    module_of ctx =
        if is_ours ctx && ltb ctx.module_id (length m_modules)
        then get_elem? m_modules ctx.module_id
        else none

    -- What follows a read of the context, which ends the program where the access is a fault.
    unfoldable pub read_context :
        (Option (Module (World V)) → Program (World V)) → Option Context → Program (World V)
    read_context next none = stop
    read_context next (some ctx) = next (module_of ctx)

    unfoldable pub get_module_from_stream :
        (Option (Module (World V)) → Program (World V)) → Program (World V)
    get_module_from_stream next = inspect (λ c.
        let ctx = aisl_get_context c.stream in
        visit (read_at ctx) (λ w. read_context next (context_at w.memory ctx)))

    -- `if (module && module->handler) { module->handler(module->config, ...); }`
    abbrev pub optional : {A : Type 0} → (A → Program (World V)) → Option A → Program (World V)
    optional f none = stop
    optional f (some a) = f a

    unfoldable pub on_stream_header : Bytes → Bytes → Program (World V)
    on_stream_header key value =
        get_module_from_stream (optional (λ m. optional (λ f. f m.config key value) m.on_header))

    unfoldable pub on_stream_input : Bytes → Program (World V)
    on_stream_input piece =
        get_module_from_stream (optional (λ m. optional (λ f. f m.config piece) m.on_input))

    unfoldable pub on_stream_request : Program (World V)
    on_stream_request =
        get_module_from_stream (optional (λ m. optional (λ f. f m.config) m.on_request))

    unfoldable pub on_stream_output : Program (World V)
    on_stream_output =
        get_module_from_stream (optional (λ m. optional (λ f. f m.config) m.on_output))

    unfoldable pub on_stream_close : Program (World V)
    on_stream_close = get_module_from_stream (optional (λ m. optional (λ f. f m.config) m.on_close))

    -- A handler that only prints.
    abbrev pub printing : (V → Bytes) → Program (World V)
    printing text =
        visit (λ w. record w { outside = libc.print (text w.outside) w.outside }) (λ _. stop)

    unfoldable pub on_stream_error : Status → Program (World V)
    on_stream_error status = get_module_from_stream (λ m. printing (λ v.
        codes "stream error (module: "
        ++ (optional_name m
            ++ (codes ", status: " ++ (aisl_status_to_string status ++ codes ")\n")))))

    unfoldable pub on_server_ready : Program (World V)
    on_server_ready = printing (λ v.
        codes "HTTP server is ready\nOpen http://"
        ++ (libc.browser_address v ++ codes "/ in your browser\n"))

    unfoldable pub on_server_error : Status → Program (World V)
    on_server_error status = printing (λ v.
        codes "failed to start server at "
        ++ (libc.address v
            ++ (codes " ("
                ++ (aisl_status_to_string status
                    ++ (codes ", " ++ (libc.strerror v ++ codes ")\n"))))))

    unfoldable pub on_client_event : Status → Bytes → Program (World V)
    on_client_event status word = printing (λ v.
        codes "client "
        ++ (libc.address v
            ++ (codes ": " ++ ((if is_idle status then codes "timeout" else word) ++ codes "\n"))))

    unfoldable pub unhandled : EventCode → Program (World V)
    unhandled code = printing (λ v.
        codes "Unhandled event ("
        ++ (decimal (event_number code)
            ++ (codes ": " ++ (aisl_event_to_string code ++ codes ")\n"))))

    unfoldable pub router_callback : Raised → Program (World V)
    router_callback (carrying (on_open method path query)) = on_stream_open path query method
    router_callback (carrying (on_header key value)) = on_stream_header key value
    router_callback (carrying (on_input piece)) = on_stream_input piece
    router_callback (plain stream_request status) = on_stream_request
    router_callback (plain stream_output status) = on_stream_output
    router_callback (plain stream_close status) = on_stream_close
    router_callback (plain stream_error status) = on_stream_error status
    router_callback (plain server_ready status) = on_server_ready
    router_callback (plain server_error status) = on_server_error status
    router_callback (plain client_connect status) = on_client_event status (codes "connected")
    router_callback (plain client_disconnect status) = on_client_event status (codes "disconnected")
    router_callback (plain code status) = unhandled code

  -- `m_modules` behind `router_init`, or none for the result -1
  abbrev pub only : {A : Type 0} → V × Option A → V × Option (List A)
  only (v, none) = (v, none)
  only (v, some m) = (v, some (m ∷ []))

  unfoldable pub router_init : Bytes → V → V × Option (List (Module (World V)))
  router_init target v = only (welcome_init libc target (codes "/") v)
