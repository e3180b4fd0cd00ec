-- ===== src/Bare/Faults.antt =====
-- The sample server of bare/ where a stream has no context: the accesses through NULL.
use aisl.Prelude.{
  ℕ, zero, suc, ◌≡◌, ◌≢◌, refl, ap, ◌∙◌, Option, none, some, Bytes, codes, true, false,
  if◌then◌else◌, bytes_eq, ◌⊎◌, Bool-cases, inl, inr, if_true, [], ◌∷◌,
}
use aisl.Types.{Status, success, HttpMethod, client_disconnect, stream_close, auto_length}
use aisl.Types.Response.{HttpResponse}
use aisl.Stream.Pointer.{aisl_response-Points, aisl_vprintf-Points, aisl_flush-Points}
use aisl.Stream.Request.{on_open}
use aisl.Stream.Response.{aisl_response}
use aisl.Stream.Write.{aisl_vprintf}
use aisl.Api.{
  Raised, carrying, plain, status, count, Call, Program, stop, call, reject, System, perform,
  answered, counted,
}
use aisl.Handler.{succeeds, is_zero, flushed}
use aisl.Handler.Page.{run-if}
use aisl.Client.{
  Session, with_conn, if_open, hung_up, close_by, chosen, run, raise_within, raise,
  aisl_client_close,
}
use aisl.Client.Touch.{stream_freed, aisl_client_free}
use aisl.Bare.Memory.{Memory, World, set_memory, faulty, Libc, context_at}
use aisl.Bare.Welcome.{new_context, context_pointer, welcomed, welcome_on_open}
use aisl.Bare.Router.{
  router_reply_error, opened_by, open_modules, on_stream_open, on_client_event, router_callback,
}
use aisl.Bare.Contexts.{NeedsContext, modules, with_router, raise_faults}
use aisl.Bare.Laws.{for_memory, no_memory, on_stream_open_closes}

module _ {V : Type 0} (libc : Libc V) (target : Bytes) (sys : System (World V)) where
  -- The stream, the contexts and whether there is a stream are as in `s`.
  abbrev SameStream : Session (World V) → Session (World V) → Type 0
  SameStream s t =
      (t.client.conn ≡ s.client.conn)
      × (t.world.memory ≡ s.world.memory)
      × (t.client.has_stream ≡ s.client.has_stream)

  if_open-SameStream :
      (fd : Option ℕ) (s t : Session (World V))
      → SameStream s t
      → SameStream s (if_open fd (hung_up t) s)
  if_open-SameStream none s t h = (refl, refl, refl)
  if_open-SameStream (some n) s t h = h

  close_by-SameStream :
      (d : ℕ) (st : Status) (s : Session (World V))
      → SameStream s (close_by (raise_within (with_router libc target sys) d) st s)
  unfolding close_by raise_within chosen run router_callback on_client_event
  close_by-SameStream d st s =
      if_open-SameStream s.client.fd s
        (raise_within (with_router libc target sys) d (plain client_disconnect st) s)
        (refl, refl, refl)

  -- The user's pointer is as in `s`.
  abbrev SamePointer : Session (World V) → Session (World V) → Type 0
  SamePointer s t = t.client.conn.stream.u_ptr ≡ s.client.conn.stream.u_ptr

  reject-SamePointer :
      (d : ℕ) (s : Session (World V))
      → SamePointer s (run (with_router libc target sys) (reject stop) d s)
  unfolding run
  reject-SamePointer zero s = refl
  reject-SamePointer (suc d) s =
      unfold raise_within in ap (λ c. c.stream.u_ptr) (close_by-SameStream d success s).0

  flushed-SamePointer :
      (d : ℕ) (s : Session (World V))
      → SamePointer s (run (with_router libc target sys) flushed d s)
  unfolding run perform answered
  flushed-SamePointer d s = aisl_flush-Points sys.alloc s.world s.client.conn

  print-SamePointer :
      (html : Bytes) (d : ℕ) (s : Session (World V))
      → SamePointer s (
          run
            (with_router libc target sys)
            (call
              (Call.printf html)
              (λ ret_code. if is_zero ret_code then flushed else reject stop))
            d
            s)
  unfolding run perform counted
  print-SamePointer html d s =
      let r = aisl_vprintf sys.alloc s.world s.client.conn html in
      let t = record (with_conn s r.1) { world = r.0 } in
      let same = aisl_vprintf-Points sys.alloc s.world s.client.conn html in
      run-if (with_router libc target sys) (SamePointer s) (is_zero (count r.2)) flushed
        (reject stop) d t (λ _. flushed-SamePointer d t ∙ same) (λ _. reject-SamePointer d t ∙ same)

  router_reply_error-SamePointer :
      (html : Bytes) (code : HttpResponse) (d : ℕ) (s : Session (World V))
      → SamePointer s (run (with_router libc target sys) (router_reply_error html code) d s)
  unfolding router_reply_error run perform answered
  router_reply_error-SamePointer html code d s =
      let r = aisl_response sys.alloc s.world s.client.conn code auto_length in
      let t = record (with_conn s r.1) { world = r.0 } in
      let same = aisl_response-Points sys.alloc s.world s.client.conn code auto_length in
      run-if (with_router libc target sys) (SamePointer s) (succeeds (status r.2)) _ (reject stop) d
        t (λ _. print-SamePointer html d t ∙ same) (λ _. reject-SamePointer d t ∙ same)

  refused-SamePointer :
      (go : HttpResponse → Program (World V)) (ctx : Option ℕ) (d : ℕ) (s : Session (World V))
      → ctx ≡ none
      → SamePointer s
          (run (with_router libc target sys) (welcomed libc (opened_by libc go 0) ctx) d s)
  unfolding welcomed opened_by
  refused-SamePointer go none d s e = router_reply_error-SamePointer _ _ d s
  refused-SamePointer go (some p) d s e = absurd (cc)

  -- STREAM_OPEN that is refused sets no context.
  refused_open-SamePointer :
      (path query : Bytes) (method : HttpMethod) (d : ℕ) (s : Session (World V))
      → (path ≢ codes "/") ⊎ ((libc.calloc s.world.outside).1 ≡ false)
      → SamePointer s (
          run
            (with_router libc target sys)
            (on_stream_open libc (modules libc target sys) path query method)
            d
            s)
  unfolding run on_stream_open open_modules welcome_on_open opened_by
  refused_open-SamePointer path query method d s h = elim (Bool-cases (bytes_eq path (codes "/"))) [
    | inl e ↦ rw e (
        refused-SamePointer (λ code. router_reply_error (libc.error_page code) code)
          (context_pointer libc s.world) d (record s { world = new_context libc s.world })
          (no_memory libc target (codes "/") sys s.world (for_memory path (codes "/") _ e h)))
    | inr e ↦ rw e (router_reply_error-SamePointer _ HttpResponse.not_found d s)
  ]

  -- On a stream without a context, a request that the sample server refuses, for its path or for
  -- want of memory, with an error page that is not empty, closes the client, and the next event of
  -- the stream, be it a header, input, the request, output, an error or the end of the stream, is
  -- an access through NULL and does nothing else.
  pub refused_then_faults :
      (path query : Bytes) (method : HttpMethod) (s : Session (World V)) (e : Raised)
      → ((code : HttpResponse) → libc.error_page code ≢ [])
      → s.client.conn.stream.u_ptr ≡ 0
      → (path ≢ codes "/") ⊎ ((libc.calloc s.world.outside).1 ≡ false)
      → NeedsContext e
      → let router = with_router libc target sys in
        let t = raise router (carrying (on_open method path query)) s in
        (t.client.fd ≡ none)
        × (raise router e t
            ≡ record t { world = set_memory t.world (faulty t.world.memory); log = e ∷ t.log })
  refused_then_faults path query method s e full null h needs =
      let router = with_router libc target sys in
      let evt = carrying (on_open method path query) in
      let u = record s { log = evt ∷ s.log } in
      let t = raise router evt s in
      let pointer : t.client.conn.stream.u_ptr ≡ 0 =
        unfold raise raise_within chosen router_callback in
        refused_open-SamePointer path query method 2 u h ∙ null in
      (
        unfold raise raise_within chosen router_callback in
            on_stream_open_closes libc target (codes "/") router path query method 1 u full h,
        raise_faults libc target sys e t needs
            (unfold context_at in ap (λ p. context_at t.world.memory p) pointer),
      )

  freed-faults :
      (s t : Session (World V))
      → SameStream s t
      → s.client.has_stream ≡ true
      → s.client.conn.stream.u_ptr ≡ 0
      → (if t.client.has_stream
          then stream_freed (with_router libc target sys) t
          else t).world.memory
        ≡ faulty s.world.memory
  freed-faults s t (conn, memory, there) has null =
      let router = with_router libc target sys in
      let pointer : t.client.conn.stream.u_ptr ≡ 0 = ap (λ c. c.stream.u_ptr) conn ∙ null in
      let fault =
        raise_faults libc target sys (plain stream_close success) t tt
          (unfold context_at in ap (λ p. context_at t.world.memory p) pointer) in
      ap (λ (r : Session (World V)). r.world.memory)
        (if_true _ (stream_freed router t) t (there ∙ has) ∙ fault)
      ∙ ap {A = Memory} (λ m. faulty m) memory

  -- With the sample server, aisl_client_free of a client whose stream has no context, as is that of
  -- every client that leaves before its request line is read, makes one access through NULL.
  pub aisl_client_free-faults :
      (s : Session (World V))
      → s.client.has_stream ≡ true
      → s.client.conn.stream.u_ptr ≡ 0
      → (aisl_client_free (with_router libc target sys) s).world.memory ≡ faulty s.world.memory
  unfolding aisl_client_free aisl_client_close raise
  aisl_client_free-faults s has null =
      freed-faults s (aisl_client_close (with_router libc target sys) success s)
        (close_by-SameStream 2 success s) has null
