-- ===== src/Bare/Contexts.antt =====
-- bare/src/router.c with the module of bare/src/welcome.c: what each event does where the stream
-- has a context, and where it has none.
use aisl.Prelude.{
  ℕ, zero, suc, ◌≡◌, refl, ap, ◌∙◌, Option, none, some, List, [], ◌∷◌, ◌++◌, Bytes, codes, false,
  set, get_elem?, length, ◌==◌, arith, if◌then◌else◌,
}
use aisl.Types.{
  success, server_ready, server_error, client_connect, client_disconnect, stream_open,
  stream_header, stream_input, stream_request, stream_output, stream_close, stream_error,
}
use aisl.Stream.Request.{on_open, on_header, on_input}
use aisl.Api.{Raised, carrying, plain, Program, stop, visit, System}
use aisl.Handler.{page_served}
use aisl.Client.{Session, chosen, run, raise_within, raise}
use aisl.Bare.Memory.{
  context_magic, Context, Memory, World, set_memory, faulty, Libc, context_at, put_at, accessed,
  read_at, freed, Module,
}
use aisl.Bare.Welcome.{
  welcome_html, new_cell, welcome_on_response, welcome_on_close, welcome_module,
}
use aisl.Bare.Router.{
  is_ours, module_of, read_context, get_module_from_stream, on_stream_header, on_stream_input,
  on_stream_request, on_stream_output, on_stream_close, on_stream_error, router_callback,
}

-- The context of the page's module.
abbrev pub welcome_context : Context
welcome_context = record { magic = context_magic; module_id = 0 }

-- The pointer `p` is to such a context.
abbrev pub IsServedBy : {V : Type 0} → World V → ℕ → Type 0
IsServedBy w p = context_at w.memory p ≡ some welcome_context

get_elem?-append_last :
    {A : Type 0} (xs : List A) (x : A) → get_elem? (xs ++ (x ∷ [])) (length xs) ≡ some x
get_elem?-append_last [] x = refl
get_elem?-append_last (y ∷ xs) x = get_elem?-append_last xs x

pub set-append_last :
    {A : Type 0} (xs : List A) (x y : A) → set (xs ++ (x ∷ [])) (length xs) y ≡ xs ++ (y ∷ [])
set-append_last [] x y = refl
set-append_last (z ∷ xs) x y = ap (◌∷◌ z) (set-append_last xs x y)

pub new_cell-IsServedBy :
    (m : Memory) → context_at (new_cell m) (suc (length m.cells)) ≡ some welcome_context
unfolding context_at new_cell
new_cell-IsServedBy m =
    ap (λ o. elim o [ none ↦ none | some cell ↦ cell ])
      (get_elem?-append_last m.cells (some welcome_context))

-- The events of a stream that the router hands on by the context.
abbrev pub NeedsContext : Raised → Type 0
NeedsContext (carrying (on_open m path query)) = ⊥
NeedsContext (carrying (on_header key value)) = Unit {0}
NeedsContext (carrying (on_input piece)) = Unit {0}
NeedsContext (plain stream_request st) = Unit {0}
NeedsContext (plain stream_output st) = Unit {0}
NeedsContext (plain stream_close st) = Unit {0}
NeedsContext (plain stream_error st) = Unit {0}
NeedsContext (plain _ st) = ⊥

module _ {V : Type 0} (libc : Libc V) (target : Bytes) (sys : System (World V)) where
  abbrev pub modules : List (Module (World V))
  modules = welcome_module libc target (codes "/") ∷ []

  -- the library with the callback of bare/src/main.c
  abbrev pub with_router : System (World V)
  with_router = record sys { callback = some (router_callback libc modules) }

  -- The read of a context as a function of what the memory has there.
  abbrev reading :
      (Option (Module (World V)) → Program (World V))
      → ℕ
      → Session (World V)
      → Option Context
      → Session (World V)
  reading next d s o =
      run with_router (read_context libc modules next o) d
        (record s { world = accessed (λ ctx m. m) o s.world })

  -- A read of the context of the page's module finds the module and changes nothing.
  get_module-finds :
      (next : Option (Module (World V)) → Program (World V)) (d : ℕ) (s : Session (World V))
      → IsServedBy s.world s.client.conn.stream.u_ptr
      → run with_router (get_module_from_stream libc modules next) d s
        ≡ run with_router (next (some (welcome_module libc target (codes "/")))) d s
  unfolding run get_module_from_stream read_at read_context module_of is_ours
  get_module-finds next d s h = ap (reading next d s) h

  -- Where the pointer is to no context, the handler ends by a fault.
  get_module-faults :
      (next : Option (Module (World V)) → Program (World V)) (d : ℕ) (s : Session (World V))
      → context_at s.world.memory s.client.conn.stream.u_ptr ≡ none
      → run with_router (get_module_from_stream libc modules next) d s
        ≡ record s { world = set_memory s.world (faulty s.world.memory) }
  unfolding run get_module_from_stream read_at read_context
  get_module-faults next d s h = ap (reading next d s) h

  -- Every event of a stream behind STREAM_OPEN ends by a fault where the stream has no context, and
  -- changes nothing else.
  pub raise_faults :
      (e : Raised) (s : Session (World V))
      → NeedsContext e
      → context_at s.world.memory s.client.conn.stream.u_ptr ≡ none
      → raise with_router e s
        ≡ record s { world = set_memory s.world (faulty s.world.memory); log = e ∷ s.log }
  unfolding raise raise_within chosen router_callback on_stream_header on_stream_input
      on_stream_request on_stream_output on_stream_close on_stream_error
  raise_faults (carrying (on_open m path query)) s n h = absurd n
  raise_faults (carrying (on_header key value)) s n h =
      get_module-faults _ 2 (record s { log = carrying (on_header key value) ∷ s.log }) h
  raise_faults (carrying (on_input piece)) s n h =
      get_module-faults _ 2 (record s { log = carrying (on_input piece) ∷ s.log }) h
  raise_faults (plain stream_request st) s n h =
      get_module-faults _ 2 (record s { log = plain stream_request st ∷ s.log }) h
  raise_faults (plain stream_output st) s n h =
      get_module-faults _ 2 (record s { log = plain stream_output st ∷ s.log }) h
  raise_faults (plain stream_close st) s n h =
      get_module-faults _ 2 (record s { log = plain stream_close st ∷ s.log }) h
  raise_faults (plain stream_error st) s n h =
      get_module-faults _ 2 (record s { log = plain stream_error st ∷ s.log }) h
  raise_faults (plain server_ready st) s n h = absurd n
  raise_faults (plain server_error st) s n h = absurd n
  raise_faults (plain client_connect st) s n h = absurd n
  raise_faults (plain client_disconnect st) s n h = absurd n
  raise_faults (plain stream_open st) s n h = absurd n
  raise_faults (plain stream_header st) s n h = absurd n
  raise_faults (plain stream_input st) s n h = absurd n

  -- A header changes nothing where the context is that of the page's module.
  pub raise_header :
      (key value : Bytes) (s : Session (World V))
      → IsServedBy s.world s.client.conn.stream.u_ptr
      → raise with_router (carrying (on_header key value)) s
        ≡ record s { log = carrying (on_header key value) ∷ s.log }
  unfolding raise raise_within chosen router_callback on_stream_header run
  raise_header key value s h =
      get_module-finds _ 2 (record s { log = carrying (on_header key value) ∷ s.log }) h

  -- STREAM_REQUEST sends the page.
  pub raise_request :
      (s : Session (World V))
      → IsServedBy s.world s.client.conn.stream.u_ptr
      → raise with_router (plain stream_request success) s
        ≡ run with_router
            (page_served (welcome_html target))
            2
            (record s { log = plain stream_request success ∷ s.log })
  unfolding raise raise_within chosen router_callback on_stream_request welcome_on_response
  raise_request s h =
      get_module-finds _ 2 (record s { log = plain stream_request success ∷ s.log }) h

  close_frees :
      (p : ℕ) (s : Session (World V))
      → s.client.conn.stream.u_ptr ≡ p
      → IsServedBy s.world p
      → run with_router (welcome_on_close libc (codes "/")) 2 s
        ≡ record s { world = set_memory s.world (put_at s.world.memory p none) }
  unfolding run welcome_on_close freed
  close_frees zero s e h = unfold context_at in absurd (cc)
  close_frees (suc i) s e h =
      let pointed : (suc i == 0) ≡ false = ground arith in
      ap (λ q. run with_router (if q == 0 then stop else visit (freed q) (λ _. stop)) 2 s) e
      ∙ ap (λ b. run with_router (if b then stop else visit (freed (suc i)) (λ _. stop)) 2 s)
          pointed
      ∙ ap (λ o. record s { world = accessed (λ ctx m. put_at m (suc i) none) o s.world }) h

  -- STREAM_CLOSE frees the context of the stream and no other.
  pub raise_close :
      (s : Session (World V))
      → IsServedBy s.world s.client.conn.stream.u_ptr
      → raise with_router (plain stream_close success) s ≡ record s {
        world = set_memory s.world (put_at s.world.memory s.client.conn.stream.u_ptr none);
        log = plain stream_close success ∷ s.log;
      }
  unfolding raise raise_within chosen router_callback on_stream_close
  raise_close s h =
      let t = record s { log = plain stream_close success ∷ s.log } in
      get_module-finds _ 2 t h ∙ close_frees s.client.conn.stream.u_ptr t refl h
