-- ===== src/Bare/Welcome.antt =====
-- bare/src/welcome.c: the module of the sample server that serves its page.
use aisl.Prelude.{
  ℕ, suc, Option, none, some, [], ◌∷◌, ◌++◌, Bytes, codes, Bool, true, false, length, ◌==◌,
  if◌then◌else◌, bytes_eq,
}
use aisl.Types.{HttpMethod}
use aisl.Types.Response.{HttpResponse}
use aisl.Stream.{aisl_get_context}
use aisl.Api.{Program, stop, inspect, visit, call, set_context}
use aisl.Handler.{page_served}
use aisl.Bare.Memory.{context_magic, Memory, World, Libc, freed, Module}

-- `target` is TARGET_NAME of the build.
abbrev pub welcome_html : Bytes → Bytes
welcome_html target =
    codes "<html><head><title>Welcome World</title><style>"
    ++ (codes "body {width: 100%; height: 100%}h1 {font-size: 4em}.welcome-world {"
        ++ (codes "position: absolute;top: 50%;left: 50%;width: 640px;height:200px;"
            ++ (codes "margin: -100px 0 0 -320px;text-align: center;}</style></head><body>"
                ++ (codes "<div class=\"welcome-world\"><h1>Welcome World</h1><p>I am "
                    ++ (target ++ codes "</p></div></body></html>")))))

unfoldable pub welcome_on_response : {W : Type 0} → Bytes → Bytes → Program W
welcome_on_response target config = page_served (welcome_html target)

-- A new cell, zeroed but for its magic.
unfoldable pub new_cell : Memory → Memory
new_cell m = record m {
  cells = m.cells ++ (some (record { magic = context_magic; module_id = 0 }) ∷ []);
}

module _ {V : Type 0} (libc : Libc V) where
  abbrev pub granted : World V → V × Bool → World V
  granted w (v, true) = record { memory = new_cell w.memory; outside = v }
  granted w (v, false) = record w { outside = v }

  -- `_new_context`: what it does to the world, and the pointer that it returns.
  unfoldable pub new_context : World V → World V
  new_context w = granted w (libc.calloc w.outside)

  unfoldable pub context_pointer : World V → Option ℕ
  context_pointer w = if (libc.calloc w.outside).1 then some (suc (length w.memory.cells)) else none

  unfoldable pub welcomed : (Option HttpResponse → Program (World V)) → Option ℕ → Program (World V)
  welcomed return none = return (some HttpResponse.internal_server_error)
  welcomed return (some ctx) = call (set_context ctx) (λ _. return none)

  unfoldable pub welcome_on_open :
      Bytes
      → Bytes
      → Bytes
      → HttpMethod
      → (Option HttpResponse → Program (World V))
      → Program (World V)
  welcome_on_open config path query method return =
      if bytes_eq path config
      then visit new_context (λ w. welcomed return (context_pointer w))
      else return (some HttpResponse.not_found)

  unfoldable pub welcome_on_close : Bytes → Program (World V)
  welcome_on_close config = inspect (λ c.
      let ctx = aisl_get_context c.stream in
      if ctx == 0 then stop else visit (freed ctx) (λ _. stop))

  -- The module with its configuration.
  abbrev pub welcome_module : Bytes → Bytes → Module (World V)
  welcome_module target path = record {
    name = codes "welcome";
    config = path;
    on_open = welcome_on_open;
    on_header = none;
    on_input = none;
    on_request = some (welcome_on_response target);
    on_output = none;
    on_close = some welcome_on_close;
  }

  abbrev pub configured : Bytes → Bytes → V × Bool → V × Option (Module (World V))
  configured target path (v, false) = (v, none)
  configured target path (v, true) = (v, some (welcome_module target path))

  -- The module, or none for the result -1.
  unfoldable pub welcome_init : Bytes → Bytes → V → V × Option (Module (World V))
  welcome_init target path v = configured target path (libc.calloc v)
