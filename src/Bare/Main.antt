-- ===== src/Bare/Main.antt =====
-- bare/src/main.c: the main function of the sample server.
use aisl.Prelude.{ℕ, Option, none, some, List, [], ◌∷◌, Bytes, false}
use aisl.Api.{System}
use aisl.Client.{Client, chosen}
use aisl.Client.Depth.{IsPolite}
use aisl.Server.{Net}
use aisl.Spool.{Pointers}
use aisl.Ssl.{OpenSsl}
use aisl.Instance.{Instance}
use aisl.Instance.Invariant.{IsRunning}
use aisl.Instance.Life.{MadeBlank, aisl_new-MadeBlank}
use aisl.Instance.New.{Cfg, aisl_cfg_defaults, aisl_new}
use aisl.Instance.Main.{Runs, main_rounds-IsRunning}
use aisl.Instance.Sleep.{Waiter, main_rounds}
use aisl.Bare.Memory.{World, Libc, Module}
use aisl.Bare.Router.{on_client_event, router_callback, router_init}

-- `m_srv` and `m_cfg`
abbrev pub m_cfg : Cfg
m_cfg = aisl_cfg_defaults (record { secure = false } ∷ [])

module _ {V : Type 0} (libc : Libc V) (target : Bytes) (waiter : Waiter (World V))
    (sys : System (World V)) (pointers : Pointers (World V) Client) (net : Net (World V))
    (lib : OpenSsl (World V)) where
  -- `m_cfg.callback` over the modules that the static array has
  abbrev pub with_modules : List (Module (World V)) → System (World V)
  with_modules ms = record sys { callback = some (router_callback libc ms) }

  abbrev pub looping :
      ℕ → Instance (World V) → V × Option (List (Module (World V))) → Option (Instance (World V))
  looping rounds inst (v, none) = none
  looping rounds inst (v, some ms) = some (
      main_rounds (with_modules ms) pointers net lib waiter rounds
        (record inst { world = record inst.world { outside = v } }))

  abbrev pub prepared : ℕ → World V × Option (Instance (World V)) → Option (Instance (World V))
  prepared rounds (w, none) = none
  prepared rounds (w, some inst) = looping rounds inst (router_init libc target inst.world.outside)

  -- `main` without what it prints, up to the given number of rounds of its loop, which has no end;
  -- `none` where it returns. No event is raised before `router_init` has filled the array.
  unfoldable pub main : ℕ → World V → Option (Instance (World V))
  main rounds w = prepared rounds (aisl_new (with_modules []) pointers net lib m_cfg w)

  with_modules-IsPolite : (ms : List (Module (World V))) → IsPolite (with_modules ms)
  unfolding chosen router_callback on_client_event
  with_modules-IsPolite ms st s w = tt

  looping-Runs :
      (n : ℕ) (inst : Instance (World V)) (r : V × Option (List (Module (World V))))
      → IsRunning inst.client_spool
      → Runs (looping n inst r)
  looping-Runs n inst (v, none) h = tt
  looping-Runs n inst (v, some ms) h =
      main_rounds-IsRunning (with_modules ms) pointers net lib waiter (with_modules-IsPolite ms) n
        (record inst { world = record inst.world { outside = v } }) h

  prepared-Runs :
      (n : ℕ) (r : World V × Option (Instance (World V))) → MadeBlank r → Runs (prepared n r)
  prepared-Runs n (w, none) h = tt
  prepared-Runs n (w, some inst) h =
      looping-Runs n inst (router_init libc target inst.world.outside) (h.0)

  -- The main function of the sample server has, where it comes to its loop, after any number of
  -- rounds a well-formed spool whose clients are all online.
  pub main_lem : (n : ℕ) (w : World V) → Runs (main n w)
  unfolding main
  main_lem n w =
      prepared-Runs n (aisl_new (with_modules []) pointers net lib m_cfg w)
        (aisl_new-MadeBlank (with_modules []) pointers net lib m_cfg w)
