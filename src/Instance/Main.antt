-- ===== src/Instance/Main.antt =====
-- The loop of a main function round aisl_run_cycle and aisl_sleep of src/instance.c.
use aisl.Prelude.{ℕ, zero, suc, Option, none, some, true, false, Bool, if◌then◌else◌}
use aisl.Api.{System}
use aisl.Client.{Client}
use aisl.Client.Depth.{IsPolite}
use aisl.Client.Touch.{is_success}
use aisl.Server.{Net}
use aisl.Spool.{Pointers}
use aisl.Ssl.{OpenSsl}
use aisl.Instance.{Instance, aisl_run_cycle}
use aisl.Instance.Invariant.{IsRunning, aisl_run_cycle-IsRunning}
use aisl.Instance.Life.{MadeBlank, aisl_new-MadeBlank}
use aisl.Instance.New.{Cfg, aisl_new}
use aisl.Instance.Sleep.{Waiter, aisl_sleep, main_round, main_rounds, entered}

-- An instance, where there is one, has a well-formed spool of clients that are all served.
abbrev pub Runs : {W : Type 0} → Option (Instance W) → Type 0
Runs none = Unit {0}
Runs (some inst) = IsRunning inst.client_spool

module _ {W : Type 0} (sys : System W) (pointers : Pointers W Client) (net : Net W)
    (lib : OpenSsl W) (waiter : Waiter W) (polite : IsPolite sys) where
  rested-IsRunning :
      (awake : Bool) (inst : Instance W)
      → IsRunning inst.client_spool
      → IsRunning (if awake then inst else (aisl_sleep waiter inst 500).0).client_spool
  unfolding aisl_sleep
  rested-IsRunning true inst h = h
  rested-IsRunning false inst h = h

  pub main_rounds-IsRunning :
      (n : ℕ) (inst : Instance W)
      → IsRunning inst.client_spool
      → IsRunning (main_rounds sys pointers net lib waiter n inst).client_spool
  unfolding main_rounds main_round
  main_rounds-IsRunning zero inst h = h
  main_rounds-IsRunning (suc n) inst h =
      let (inst', status) = aisl_run_cycle sys pointers net lib inst in
      main_rounds-IsRunning n (main_round sys pointers net lib waiter inst) (
        rested-IsRunning (is_success status) inst'
          (aisl_run_cycle-IsRunning sys pointers net lib polite inst h))

  entered-Runs :
      (n : ℕ) (r : W × Option (Instance W))
      → MadeBlank r
      → Runs (entered sys pointers net lib waiter n r)
  unfolding entered
  entered-Runs n (w, none) h = tt
  entered-Runs n (w, some inst) h = main_rounds-IsRunning n inst (h.0)

  -- A main function with a handler that does not close the client within CLIENT_DISCONNECT has,
  -- where it gets an instance, after any number of rounds a well-formed spool whose clients are
  -- all online.
  pub entered-aisl_new-Runs :
      (cfg : Cfg) (n : ℕ) (w : W)
      → Runs (entered sys pointers net lib waiter n (aisl_new sys pointers net lib cfg w))
  entered-aisl_new-Runs cfg n w = entered-Runs n _ (aisl_new-MadeBlank sys pointers net lib cfg w)
