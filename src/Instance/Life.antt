-- ===== src/Instance/Life.antt =====
-- An instance of src/instance.c from aisl_new over its cycles to aisl_free.
use aisl.Prelude.{
  ℕ, zero, suc, ◌≡◌, ◌≤◌, ◌<◌, ◌⊎◌, refl, Option, none, some, List, [], length, Bool, true, false,
  arith,
}
use aisl.Api.{Raised, System}
use aisl.Client.{Client}
use aisl.Client.Depth.{IsPolite}
use aisl.Server.{Net, Server}
use aisl.Spool.{Pointers, made, list_init}
use aisl.Ssl.{OpenSsl, Ssl, new_ssl_list}
use aisl.Instance.{Instance, free_clients, aisl_run_cycle}
use aisl.Instance.Invariant.{IsRunning}
use aisl.Instance.New.{
  Cfg, blank_instance, new_servers, released, with_spool, with_ssl_list, with_ssl_memory,
  with_servers, with_server_memory, with_instance, aisl_new,
}

-- An instance, where one is made, has an empty, valid spool and no events behind it.
abbrev pub IsBlank : {W : Type 0} → Instance W → Type 0
IsBlank inst = IsRunning inst.client_spool × (inst.client_spool.count ≡ 0) × (inst.log ≡ [])

abbrev pub MadeBlank : {W : Type 0} → W × Option (Instance W) → Type 0
MadeBlank (w, none) = Unit {0}
MadeBlank (w, some inst) = IsBlank inst

module _ {W : Type 0} (sys : System W) (pointers : Pointers W Client) (net : Net W)
    (lib : OpenSsl W) where
  with_spool-MadeBlank :
      (cfg : Cfg) (inst : Instance W) (size : ℕ) (r : W × Option (List Client))
      → inst.log ≡ []
      → ((new : List Client) → r.1 ≡ some new → length new ≡ size)
      → MadeBlank
          (with_spool sys pointers net lib cfg inst (made pointers inst.client_spool size r))
  unfolding with_spool made released
  with_spool-MadeBlank cfg inst size (w, none) e h = tt
  with_spool-MadeBlank cfg inst size (w, some mem) e h =
      ((record { sized = h mem refl; fits = omega arith }, tt), refl, e)

  with_ssl_list-MadeBlank :
      (cfg : Cfg) (inst : Instance W) (r : W × List Ssl × Bool)
      → inst.log ≡ []
      → MadeBlank (with_ssl_list sys pointers net lib cfg inst r)
  unfolding with_ssl_list list_init released
  with_ssl_list-MadeBlank cfg inst (w, list, false) e = tt
  with_ssl_list-MadeBlank cfg inst (w, list, true) e =
      let n = cfg.client_spool_size in
      with_spool-MadeBlank cfg (record inst { world = w; ssl = list }) n (pointers.calloc w n) e
        (pointers.calloc_length w n)

  with_ssl_memory-MadeBlank :
      (cfg : Cfg) (inst : Instance W) (r : W × Bool)
      → inst.log ≡ []
      → MadeBlank (with_ssl_memory sys pointers net lib cfg inst r)
  unfolding with_ssl_memory released
  with_ssl_memory-MadeBlank cfg inst (w, false) e = tt
  with_ssl_memory-MadeBlank cfg inst (w, true) e =
      with_ssl_list-MadeBlank cfg (record inst { world = w }) (new_ssl_list lib cfg.ssl w []) e

  with_servers-MadeBlank :
      (cfg : Cfg) (inst : Instance W) (r : W × List Server × Bool)
      → inst.log ≡ []
      → MadeBlank (with_servers sys pointers net lib cfg inst r)
  unfolding with_servers released
  with_servers-MadeBlank cfg inst (w, list, false) e = tt
  with_servers-MadeBlank cfg inst (w, list, true) e =
      with_ssl_memory-MadeBlank cfg (record inst { world = w; srv = list }) (lib.allocate w) e

  with_server_memory-MadeBlank :
      (cfg : Cfg) (r : W × Bool) → MadeBlank (with_server_memory sys pointers net lib cfg r)
  unfolding with_server_memory released
  with_server_memory-MadeBlank cfg (w, false) = tt
  with_server_memory-MadeBlank cfg (w, true) =
      with_servers-MadeBlank cfg (blank_instance w) (new_servers sys pointers net lib cfg.srv w [])
        refl

  with_instance-MadeBlank :
      (cfg : Cfg) (r : W × Bool) → MadeBlank (with_instance sys pointers net lib cfg r)
  unfolding with_instance
  with_instance-MadeBlank cfg (w, false) = tt
  with_instance-MadeBlank cfg (w, true) = with_server_memory-MadeBlank cfg (lib.allocate w)

  pub aisl_new-MadeBlank : (cfg : Cfg) (w : W) → MadeBlank (aisl_new sys pointers net lib cfg w)
  unfolding aisl_new
  aisl_new-MadeBlank cfg w = with_instance-MadeBlank cfg (lib.allocate w)

  -- So many cycles.
  unfoldable pub cycles : ℕ → Instance W → Instance W
  cycles zero inst = inst
  cycles (suc n) inst = cycles n (aisl_run_cycle sys pointers net lib inst).0

  module _ (polite : IsPolite sys) where
    -- Without clients aisl_free raises no event and reads no freed memory; with clients it reads a
    -- freed server at least once for each.
    abbrev Freed : List Client → W → List Raised → Type 0
    Freed cs w log =
        let (_, log', reads) = free_clients sys cs (w, log, 0) in
        ((length cs ≡ 0) × (log' ≡ log) × (reads ≡ 0)) ⊎ ((0 < length cs) × (length cs ≤ reads))
