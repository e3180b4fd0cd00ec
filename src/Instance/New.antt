-- ===== src/Instance/New.antt =====
-- aisl_new of src/instance.c, with the structures of include/aisl/config.h.
use aisl.Prelude.{ℕ, Option, none, some, List, [], ◌∷◌, ◌++◌, Bool, true, false}
use aisl.Api.{System}
use aisl.Client.{Client}
use aisl.Server.{Net, Server}
use aisl.Spool.{Pointers, PtrList, list_init}
use aisl.Ssl.{OpenSsl, Ssl, CfgSsl, new_ssl_list}
use aisl.Instance.{Instance, aisl_free}

-- `struct aisl_cfg_srv` without the address
pub record CfgSrv : Type 0 where
  pub secure : Bool

-- `struct aisl_cfg` without the callback, which is that of the System, and the sizes that nothing
-- reads
pub record Cfg : Type 0 where
  pub srv : List CfgSrv
  pub ssl : List CfgSsl
  pub client_spool_size : ℕ
  pub client_silence_timeout : ℕ

-- AISL_CFG_DEFAULTS, for servers without TLS contexts
abbrev pub aisl_cfg_defaults : List CfgSrv → Cfg
aisl_cfg_defaults srv = record {
  srv = srv;
  ssl = [];
  client_spool_size = 32;
  client_silence_timeout = 30;
}

-- An instance as `calloc` gives it.
abbrev pub blank_instance : {W : Type 0} → W → Instance W
blank_instance w = record {
  world = w;
  log = [];
  srv = [];
  ssl = [];
  client_spool = record { slots = []; size = 0; count = 0 };
  silence_timeout = 0;
}

module _ {W : Type 0} (sys : System W) (pointers : Pointers W Client) (net : Net W)
    (lib : OpenSsl W) where
  unfoldable pub server_made : Bool → W × Bool → W × Option Server
  server_made secure (w, true) = (w, some (record { secure = secure; fd = none }))
  server_made secure (w, false) = (w, none)

  unfoldable pub aisl_server_new : CfgSrv → W → W × Option Server
  aisl_server_new cfg w = server_made cfg.secure (lib.allocate w)

  abbrev pub then_servers :
      (W → List Server → W × List Server × Bool)
      → List Server
      → W × Option Server
      → W × List Server × Bool
  then_servers go list (w, none) = (w, list, false)
  then_servers go list (w, some server) = go w (list ++ (server ∷ []))

  -- The loop over the configured servers; the flag is whether it came to its end.
  unfoldable pub new_servers : List CfgSrv → W → List Server → W × List Server × Bool
  new_servers [] w list = (w, list, true)
  new_servers (cfg ∷ cfgs) w list = then_servers (new_servers cfgs) list (aisl_server_new cfg w)

  -- `release`
  unfoldable pub released : Instance W → W × Option (Instance W)
  released inst = ((aisl_free sys pointers net lib inst).0, none)

  unfoldable pub with_spool :
      Cfg → Instance W → W × PtrList Client × Option ℕ → W × Option (Instance W)
  with_spool cfg inst (w, l, none) = released (record inst { world = w; client_spool = l })
  with_spool cfg inst (w, l, some n) = (
    w,
    some
        (record inst { world = w; client_spool = l; silence_timeout = cfg.client_silence_timeout }),
  )

  unfoldable pub with_ssl_list : Cfg → Instance W → W × List Ssl × Bool → W × Option (Instance W)
  with_ssl_list cfg inst (w, list, false) = released (record inst { world = w; ssl = list })
  with_ssl_list cfg inst (w, list, true) =
      with_spool cfg (record inst { world = w; ssl = list })
        (list_init pointers w inst.client_spool cfg.client_spool_size)

  unfoldable pub with_ssl_memory : Cfg → Instance W → W × Bool → W × Option (Instance W)
  with_ssl_memory cfg inst (w, false) = released (record inst { world = w })
  with_ssl_memory cfg inst (w, true) =
      with_ssl_list cfg (record inst { world = w }) (new_ssl_list lib cfg.ssl w [])

  unfoldable pub with_servers : Cfg → Instance W → W × List Server × Bool → W × Option (Instance W)
  with_servers cfg inst (w, list, false) = released (record inst { world = w; srv = list })
  with_servers cfg inst (w, list, true) =
      with_ssl_memory cfg (record inst { world = w; srv = list }) (lib.allocate w)

  unfoldable pub with_server_memory : Cfg → W × Bool → W × Option (Instance W)
  with_server_memory cfg (w, false) = released (blank_instance w)
  with_server_memory cfg (w, true) = with_servers cfg (blank_instance w) (new_servers cfg.srv w [])

  unfoldable pub with_instance : Cfg → W × Bool → W × Option (Instance W)
  with_instance cfg (w, false) = (w, none)
  with_instance cfg (w, true) = with_server_memory cfg (lib.allocate w)

  -- The allocations in their order: the instance, its servers, its contexts and its spool.
  unfoldable pub aisl_new : Cfg → W → W × Option (Instance W)
  aisl_new cfg w = with_instance cfg (lib.allocate w)
