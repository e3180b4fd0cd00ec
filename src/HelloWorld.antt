-- ===== src/HelloWorld.antt =====
-- examples/hello-world.c: a server that answers each request with one page.
pub mod Laws
mod Tests
use aisl.Prelude.{
  ℕ, Option, none, some, List, [], ◌∷◌, ◌++◌, Bytes, codes, Bool, true, false, if◌then◌else◌,
}
use aisl.Types.{EventCode, stream_request, aisl_event_to_string}
use aisl.Api.{Raised, event_code, Program, stop, visit, System}
use aisl.Handler.{page_served}
use aisl.Client.{Client}
use aisl.Server.{Net}
use aisl.Spool.{Pointers}
use aisl.Ssl.{OpenSsl}
use aisl.Instance.{Instance}
use aisl.Instance.New.{CfgSrv, Cfg, aisl_cfg_defaults, aisl_new}
use aisl.Instance.Sleep.{Waiter, entered}

abbrev pub hello_html : Bytes
hello_html =
    codes "<html><head><title>Hello World</title></head>"
    ++ codes "<body><h1>Hello World</h1><p>Powered by AISL</p></body></html>"

-- "Event: %s\n"
abbrev pub event_line : EventCode → Bytes
event_line code = codes "Event: " ++ (aisl_event_to_string code ++ codes "\n")

-- `evt->code != AISL_EVENT_STREAM_REQUEST`, negated
unfoldable pub is_request : EventCode → Bool
is_request stream_request = true
is_request _ = false

-- `m_srv` and `m_cfg`
abbrev pub m_srv : List CfgSrv
m_srv = record { secure = false } ∷ []

abbrev pub m_cfg : Cfg
m_cfg = aisl_cfg_defaults m_srv

-- `print` is what writing to stdout does to the world.
module _ {W : Type 0} (print : Bytes → W → W) where
  unfoldable pub hello_world : Raised → Program W
  hello_world evt =
      visit (print (event_line (event_code evt)))
        (λ _. if is_request (event_code evt) then page_served hello_html else stop)

-- `main` without what it prints, up to the given number of rounds of its loop, which has no end;
-- `none` where there is no instance.
module _ {W : Type 0} (print : Bytes → W → W) where
  -- the library with `m_cfg.callback`
  abbrev pub with_hello : System W → System W
  with_hello sys = record sys { callback = some (hello_world print) }

  unfoldable pub main :
      Waiter W → System W → Pointers W Client → Net W → OpenSsl W → ℕ → W → Option (Instance W)
  main waiter sys pointers net lib rounds w =
      entered (with_hello sys) pointers net lib waiter rounds
        (aisl_new (with_hello sys) pointers net lib m_cfg w)
