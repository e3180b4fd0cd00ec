-- ===== src/Instance/Tests.antt =====
-- A concrete instance, and the theorems about src/instance.c and src/server.c at it.
use aisl.Prelude.{ℕ, ◌+◌, ◌≡◌, refl, none, some, [], ◌∷◌, false, replicate, arith, length}
use aisl.Types.{idle}
use aisl.Client.{Client, aisl_client_is_online}
use aisl.Client.Keeps.{disconnects}
use aisl.Client.Sample.{connected, greeting, greeting-IsPolite}
use aisl.Instance.Sample.{shelf, busy}
use aisl.Instance.{Instance, Cycle, touch_clients, aisl_run_cycle}
use aisl.Instance.Invariant.{IsRunning, aisl_run_cycle-IsRunning}
use aisl.Instance.Running.{IsServed, AllServed, touch_clients-Passes}
use aisl.Instance.Sweep.{Does, sweep, touch_clients-sweep}
use aisl.Instance.Sleep.{Waiter, readable, selected, aisl_sleep}
use aisl.Instance.Waits.{IsGreatest, aisl_sleep-Waits}
use aisl.Instance.New.{Cfg}
use aisl.Spool.{PtrList}
use aisl.Spool.Laws.{IsValid as IsSpool, entries}
use aisl.Ssl.Tests.{willing}

-- Two clients of a spool with room for one more.
abbrev two : PtrList Client
two = record { slots = connected ∷ connected ∷ connected ∷ []; size = 3; count = 2 }

two-IsSpool : IsSpool two
two-IsSpool = record { sized = refl; fits = omega arith }

connected-IsServed : IsServed connected
unfolding aisl_client_is_online
connected-IsServed = record {
  online = refl;
  sound = record { sized = refl; fits = omega arith };
  handshook = refl;
}

abbrev started : Cycle ℕ
started = record { world = 0; log = []; spool = two }

abbrev site : Instance ℕ
site = record {
  world = 0;
  log = [];
  srv = record { secure = false; fd = some 3 } ∷ [];
  ssl = [];
  client_spool = two;
  silence_timeout = 10;
}

touch_clients-sweep_example :
    Does greeting []
      (sweep greeting 10 false (connected ∷ connected ∷ []) 0 [] idle)
      (touch_clients greeting 10 2 0 started idle)
touch_clients-sweep_example = touch_clients-sweep greeting 10 started idle two-IsSpool

touch_clients-Passes_example :
    let (cy', answer) = touch_clients greeting 10 2 0 started idle in
    AllServed (entries cy'.spool) × (disconnects cy'.log + cy'.spool.count ≡ 2)
touch_clients-Passes_example =
    touch_clients-Passes greeting greeting-IsPolite 10 started idle two-IsSpool
      (connected-IsServed, (connected-IsServed, tt))

aisl_run_cycle-IsRunning_example :
    IsRunning (aisl_run_cycle greeting shelf busy willing site).0.client_spool
aisl_run_cycle-IsRunning_example =
    aisl_run_cycle-IsRunning greeting shelf busy willing greeting-IsPolite site
      (two-IsSpool, (connected-IsServed, (connected-IsServed, tt)))

abbrev config : Cfg
config = record {
  srv = record { secure = false } ∷ [];
  ssl = [];
  client_spool_size = 2;
  client_silence_timeout = 10;
}

-- `site` as it is at first.
abbrev new_site : Instance ℕ
new_site = record site {
  srv = record { secure = false; fd = none } ∷ [];
  client_spool = record { slots = replicate 2 connected; size = 2; count = 0 };
}

-- A set of four descriptors, and a clock that counts the descriptors that it waits for.
abbrev short_set : Waiter ℕ
short_set = record { fd_setsize = 4; select = λ w n fds usec. (w + n + length fds, readable) }

aisl_sleep-Waits_example :
    (n : ℕ) × IsGreatest (3 ∷ 5 ∷ 5 ∷ [], n)
    × (aisl_sleep short_set site 500
        ≡ (record site { world = 0 + (n + 1) + 1 }, selected readable, 5 ∷ 5 ∷ []))
aisl_sleep-Waits_example = aisl_sleep-Waits short_set site 500
