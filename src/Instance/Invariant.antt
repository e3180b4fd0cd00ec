-- ===== src/Instance/Invariant.antt =====
-- The spool of an instance of src/instance.c over a whole cycle.
use aisl.Prelude.{ℕ, ◌≡◌, ap, Option, none, some, List, [], ◌∷◌, Bool, true, false, inl, inr}
use aisl.Types.{Status, idle}
use aisl.Api.{Raised, System}
use aisl.Client.{Client, aisl_client_is_online}
use aisl.Client.Depth.{IsPolite}
use aisl.Client.New.Laws.{IsWaiting}
use aisl.Server.{Net, Server, Touched, aisl_server_touch}
use aisl.Server.Laws.{Served, Accepts, aisl_server_touch-Served}
use aisl.Spool.{Pointers, PtrList, list_append}
use aisl.Spool.Laws.{IsValid, entries, Appended, list_append-Appended}
use aisl.Ssl.{OpenSsl, Ssl}
use aisl.Instance.{
  Instance, Cycle, or_success, stored_or_freed, admitted, touch_servers, aisl_run_cycle,
}
use aisl.Instance.Running.{IsServed, AllServed, AllServed-append, touch_clients-Passes}
use aisl.Instance.Sweep.{touch_clients-sweep}

-- A well-formed spool of clients that are served.
abbrev pub IsRunning : PtrList Client → Type 0
IsRunning l = IsValid l × AllServed (entries l)

-- A client that a server accepted, if there is one, is served.
abbrev pub IsAccepted : Option Client → Type 0
IsAccepted none = Unit {0}
IsAccepted (some c) = IsServed c

online_some : (c : Client) (n : ℕ) → c.fd ≡ some n → aisl_client_is_online c ≡ true
unfolding aisl_client_is_online
online_some c n h = ap (λ fd. elim fd [ none ↦ false | some _ ↦ true ]) h

IsWaiting-IsServed : (c : Client) (secure : Bool) (fd : ℕ) → IsWaiting c secure fd → IsServed c
IsWaiting-IsServed c secure fd h = record {
  online = online_some c fd h.online;
  sound = h.valid;
  handshook = h.handshook;
}

Accepts-IsAccepted :
    (log log' : List Raised) (secure : Bool) (c : Option Client) (status : Status)
    → Accepts log secure log' c status
    → IsAccepted c
Accepts-IsAccepted log log' secure none status h = tt
Accepts-IsAccepted log log' secure (some c) status (_, _, (fd, h)) =
    IsWaiting-IsServed c secure fd h

Served-IsAccepted :
    {W : Type 0} (fd : Option ℕ) (log : List Raised) (server : Server) (t : Touched W)
    → Served fd log server t
    → IsAccepted t.accepted
Served-IsAccepted none log server t (inl (_, _, _, _, h)) = rw h tt
Served-IsAccepted none log server t (inr (_, _, _, h)) = rw h tt
Served-IsAccepted (some fd) log server t (_, h) =
    Accepts-IsAccepted log t.log server.secure t.accepted t.status h

module _ {W : Type 0} (sys : System W) (pointers : Pointers W Client) (net : Net W)
    (lib : OpenSsl W) (polite : IsPolite sys) where
  stored_or_freed-IsRunning :
      (log : List Raised) (c : Client) (l : PtrList Client) (r : W × PtrList Client × Option ℕ)
      → IsRunning l
      → IsServed c
      → Appended l c r
      → IsRunning (stored_or_freed sys pointers net lib log c r).spool
  unfolding stored_or_freed
  stored_or_freed-IsRunning log c l (w, l', some n) (v, h) g (_, v', e) =
      (v', rw e (AllServed-append (entries l) c h g))
  stored_or_freed-IsRunning log c l (w, l', none) h g e = rw e h

  admitted-IsRunning :
      (l : PtrList Client) (w : W) (log : List Raised) (c : Option Client)
      → IsRunning l
      → IsAccepted c
      → IsRunning (admitted sys pointers net lib l w log c).spool
  unfolding admitted
  admitted-IsRunning l w log none h g = h
  admitted-IsRunning l w log (some c) h g =
      stored_or_freed-IsRunning log c l (list_append pointers w l c) h g
        (list_append-Appended pointers w l c (h.0))

  touch_servers-IsRunning :
      (ssl : List Ssl) (srv : List Server) (cy : Cycle W) (result : Status)
      → IsRunning cy.spool
      → IsRunning (touch_servers sys pointers net lib ssl srv cy result).1.spool
  unfolding touch_servers
  touch_servers-IsRunning ssl [] cy result h = h
  touch_servers-IsRunning ssl (s ∷ list) cy result h =
      let t = aisl_server_touch net sys lib ssl cy.world cy.log s in
      let served = aisl_server_touch-Served net sys lib ssl polite cy.world cy.log s in
      touch_servers-IsRunning ssl list
        (admitted sys pointers net lib cy.spool t.world t.log t.accepted)
        (or_success t.status result)
        (admitted-IsRunning cy.spool t.world t.log t.accepted h
          (Served-IsAccepted s.fd cy.log s t served))

  -- A cycle, with a handler that does not close the client within CLIENT_DISCONNECT, keeps the
  -- spool well formed, and every client in it online, with a well-formed input buffer, and with its
  -- handshake flag still set, as it is from the start.
  pub aisl_run_cycle-IsRunning :
      (inst : Instance W)
      → IsRunning inst.client_spool
      → IsRunning (aisl_run_cycle sys pointers net lib inst).0.client_spool
  unfolding aisl_run_cycle
  aisl_run_cycle-IsRunning inst h =
      let start : Cycle W = record {
        world = inst.world;
        log = inst.log;
        spool = inst.client_spool;
      } in
      let (srv, cy, status) = touch_servers sys pointers net lib inst.ssl inst.srv start idle in
      let (v, served) = touch_servers-IsRunning inst.ssl inst.srv start idle h in
      (
        (touch_clients-sweep sys inst.silence_timeout cy status v).valid,
        (touch_clients-Passes sys polite inst.silence_timeout cy status v served).0,
      )
