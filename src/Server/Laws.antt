-- ===== src/Server/Laws.antt =====
-- What a touch of a server of src/server.c leaves.
use aisl.Prelude.{
  ℕ, ◌+◌, ◌≡◌, ◌≤◌, refl, Bool-cases, arith, Option, none, some, List, ◌∷◌, ◌⊎◌, inl, inr, Bool,
  true, false,
}
use aisl.Types.{Status, success, syscall_error, malloc_error, server_ready, server_error}
use aisl.Api.{Raised, plain, System}
use aisl.Ssl.{OpenSsl, Ssl}
use aisl.Client.{Client}
use aisl.Client.Depth.{IsPolite}
use aisl.Client.Keeps.{disconnects}
use aisl.Client.New.{Made, aisl_client_new, with_memory}
use aisl.Client.New.Laws.{IsWaiting, Answered, aisl_client_new-Answered}
use aisl.Client.Touch.{is_success, is_idle}
use aisl.Server.{
  Net, Accepted, connection, nobody, failing, Server, Touched, listened, bound, opened,
  aisl_server_open, announced, constructed, nonblocking, flagged, on_accepted, aisl_server_accept,
  aisl_server_touch, touched_at,
}

-- A server that is touched before it listens: it listens and says so, or it says that it cannot.
abbrev pub Opens : {W : Type 0} → List Raised → Server → Touched W → Type 0
Opens log server t =
    ((fd : ℕ) × (t.server ≡ record server { fd = some fd })
      × (t.status ≡ success)
      × (t.log ≡ plain server_ready success ∷ log)
      × (t.accepted ≡ none))
    ⊎ ((t.server ≡ server)
        × (t.status ≡ syscall_error)
        × (t.log ≡ plain server_error syscall_error ∷ log)
        × (t.accepted ≡ none))

-- A server that listens: a client that waits for its first request, or none; only a client that
-- could not be made may raise an event.
abbrev pub Accepts : List Raised → Bool → List Raised → Option Client → Status → Type 0
Accepts log secure log' (some c) status =
    (status ≡ success) × (log' ≡ log) × ((fd : ℕ) × IsWaiting c secure fd)
Accepts log secure log' none success = ⊥
Accepts log secure log' none malloc_error = disconnects log' ≤ disconnects log + 1
Accepts log secure log' none _ = log' ≡ log

abbrev pub Tried : {W : Type 0} → List Raised → Bool → ℕ → Made W → Type 0
Tried log secure fd (w, log', some c) = (log' ≡ log) × IsWaiting c secure fd
Tried log secure fd (w, log', none) = disconnects log' ≤ disconnects log + 1

Answered-Tried :
    {W : Type 0} (log : List Raised) (secure : Bool) (fd : ℕ) (r : Made W)
    → Answered log secure fd r
    → Tried log secure fd r
Answered-Tried log secure fd (w, log', some c) h = h
Answered-Tried log secure fd (w, log', none) h = omega (arith, h)

abbrev pub Kept : {W : Type 0} → List Raised → Server → Touched W → Type 0
Kept log server t = (t.server ≡ server) × Accepts log server.secure t.log t.accepted t.status

abbrev pub Served : {W : Type 0} → Option ℕ → List Raised → Server → Touched W → Type 0
Served none log server t = Opens log server t
Served (some fd) log server t = Kept log server t

module _ {W : Type 0} (net : Net W) (sys : System W) (lib : OpenSsl W) (ssl : List Ssl) where
  announced-Opens :
      (log : List Raised) (w : W) (server : Server)
      → Opens log server (announced net sys lib ssl log (w, server, syscall_error))
  unfolding announced is_success is_idle
  announced-Opens log w server = inr (refl, refl, refl, refl)

  listened-Opens :
      (log : List Raised) (server : Server) (fd : ℕ) (r : W × Bool)
      → Opens log server (announced net sys lib ssl log (listened net server fd r))
  unfolding announced listened is_success is_idle
  listened-Opens log server fd (w, true) = inl (fd, refl, refl, refl, refl)
  listened-Opens log server fd (w, false) = announced-Opens log (net.close w fd) server

  bound-Opens :
      (log : List Raised) (server : Server) (fd : ℕ) (r : W × Bool)
      → Opens log server (announced net sys lib ssl log (bound net server fd r))
  unfolding bound
  bound-Opens log server fd (w, true) = listened-Opens log server fd (net.listen w fd)
  bound-Opens log server fd (w, false) = announced-Opens log (net.close w fd) server

  opened-Opens :
      (log : List Raised) (server : Server) (r : W × Option ℕ)
      → Opens log server (announced net sys lib ssl log (opened net server r))
  unfolding opened
  opened-Opens log server (w, none) = announced-Opens log w server
  opened-Opens log server (w, some fd) = bound-Opens log server fd (net.bind w fd)

  module _ (polite : IsPolite sys) where
    aisl_client_new-Tried :
        (w : W) (log : List Raised) (secure : Bool) (fd : ℕ)
        → Tried log secure fd (aisl_client_new sys lib ssl w log secure fd)
    aisl_client_new-Tried w log secure fd = elim (Bool-cases (lib.allocate w).1) [
      | inl e ↦
          Answered-Tried log secure fd (aisl_client_new sys lib ssl w log secure fd)
            (aisl_client_new-Answered sys lib ssl polite w log secure fd e)
      | inr e ↦ unfold aisl_client_new with_memory in rw e (omega arith)
    ]

    constructed-Kept :
        (log : List Raised) (server : Server) (fd : ℕ) (r : Made W)
        → Tried log server.secure fd r
        → Kept log server (constructed net sys lib ssl server r)
    unfolding constructed
    constructed-Kept log server fd (w, log', some c) (same, h) = (refl, (refl, same, (fd, h)))
    constructed-Kept log server fd (w, log', none) h = (refl, h)

    nonblocking-Kept :
        (log : List Raised) (server : Server) (fd : ℕ) (r : W × Bool)
        → Kept log server (nonblocking net sys lib ssl log server fd r)
    unfolding nonblocking
    nonblocking-Kept log server fd (w, true) =
        constructed-Kept log server fd _ (aisl_client_new-Tried w log server.secure fd)
    nonblocking-Kept log server fd (w, false) = (refl, refl)

    flagged-Kept :
        (log : List Raised) (server : Server) (fd : ℕ) (r : W × Option ℕ)
        → Kept log server (flagged net sys lib ssl log server fd r)
    unfolding flagged
    flagged-Kept log server fd (w, none) = (refl, refl)
    flagged-Kept log server fd (w, some flags) =
        nonblocking-Kept log server fd (net.set_nonblocking w fd flags)

    on_accepted-Kept :
        (log : List Raised) (server : Server) (r : W × Accepted)
        → Kept log server (on_accepted net sys lib ssl log server r)
    unfolding on_accepted
    on_accepted-Kept log server (w, connection fd) = flagged-Kept log server fd (net.get_flags w fd)
    on_accepted-Kept log server (w, nobody) = (refl, refl)
    on_accepted-Kept log server (w, failing) = (refl, refl)

    touched_at-Served :
        (w : W) (log : List Raised) (server : Server) (fd : Option ℕ)
        → Served fd log server (touched_at net sys lib ssl w log server fd)
    unfolding aisl_server_open aisl_server_accept
    touched_at-Served w log server none = opened-Opens log server (net.socket w)
    touched_at-Served w log server (some fd) = on_accepted-Kept log server (net.accept w fd)

    pub aisl_server_touch-Served :
        (w : W) (log : List Raised) (server : Server)
        → Served server.fd log server (aisl_server_touch net sys lib ssl w log server)
    unfolding aisl_server_touch
    aisl_server_touch-Served w log server = touched_at-Served w log server server.fd
