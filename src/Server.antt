-- ===== src/Server.antt =====
-- src/server.c, src/server.h: a listening socket, opened when it is first touched, and the clients
-- that it accepts. The socket calls are parameters.
pub mod Laws
use aisl.Prelude.{ℕ, ◌+◌, Option, none, some, List, ◌∷◌, Bool, true, false, not, if◌then◌else◌}
use aisl.Types.{Status, success, idle, syscall_error, malloc_error, server_ready, server_error}
use aisl.Api.{Raised, plain, Program, visit, System}
use aisl.Ssl.{OpenSsl, Ssl}
use aisl.Client.{Client}
use aisl.Client.New.{Made, aisl_client_new}
use aisl.Client.Touch.{is_success, is_idle}

-- How `accept` ends: a connection, nobody there, or an error.
pub data Accepted : Type 0 where
  connection : ℕ → Accepted
  nobody : Accepted
  failing : Accepted

-- The socket calls. `get_flags` is fcntl with F_GETFL, `set_nonblocking` with F_SETFL of the flags
-- and O_NONBLOCK; the result of setsockopt is not looked at, so that call is left out.
pub record Net (W : Type 0) : Type 0 where
  pub socket : W → W × Option ℕ
  pub bind : W → ℕ → W × Bool
  pub listen : W → ℕ → W × Bool
  pub accept : W → ℕ → W × Accepted
  pub get_flags : W → ℕ → W × Option ℕ
  pub set_nonblocking : W → ℕ → ℕ → W × Bool
  pub close : W → ℕ → W

-- `struct aisl_server` without the pointer to its instance and the address; `secure` is `ssl`.
pub record Server : Type 0 where
  pub secure : Bool
  pub fd : Option ℕ

-- What a touch leaves: the world, the events, the server, the new client and the answer.
pub record Touched (W : Type 0) : Type 0 where
  pub world : W
  pub log : List Raised
  pub server : Server
  pub accepted : Option Client
  pub status : Status

-- A program without a stream to call anything on: it can only visit the world.
unfoldable pub visits : {W : Type 0} → Program W → W → W
visits (visit f k) w = visits (k w) (f w)
visits _ w = w

-- The handler of an event of the server.
abbrev pub told : {W : Type 0} → Option (Raised → Program W) → Raised → W → W
told none e w = w
told (some f) e w = visits (f e) w

abbrev pub aisl_server_get_socket : Server → Option ℕ
aisl_server_get_socket server = server.fd

module _ {W : Type 0} (net : Net W) where
  unfoldable pub listened : Server → ℕ → W × Bool → W × Server × Status
  listened server fd (w, true) = (w, record server { fd = some fd }, success)
  listened server fd (w, false) = (net.close w fd, server, syscall_error)

  unfoldable pub bound : Server → ℕ → W × Bool → W × Server × Status
  bound server fd (w, true) = listened server fd (net.listen w fd)
  bound server fd (w, false) = (net.close w fd, server, syscall_error)

  unfoldable pub opened : Server → W × Option ℕ → W × Server × Status
  opened server (w, none) = (w, server, syscall_error)
  opened server (w, some fd) = bound server fd (net.bind w fd)

  unfoldable pub aisl_server_open : W → Server → W × Server × Status
  aisl_server_open w server = opened server (net.socket w)

  unfoldable pub aisl_server_free : Server → W → W
  aisl_server_free server w = elim server.fd [ none ↦ w | some fd ↦ net.close w fd ]

  module _ (sys : System W) (lib : OpenSsl W) (ssl : List Ssl) where
    -- `raise` of the event behind an attempt to open.
    unfoldable pub announced : List Raised → W × Server × Status → Touched W
    announced log (w, server, result) =
        let e = plain (if is_success result then server_ready else server_error) result in
        let loud = not (is_idle result) in
        record {
          world = if loud then told sys.callback e w else w;
          log = if loud then e ∷ log else log;
          server = server;
          accepted = none;
          status = result;
        }

    -- `*p_client`, and whether it is NULL
    unfoldable pub constructed : Server → Made W → Touched W
    constructed server (w, log, none) = record {
      world = w;
      log = log;
      server = server;
      accepted = none;
      status = malloc_error;
    }
    constructed server (w, log, some client) = record {
      world = w;
      log = log;
      server = server;
      accepted = some client;
      status = success;
    }

    abbrev pub unaccepted : List Raised → Server → Status → W → Touched W
    unaccepted log server status w = record {
      world = w;
      log = log;
      server = server;
      accepted = none;
      status = status;
    }

    unfoldable pub nonblocking : List Raised → Server → ℕ → W × Bool → Touched W
    nonblocking log server fd (w, true) =
        constructed server (aisl_client_new sys lib ssl w log server.secure fd)
    nonblocking log server fd (w, false) = unaccepted log server syscall_error (net.close w fd)

    unfoldable pub flagged : List Raised → Server → ℕ → W × Option ℕ → Touched W
    flagged log server fd (w, none) = unaccepted log server syscall_error (net.close w fd)
    flagged log server fd (w, some flags) =
        nonblocking log server fd (net.set_nonblocking w fd flags)

    unfoldable pub on_accepted : List Raised → Server → W × Accepted → Touched W
    on_accepted log server (w, connection fd) = flagged log server fd (net.get_flags w fd)
    on_accepted log server (w, nobody) = unaccepted log server idle w
    on_accepted log server (w, failing) = unaccepted log server syscall_error w

    unfoldable pub aisl_server_accept : W → List Raised → Server → ℕ → Touched W
    aisl_server_accept w log server fd = on_accepted log server (net.accept w fd)

    abbrev pub touched_at : W → List Raised → Server → Option ℕ → Touched W
    touched_at w log server none = announced log (aisl_server_open w server)
    touched_at w log server (some fd) = aisl_server_accept w log server fd

    unfoldable pub aisl_server_touch : W → List Raised → Server → Touched W
    aisl_server_touch w log server = touched_at w log server server.fd
