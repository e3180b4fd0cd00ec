-- ===== src/Client.antt =====
-- src/client.c, src/client.h: a connection with its input buffer and its stream; and aisl_raise_evt
-- of src/instance.c, by which it calls the user's handler. The build has AISL_WITH_SSL.
pub mod Body
pub mod Depth
pub mod Effects
pub mod Fields
pub mod InputKeeps
pub mod Keeps
pub mod Forward
pub mod Life
pub mod Lines
pub mod New
pub mod Opening
pub mod Outcome
pub mod Parse
pub mod Recursion
pub mod Request
pub mod Rounds
pub mod Sample
pub mod Sending
pub mod Stamps
pub mod ParseKeeps
pub mod Touch
mod Tests
pub mod TouchKeeps
use aisl.Prelude.{
  ℕ, zero, suc, ◌+◌, ◌-◌, Option, none, some, List, [], ◌∷◌, Bool, true, false, Bytes,
}
use aisl.Types.{Status, success, client_disconnect}
use aisl.Buffer.{Buffer}
use aisl.Stream.{Conn}
use aisl.Api.{Raised, plain, Program, stop, inspect, visit, call, reject, System, perform}

-- `struct aisl_client` without the pointer to its server and the address. `conn` is the stream with
-- `http_version` and the keep-alive flag; `fd` is `none` for -1; `secure` is whether `ssl` is set,
-- `has_stream` whether `stream` is. `out`, a copy of `in` that nothing reads, is left out.
pub record Client : Type 0 where
  pub conn : Conn
  pub input : Buffer
  pub secure : Bool
  pub has_stream : Bool
  pub fd : Option ℕ
  pub next_id : ℕ
  pub timestamp : ℕ
  pub handshake : Bool
  pub can_read : Bool
  pub can_write : Bool

-- A client in its world, with the events raised so far, the newest first.
pub record Session (W : Type 0) : Type 0 where
  pub world : W
  pub client : Client
  pub log : List Raised

abbrev pub with_client : {W : Type 0} → Session W → Client → Session W
with_client s c = record s { client = c }

abbrev pub with_conn : {W : Type 0} → Session W → Conn → Session W
with_conn s c = with_client s (record s.client { conn = c })

abbrev pub aisl_client_is_secure : Client → Bool
aisl_client_is_secure c = c.secure

abbrev pub aisl_client_get_socket : Client → Option ℕ
aisl_client_get_socket c = c.fd

unfoldable pub aisl_client_is_online : Client → Bool
aisl_client_is_online c = elim c.fd [ none ↦ false | some _ ↦ true ]

-- `if (client->fd != -1)`
abbrev pub if_open : {A : Type 0} → Option ℕ → A → A → A
if_open none x y = y
if_open (some _) x y = x

-- `close(fd)`, `shutdown` and `fd = -1`
abbrev pub hung_up : {W : Type 0} → Session W → Session W
hung_up s = with_client s (record s.client { fd = none })

-- `aisl_client_close` with a function that raises the event.
unfoldable pub close_by :
    {W : Type 0} → (Raised → Session W → Session W) → Status → Session W → Session W
close_by raise st s = if_open s.client.fd (hung_up (raise (plain client_disconnect st) s)) s

-- The program that the handler chooses, if there is a handler.
abbrev pub chosen_by :
    {W : Type 0} → Option (Raised → Program W) → Raised → Session W → Session W × Program W
chosen_by none e s = (record s { log = e ∷ s.log }, stop)
chosen_by (some f) e s = (record s { log = e ∷ s.log }, f e)

module _ {W : Type 0} (sys : System W) where
  unfoldable pub chosen : Raised → Session W → Session W × Program W
  chosen = chosen_by sys.callback

  -- The calls of a program. A handler that closes the client raises CLIENT_DISCONNECT within its
  -- own event; the number says how deep such calls may stand in one another. Where it is used up,
  -- the closing is left out: for a handler that does not close the client within CLIENT_DISCONNECT
  -- that never happens from depth 1 on (`run_depth` of Client/Depth); one that does recurses in the
  -- source without bound, and `run` gives only the first calls of it (Client/Recursion).
  unfoldable pub run : Program W → ℕ → Session W → Session W
  run stop d s = s
  run (inspect k) d s = run (k s.client.conn) d s
  run (visit f k) d s = run (k s.world) d (record s { world = f s.world })
  run (call c k) d s =
      let (w, conn, reply) = perform sys.alloc c s.world s.client.conn in
      run (k reply) d (record (with_conn s conn) { world = w })
  run (reject p) zero s = run p zero s
  run (reject p) (suc d) s =
      run p (suc d) (close_by (λ e s. let (s', q) = chosen e s in run q d s') success s)

  -- `aisl_raise_evt`, and `aisl_raise`, with calls of handlers at most `d` deep.
  unfoldable pub raise_within : ℕ → Raised → Session W → Session W
  raise_within d e s = let (s', p) = chosen e s in run p d s'

  unfoldable pub raise : Raised → Session W → Session W
  raise = raise_within 2

  unfoldable pub aisl_client_close : Status → Session W → Session W
  aisl_client_close = close_by raise

  -- Called by a handler, this is `reject` of a program.
  abbrev pub aisl_client_disconnect : Session W → Session W
  aisl_client_disconnect = aisl_client_close success
