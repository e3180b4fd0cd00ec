-- ===== src/Client/New.antt =====
-- aisl_client_new of src/client.c.
pub mod Laws
pub mod Secure
use aisl.Prelude.{ℕ, ◌*◌, Option, none, some, List, Bool, true, false}
use aisl.Types.{http_1_0, success}
use aisl.Buffer.{Buffer, null, buffer_init}
use aisl.Stream.{aisl_stream_new}
use aisl.Api.{Raised, System}
use aisl.Ssl.{OpenSsl, Ssl, aisl_get_ssl_ctx}
use aisl.Client.{Client, Session, with_client}
use aisl.Client.Touch.{with_world, aisl_client_free}

-- A client as the assignments behind `calloc` leave it. In place of the stream, which is NULL then,
-- it has one that `has_stream` says is not there.
abbrev pub blank_client : ℕ → ℕ → Client
blank_client fd now = record {
  conn = record { keepalive = true; http_version = http_1_0; stream = aisl_stream_new 0 };
  input = null;
  secure = false;
  has_stream = false;
  fd = some fd;
  next_id = 2;
  timestamp = now;
  handshake = true;
  can_read = true;
  can_write = false;
}

-- The world and the events behind a construction, and the client, if there is one.
abbrev pub Made : Type 0 → Type 0
Made W = W × List Raised × Option Client

abbrev pub finished : {W : Type 0} → Session W → Made W
finished s = (s.world, s.log, some s.client)

module _ {W : Type 0} (sys : System W) (lib : OpenSsl W) (ssl : List Ssl) where
  -- `aisl_client_free` in front of `return NULL`
  unfoldable pub given_up : Session W → Made W
  given_up s = let t = aisl_client_free sys s in (t.world, t.log, none)

  unfoldable pub with_ssl : Session W → W × Bool → Made W
  with_ssl s (w, true) =
      finished (record s { world = w; client = record s.client { secure = true } })
  with_ssl s (w, false) = given_up (with_world s w)

  unfoldable pub secured : Bool → Session W → Made W
  secured true s = with_ssl s (lib.ssl_new s.world (aisl_get_ssl_ctx ssl none))
  secured false s = finished s

  unfoldable pub with_first_stream : Bool → Session W → W × Bool → Made W
  with_first_stream secure s (w, true) =
      secured secure (record s { world = w; client = record s.client { has_stream = true } })
  with_first_stream secure s (w, false) = given_up (with_world s w)

  unfoldable pub with_input : Bool → Session W → W × Buffer × Option ℕ → Made W
  with_input secure s (w, b, none) =
      given_up (record s { world = w; client = record s.client { input = b } })
  with_input secure s (w, b, some n) =
      with_first_stream secure (record s { world = w; client = record s.client { input = b } })
        (sys.calloc_stream w)

  unfoldable pub with_memory : Bool → ℕ → List Raised → W × Bool → Made W
  with_memory secure fd log (w, false) = (w, log, none)
  with_memory secure fd log (w, true) =
      let (w', now) = sys.time w in
      with_input secure (record { world = w'; client = blank_client fd now; log = log })
        (buffer_init sys.alloc w' null (2 * (16 * 1024)))

  -- `secure` is `server->ssl`.
  unfoldable pub aisl_client_new : W → List Raised → Bool → ℕ → Made W
  aisl_client_new w log secure fd = with_memory secure fd log (lib.allocate w)
