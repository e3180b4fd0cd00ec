-- ===== src/Client/New/Laws.antt =====
-- What aisl_client_new of src/client.c answers.
use aisl.Prelude.{
  ℕ, ◌+◌, ◌≡◌, refl, ap, Option, none, some, List, [], Bool, true, false, Bytes, length, arith,
}
use aisl.Buffer.{Buffer, null, resized, initialized, buffer_set_size, buffer_init, round_size}
use aisl.Buffer.Grow.{IsValid}
use aisl.Stream.{state_idle, aisl_stream_new, aisl_stream_reset}
use aisl.Api.{Raised, System}
use aisl.Ssl.{OpenSsl, Ssl}
use aisl.Client.{Client, Session}
use aisl.Client.Depth.{IsPolite}
use aisl.Client.Keeps.{disconnects, open_count}
use aisl.Client.Life.{aisl_client_free-closes}
use aisl.Client.New.{
  blank_client, Made, given_up, with_ssl, secured, with_first_stream, with_input, with_memory,
  aisl_client_new,
}
use aisl.Client.Touch.{with_world}
use aisl.Client.TouchKeeps.{aisl_client_free-Keeps}

-- A client that waits for its first request: online, its input buffer empty and of 32768 bytes.
pub record IsWaiting (c : Client) (secure : Bool) (fd : ℕ) : Type 0 where
  pub online : c.fd ≡ some fd
  pub valid : IsValid c.input
  pub sized : c.input.size ≡ 32768
  pub empty : c.input.used ≡ 0
  pub idle : c.conn.stream.state ≡ state_idle
  pub streaming : c.has_stream ≡ true
  pub reads : c.can_read ≡ true
  pub silent : c.can_write ≡ false
  pub tls : c.secure ≡ secure
  pub handshook : c.handshake ≡ true

-- A construction that began with the events `log`.
abbrev pub Answered : {W : Type 0} → List Raised → Bool → ℕ → Made W → Type 0
Answered log secure fd (w, log', some c) = (log' ≡ log) × IsWaiting c secure fd
Answered log secure fd (w, log', none) = disconnects log' ≡ disconnects log + 1

abbrev pub Fresh : {W : Type 0} → W × Buffer × Option ℕ → Type 0
Fresh (w, b, none) = Unit {0}
Fresh (w, b, some n) = IsValid b × (b.size ≡ 32768) × (b.used ≡ 0)

module _ {W : Type 0} (sys : System W) where
  resized-Fresh :
      (r : W × Option Bytes)
      → ((new : Bytes) → r.1 ≡ some new → length new ≡ 32768)
      → Fresh (initialized sys.alloc (resized sys.alloc null 32768 r))
  unfolding initialized resized
  resized-Fresh (w, none) h = tt
  resized-Fresh (w, some mem) h = (record { sized = h mem refl; fits = omega arith }, refl, refl)

  buffer_init-Fresh : (w : W) → Fresh (buffer_init sys.alloc w null 32768)
  unfolding buffer_init buffer_set_size round_size
  buffer_init-Fresh w =
      resized-Fresh (sys.alloc.realloc w [] 32768) (sys.alloc.realloc_length w [] 32768)

module _ {W : Type 0} (sys : System W) (lib : OpenSsl W) (ssl : List Ssl)
    (polite : IsPolite sys) where
  given_up-Answered :
      (log : List Raised) (secure : Bool) (fd : ℕ) (s : Session W)
      → s.log ≡ log
      → s.client.fd ≡ some fd
      → Answered log secure fd (given_up sys lib ssl s)
  unfolding given_up
  given_up-Answered log secure fd s same online = omega (
    arith,
    (aisl_client_free-Keeps sys polite s).balanced,
    ap open_count (aisl_client_free-closes sys polite s),
    ap open_count online,
    ap disconnects same,
  )

  with_ssl-Answered :
      (log : List Raised) (fd : ℕ) (s : Session W) (r : W × Bool)
      → s.log ≡ log
      → IsWaiting s.client false fd
      → Answered log true fd (with_ssl sys lib ssl s r)
  unfolding with_ssl
  with_ssl-Answered log fd s (w, true) same h = (
    same,
    record {
      online = h.online;
      valid = h.valid;
      sized = h.sized;
      empty = h.empty;
      idle = h.idle;
      streaming = h.streaming;
      reads = h.reads;
      silent = h.silent;
      tls = refl;
      handshook = h.handshook;
    },
  )
  with_ssl-Answered log fd s (w, false) same h =
      given_up-Answered log true fd (with_world s w) same h.online

  secured-Answered :
      (log : List Raised) (secure : Bool) (fd : ℕ) (s : Session W)
      → s.log ≡ log
      → IsWaiting s.client false fd
      → Answered log secure fd (secured sys lib ssl secure s)
  unfolding secured
  secured-Answered log true fd s same h = with_ssl-Answered log fd s _ same h
  secured-Answered log false fd s same h = (same, h)

  with_first_stream-Answered :
      (log : List Raised) (secure : Bool) (fd now : ℕ) (b : Buffer) (s : Session W) (r : W × Bool)
      → s.log ≡ log
      → s.client ≡ record (blank_client fd now) { input = b }
      → IsValid b × (b.size ≡ 32768) × (b.used ≡ 0)
      → Answered log secure fd (with_first_stream sys lib ssl secure s r)
  unfolding with_first_stream aisl_stream_new aisl_stream_reset
  with_first_stream-Answered log secure fd now b s (w, true) same made (v, size, used) =
      secured-Answered log secure fd _ same (
        rw made (record {
          online = refl;
          valid = v;
          sized = size;
          empty = used;
          idle = refl;
          streaming = refl;
          reads = refl;
          silent = refl;
          tls = refl;
          handshook = refl;
        }))
  with_first_stream-Answered log secure fd now b s (w, false) same made h =
      given_up-Answered log secure fd (with_world s w) same (ap (λ c. c.fd) made)

  with_input-Answered :
      (log : List Raised) (secure : Bool) (fd now : ℕ) (s : Session W) (r : W × Buffer × Option ℕ)
      → s.log ≡ log
      → s.client ≡ blank_client fd now
      → Fresh r
      → Answered log secure fd (with_input sys lib ssl secure s r)
  unfolding with_input
  with_input-Answered log secure fd now s (w, b, none) same made h =
      given_up-Answered log secure fd _ same (ap (λ c. c.fd) made)
  with_input-Answered log secure fd now s (w, b, some n) same made h =
      with_first_stream-Answered log secure fd now b _ (sys.calloc_stream w) same
        (ap {A = Client} (λ c. record c { input = b }) made) h

  -- Where there is memory for the client itself, and with a handler that does not close the client
  -- within CLIENT_DISCONNECT, aisl_client_new gives a client that waits for its first request, and
  -- raises nothing, or else it raises CLIENT_DISCONNECT once and gives none.
  pub aisl_client_new-Answered :
      (w : W) (log : List Raised) (secure : Bool) (fd : ℕ)
      → (lib.allocate w).1 ≡ true
      → Answered log secure fd (aisl_client_new sys lib ssl w log secure fd)
  unfolding aisl_client_new with_memory
  aisl_client_new-Answered w log secure fd given = rw given (
      let (w1, now) = sys.time (lib.allocate w).0 in
      with_input-Answered log secure fd now _ _ refl refl (buffer_init-Fresh sys w1))
