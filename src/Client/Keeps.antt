-- ===== src/Client/Keeps.antt =====
-- What every function of src/client.c keeps of a client: the closing is told once, a closed client
-- stays closed, and input that was given up is never taken up again.
use aisl.Prelude.{
  ℕ, zero, suc, ◌+◌, ◌≡◌, refl, sym, ap, ◌∙◌, Option, none, some, List, [], ◌∷◌, ◌++◌, append_assoc,
  arith, true, false,
}
use aisl.Types.{Status, success, client_disconnect}
use aisl.Stream.{Conn}
use aisl.Buffer.Grow.{IsValid}
use aisl.Api.{Raised, plain, Program, stop, inspect, visit, call, reject, System, perform}
use aisl.Client.{
  Client, Session, with_conn, hung_up, if_open, close_by, chosen_by, chosen, run, raise_within,
  raise, aisl_client_close,
}
use aisl.Client.Depth.{IsPolite, run-NoReject}

-- How often CLIENT_DISCONNECT was raised.
abbrev pub one_if_disconnect : Raised → ℕ
one_if_disconnect (plain client_disconnect _) = 1
one_if_disconnect _ = 0

abbrev pub disconnects : List Raised → ℕ
disconnects [] = 0
disconnects (e ∷ es) = one_if_disconnect e + disconnects es

abbrev pub open_count : Option ℕ → ℕ
open_count none = 0
open_count (some _) = 1

-- What holds between a session and a later one.
pub record Keeps {W : Type 0} (s t : Session W) : Type 0 where
  -- one event for each closing
  pub balanced :
      disconnects t.log + open_count t.client.fd ≡ disconnects s.log + open_count s.client.fd
  pub closed : s.client.fd ≡ none → t.client.fd ≡ none
  pub deaf : s.client.can_read ≡ false → t.client.can_read ≡ false
  pub handshook : s.client.handshake ≡ true → t.client.handshake ≡ true
  pub sound : IsValid s.client.input → IsValid t.client.input
  pub events : List Raised
  pub grown : t.log ≡ events ++ s.log

-- A change that raises nothing, neither opens nor closes, and takes no flag up again.
pub Keeps-update :
    {W : Type 0} (s t : Session W)
    → t.log ≡ s.log
    → t.client.fd ≡ s.client.fd
    → (s.client.can_read ≡ false → t.client.can_read ≡ false)
    → (s.client.handshake ≡ true → t.client.handshake ≡ true)
    → (IsValid s.client.input → IsValid t.client.input)
    → Keeps s t
Keeps-update s t log fd deaf handshook sound = record {
  balanced = omega (arith, ap disconnects log, ap open_count fd);
  closed = λ h. fd ∙ h;
  deaf = deaf;
  handshook = handshook;
  sound = sound;
  events = [];
  grown = log;
}

pub Keeps-refl : {W : Type 0} (s : Session W) → Keeps s s
Keeps-refl s = Keeps-update s s refl refl (λ h. h) (λ h. h) (λ v. v)

pub Keeps-trans : {W : Type 0} (s t u : Session W) → Keeps s t → Keeps t u → Keeps s u
Keeps-trans s t u h k = record {
  balanced = k.balanced ∙ h.balanced;
  closed = λ e. k.closed (h.closed e);
  deaf = λ e. k.deaf (h.deaf e);
  handshook = λ e. k.handshook (h.handshook e);
  sound = λ v. k.sound (h.sound v);
  events = k.events ++ h.events;
  grown = k.grown ∙ ap (λ es. k.events ++ es) h.grown ∙ sym (append_assoc k.events h.events s.log);
}

-- The stream and the world are free to change.
pub Keeps-conn :
    {W : Type 0} (s : Session W) (w : W) (c : Conn) → Keeps s (record (with_conn s c) { world = w })
Keeps-conn s w c =
    Keeps-update s (record (with_conn s c) { world = w }) refl refl (λ h. h) (λ h. h) (λ v. v)

chosen_by_lem :
    {W : Type 0} (f : Option (Raised → Program W)) (e : Raised) (s : Session W)
    → ((chosen_by f e s).0.client ≡ s.client) × ((chosen_by f e s).0.log ≡ e ∷ s.log)
chosen_by_lem none e s = (refl, refl)
chosen_by_lem (some f) e s = (refl, refl)

-- An event is raised that is not the closing.
logged-Keeps :
    {W : Type 0} (s t : Session W) (e : Raised)
    → one_if_disconnect e ≡ 0
    → t.client ≡ s.client
    → t.log ≡ e ∷ s.log
    → Keeps s t
logged-Keeps s t e h same log = record {
  balanced = omega (arith, h, ap disconnects log, ap (λ c. open_count c.fd) same);
  closed = λ h. ap (λ c. c.fd) same ∙ h;
  deaf = λ h. ap (λ c. c.can_read) same ∙ h;
  handshook = λ h. ap (λ c. c.handshake) same ∙ h;
  sound = λ v. rw same v;
  events = e ∷ [];
  grown = log;
}

-- The closing is raised, and then the client hangs up.
hung_up-Keeps :
    {W : Type 0} (s t : Session W) (st : Status) (fd : ℕ)
    → s.client.fd ≡ some fd
    → t.client ≡ record s.client { conn = t.client.conn }
    → t.log ≡ plain client_disconnect st ∷ s.log
    → Keeps s (hung_up t)
hung_up-Keeps s t st fd online same log = record {
  balanced = omega (arith, ap disconnects log, ap open_count online);
  closed = λ h. refl;
  deaf = λ h. ap (λ c. c.can_read) same ∙ h;
  handshook = λ h. ap (λ c. c.handshake) same ∙ h;
  sound = λ v. rw (ap (λ c. c.input) same) v;
  events = plain client_disconnect st ∷ [];
  grown = log;
}

if_open-Keeps :
    {W : Type 0} (fd : Option ℕ) (s t : Session W)
    → ((n : ℕ) → fd ≡ some n → Keeps s t)
    → Keeps s (if_open fd t s)
if_open-Keeps none s t h = Keeps-refl s
if_open-Keeps (some n) s t h = h n refl

module _ {W : Type 0} (sys : System W) (polite : IsPolite sys) where
  -- Where `raise` runs the handler, closing raises one event and hangs up.
  close_by-Keeps :
      (d : ℕ) (st : Status) (s : Session W) → Keeps s (close_by (raise_within sys d) st s)
  unfolding chosen close_by raise_within
  close_by-Keeps d st s =
      let e = plain client_disconnect st in
      let (t, p) = chosen sys e s in
      let (client, log) = chosen_by_lem sys.callback e s in
      let (log', client', _) = run-NoReject sys p d t (polite st s) in
      let u = run sys p d t in
      if_open-Keeps s.client.fd s (hung_up u) (λ n online.
        hung_up-Keeps s u st n online
          (client' ∙ ap {A = Client} (λ c. record c { conn = u.client.conn }) client) (log' ∙ log))

  chosen-Keeps : (e : Raised) (s : Session W) → one_if_disconnect e ≡ 0 → Keeps s (chosen sys e s).0
  unfolding chosen
  chosen-Keeps e s h =
      let (client, log) = chosen_by_lem sys.callback e s in
      logged-Keeps s (chosen sys e s).0 e h client log

  pub run-Keeps : (p : Program W) (d : ℕ) (s : Session W) → Keeps s (run sys p d s)
  unfolding run raise_within
  run-Keeps stop d s = Keeps-refl s
  run-Keeps (inspect k) d s = run-Keeps (k s.client.conn) d s
  run-Keeps (visit f k) d s =
      let t = record s { world = f s.world } in
      Keeps-trans s t (run sys (k s.world) d t)
        (Keeps-update s t refl refl (λ h. h) (λ h. h) (λ v. v)) (run-Keeps (k s.world) d t)
  run-Keeps (call c k) d s =
      let (w, conn, reply) = perform sys.alloc c s.world s.client.conn in
      let t = record (with_conn s conn) { world = w } in
      Keeps-trans s t (run sys (k reply) d t) (Keeps-conn s w conn) (run-Keeps (k reply) d t)
  run-Keeps (reject p) zero s = run-Keeps p zero s
  run-Keeps (reject p) (suc d) s =
      let t = close_by (raise_within sys d) success s in
      Keeps-trans s t (run sys p (suc d) t) (close_by-Keeps d success s) (run-Keeps p (suc d) t)

  -- Raising an event other than the closing, and closing.
  pub raise-Keeps : (e : Raised) (s : Session W) → one_if_disconnect e ≡ 0 → Keeps s (raise sys e s)
  unfolding raise raise_within
  raise-Keeps e s h =
      let (t, p) = chosen sys e s in
      Keeps-trans s t (run sys p 2 t) (chosen-Keeps e s h) (run-Keeps p 2 t)

  pub aisl_client_close-Keeps : (st : Status) (s : Session W) → Keeps s (aisl_client_close sys st s)
  unfolding aisl_client_close raise
  aisl_client_close-Keeps = close_by-Keeps 2
