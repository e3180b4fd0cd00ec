-- ===== src/Client/Depth.antt =====
-- How deep the calls of a handler stand in one another: aisl_raise_evt of src/instance.c and
-- aisl_client_close of src/client.c call each other.
use aisl.Prelude.{ℕ, suc, ◌≡◌, refl, sym, ap, ◌∙◌}
use aisl.Types.{Status, success, client_disconnect}
use aisl.Api.{Raised, plain, Reply, Program, stop, inspect, visit, call, reject, System, perform}
use aisl.Client.{Session, with_conn, hung_up, if_open, close_by, chosen, run, raise_within}

-- A program that does not close its client.
abbrev pub NoReject : {W : Type 0} → Program W → Type 0
NoReject stop = Unit {0}
NoReject (inspect k) = (c : _) → NoReject (k c)
NoReject (visit f k) = (w : _) → NoReject (k w)
NoReject (call c k) = (r : Reply) → NoReject (k r)
NoReject (reject p) = ⊥

module _ {W : Type 0} (sys : System W) where
  -- The handler does not close the client within CLIENT_DISCONNECT.
  abbrev pub IsPolite : Type 0
  IsPolite = (st : Status) (s : Session W) → NoReject (chosen sys (plain client_disconnect st) s).1

  -- Such a program changes the stream and the world only.
  pub run-NoReject :
      (p : Program W) (d : ℕ) (s : Session W)
      → NoReject p
      → ((run sys p d s).log ≡ s.log)
        × ((run sys p d s).client ≡ record s.client { conn = (run sys p d s).client.conn })
        × (run sys p d s ≡ run sys p 0 s)
  unfolding run
  run-NoReject stop d s h = (refl, refl, refl)
  run-NoReject (inspect k) d s h = run-NoReject (k s.client.conn) d s (h s.client.conn)
  run-NoReject (visit f k) d s h =
      run-NoReject (k s.world) d (record s { world = f s.world }) (h s.world)
  run-NoReject (call c k) d s h =
      let (w, conn, reply) = perform sys.alloc c s.world s.client.conn in
      run-NoReject (k reply) d (record (with_conn s conn) { world = w }) (h reply)
  run-NoReject (reject p) d s h = absurd h

  raise_within_same :
      (d e : ℕ) (st : Status) (s : Session W)
      → IsPolite
      → raise_within sys d (plain client_disconnect st) s
        ≡ raise_within sys e (plain client_disconnect st) s
  unfolding raise_within
  raise_within_same d e st s polite =
      let (s', p) = chosen sys (plain client_disconnect st) s in
      (run-NoReject p d s' (polite st s)).2 ∙ sym ((run-NoReject p e s' (polite st s)).2)

  close_by_same :
      (f g : Raised → Session W → Session W) (st : Status) (s : Session W)
      → f (plain client_disconnect st) s ≡ g (plain client_disconnect st) s
      → close_by f st s ≡ close_by g st s
  unfolding close_by
  close_by_same f g st s h = ap (λ t. if_open s.client.fd (hung_up t) s) h

  -- One call of the handler within another is enough, as long as the handler does not close the
  -- client when it is told of the closing: with any greater depth the calls of a program do the
  -- same.
  pub run_depth :
      (p : Program W) (d : ℕ) (s : Session W) → IsPolite → run sys p (suc d) s ≡ run sys p 1 s
  unfolding run raise_within
  run_depth stop d s polite = refl
  run_depth (inspect k) d s polite = run_depth (k s.client.conn) d s polite
  run_depth (visit f k) d s polite = run_depth (k s.world) d (record s { world = f s.world }) polite
  run_depth (call c k) d s polite =
      let (w, conn, reply) = perform sys.alloc c s.world s.client.conn in
      run_depth (k reply) d (record (with_conn s conn) { world = w }) polite
  run_depth (reject p) d s polite =
      run_depth p d (close_by (raise_within sys d) success s) polite
      ∙ ap (run sys p 1) (
          close_by_same (raise_within sys d) (raise_within sys 0) success s
            (raise_within_same d 0 success s polite))
