-- ===== src/Client/Forward.antt =====
-- A stream under all that a handler does with an event: src/stream.c, and aisl_client_close of
-- src/client.c.
use aisl.Prelude.{ℕ, zero, suc, ◌≤◌, Option, none, some, arith}
use aisl.Types.{success, client_disconnect}
use aisl.Stream.{rank}
use aisl.Stream.Order.{perform-From}
use aisl.Api.{Raised, plain, Program, stop, inspect, visit, call, reject, System, perform}
use aisl.Client.{
  Session, with_conn, hung_up, if_open, close_by, chosen_by, chosen, run, raise_within,
}

-- How far the stream of the client is.
abbrev pub stage : {W : Type 0} → Session W → ℕ
stage s = rank s.client.conn.stream.state

if_open-stage :
    {W : Type 0} (fd : Option ℕ) (s t : Session W)
    → stage s ≤ stage t
    → stage s ≤ stage (if_open fd (hung_up t) s)
if_open-stage none s t h = omega arith
if_open-stage (some n) s t h = h

chosen_by-stage :
    {W : Type 0} (f : Option (Raised → Program W)) (e : Raised) (s : Session W)
    → stage s ≤ stage (chosen_by f e s).0
chosen_by-stage none e s = omega arith
chosen_by-stage (some f) e s = omega arith

module _ {W : Type 0} (sys : System W) where
  run-stage : (p : Program W) (d : ℕ) (s : Session W) → stage s ≤ stage (run sys p d s)
  unfolding run close_by chosen
  run-stage stop d s = omega arith
  run-stage (inspect k) d s = run-stage (k s.client.conn) d s
  run-stage (visit f k) d s = run-stage (k s.world) d (record s { world = f s.world })
  run-stage (call c k) d s =
      let (w, conn, reply) = perform sys.alloc c s.world s.client.conn in
      omega (
        arith,
        perform-From sys.alloc c s.world s.client.conn,
        run-stage (k reply) d (record (with_conn s conn) { world = w }),
      )
  run-stage (reject p) zero s = run-stage p zero s
  run-stage (reject p) (suc d) s =
      let (t, q) = chosen sys (plain client_disconnect success) s in
      let u = run sys q d t in
      let first = chosen_by-stage sys.callback (plain client_disconnect success) s in
      let second = run-stage q d t in
      omega (
        arith,
        if_open-stage s.client.fd s u (omega (arith, first, second)),
        run-stage p (suc d) (if_open s.client.fd (hung_up u) s),
      )

  -- Whatever a handler does with an event, with aisl_response, aisl_header, aisl_header_printf,
  -- aisl_printf, aisl_write, aisl_puts, aisl_flush, aisl_set_output_event, aisl_set_context and
  -- aisl_reject in any order, with calls of the handler up to any depth in one another, the stream
  -- of the client is not in an earlier state afterwards.
  pub raise_within-stage :
      (d : ℕ) (e : Raised) (s : Session W) → stage s ≤ stage (raise_within sys d e s)
  unfolding raise_within chosen
  raise_within-stage d e s =
      let (t, p) = chosen sys e s in
      omega (arith, chosen_by-stage sys.callback e s, run-stage p d t)
