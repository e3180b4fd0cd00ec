-- ===== src/Client/Stamps.antt =====
-- The timestamp of a client of src/client.c under the calls of its handlers.
use aisl.Prelude.{
  ℕ, zero, suc, ◌≡◌, refl, ◌∙◌, Option, none, some, Bool, true, false, if◌then◌else◌,
}
use aisl.Types.{success, client_disconnect, stream_output}
use aisl.Api.{Raised, plain, Program, stop, inspect, visit, call, reject, System, perform}
use aisl.Client.{
  Session, with_conn, hung_up, if_open, close_by, chosen_by, chosen, run, raise_within, raise,
}
use aisl.Client.Touch.{asked_for_output}

-- The time of the last success.
abbrev pub stamp : {W : Type 0} → Session W → ℕ
stamp s = s.client.timestamp

if_open-stamp :
    {W : Type 0} (fd : Option ℕ) (s t : Session W)
    → stamp t ≡ stamp s
    → stamp (if_open fd (hung_up t) s) ≡ stamp s
if_open-stamp none s t h = refl
if_open-stamp (some n) s t h = h

chosen_by-stamp :
    {W : Type 0} (f : Option (Raised → Program W)) (e : Raised) (s : Session W)
    → stamp (chosen_by f e s).0 ≡ stamp s
chosen_by-stamp none e s = refl
chosen_by-stamp (some f) e s = refl

stamp-if :
    {W : Type 0} (test : Bool) (s a b : Session W)
    → stamp a ≡ stamp s
    → stamp b ≡ stamp s
    → stamp (if test then a else b) ≡ stamp s
stamp-if true s a b h g = h
stamp-if false s a b h g = g

module _ {W : Type 0} (sys : System W) where
  run-stamp : (p : Program W) (d : ℕ) (s : Session W) → stamp (run sys p d s) ≡ stamp s
  unfolding run close_by chosen
  run-stamp stop d s = refl
  run-stamp (inspect k) d s = run-stamp (k s.client.conn) d s
  run-stamp (visit f k) d s = run-stamp (k s.world) d (record s { world = f s.world })
  run-stamp (call c k) d s =
      let (w, conn, reply) = perform sys.alloc c s.world s.client.conn in
      run-stamp (k reply) d (record (with_conn s conn) { world = w })
  run-stamp (reject p) zero s = run-stamp p zero s
  run-stamp (reject p) (suc d) s =
      let (t, q) = chosen sys (plain client_disconnect success) s in
      let u = run sys q d t in
      run-stamp p (suc d) (if_open s.client.fd (hung_up u) s)
      ∙ if_open-stamp s.client.fd s u
          (run-stamp q d t ∙ chosen_by-stamp sys.callback (plain client_disconnect success) s)

  raise-stamp : (e : Raised) (s : Session W) → stamp (raise sys e s) ≡ stamp s
  unfolding raise raise_within chosen
  raise-stamp e s =
      let (t, p) = chosen sys e s in run-stamp p 2 t ∙ chosen_by-stamp sys.callback e s

  pub asked_for_output-stamp : (s : Session W) → stamp (asked_for_output sys s) ≡ stamp s
  unfolding asked_for_output
  asked_for_output-stamp s =
      stamp-if _ s (raise sys (plain stream_output success) s) s
        (raise-stamp (plain stream_output success) s) refl
