-- ===== src/Client/Life.antt =====
-- The life of a client of src/client.c: touched again and again, and freed.
use aisl.Prelude.{ℕ, ◌+◌, ◌≡◌, ap, none, List, [], ◌∷◌, arith, false}
use aisl.Types.{success}
use aisl.Api.{System}
use aisl.Client.{Session, aisl_client_close}
use aisl.Client.Depth.{IsPolite}
use aisl.Client.Keeps.{Keeps, Keeps-refl, Keeps-trans, disconnects, open_count}
use aisl.Client.Outcome.{aisl_client_close-closes}
use aisl.Client.InputKeeps.{Keeps-if}
use aisl.Client.TouchKeeps.{aisl_client_touch-Keeps, aisl_client_free-Keeps, stream_freed-Keeps}
use aisl.Client.Touch.{aisl_client_touch, aisl_client_free}

-- The touches of `aisl_run_cycle`, one for each timeout in the list.
unfoldable pub touches : {W : Type 0} → System W → List ℕ → Session W → Session W
touches sys [] s = s
touches sys (t ∷ ts) s = touches sys ts (aisl_client_touch sys t s).0

module _ {W : Type 0} (sys : System W) (polite : IsPolite sys) where
  touches-Keeps : (ts : List ℕ) (s : Session W) → Keeps s (touches sys ts s)
  unfolding touches
  touches-Keeps [] s = Keeps-refl s
  touches-Keeps (t ∷ ts) s =
      let u = (aisl_client_touch sys t s).0 in
      Keeps-trans s u (touches sys ts u) (aisl_client_touch-Keeps sys polite t s)
        (touches-Keeps ts u)

  pub aisl_client_free-closes : (s : Session W) → (aisl_client_free sys s).client.fd ≡ none
  unfolding aisl_client_free
  aisl_client_free-closes s =
      let t = aisl_client_close sys success s in
      (Keeps-if t.client.has_stream t _ _ (stream_freed-Keeps sys polite t) (Keeps-refl t)).closed
        (aisl_client_close-closes sys success s)

  -- A client whose handler does not close it within CLIENT_DISCONNECT, however often it is touched:
  -- from any state to the end of aisl_client_free, CLIENT_DISCONNECT is raised once if the client
  -- was online, and not at all if it was offline.
  pub client_life :
      (ts : List ℕ) (s : Session W)
      → disconnects (aisl_client_free sys (touches sys ts s)).log
        ≡ disconnects s.log + open_count s.client.fd
  client_life ts s =
      let t = touches sys ts s in
      let k = Keeps-trans s t _ (touches-Keeps ts s) (aisl_client_free-Keeps sys polite t) in
      omega (arith, k.balanced, ap open_count (aisl_client_free-closes t))

  -- A client that has stopped to read stays so, however often it is touched.
  pub touches-deaf :
      (ts : List ℕ) (s : Session W)
      → s.client.can_read ≡ false
      → (touches sys ts s).client.can_read ≡ false
  touches-deaf ts s = (touches-Keeps ts s).deaf
