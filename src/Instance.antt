-- ===== src/Instance.antt =====
-- src/instance.c: aisl_run_cycle over the servers and clients of an instance, and its release. The
-- events are raised in Client and Server, the TLS contexts are those of Ssl.
mod Tests
pub mod Invariant
pub mod Life
pub mod Main
pub mod New
pub mod Running
pub mod Sample
pub mod Sleep
pub mod Slots
pub mod Sweep
pub mod Waits
use aisl.Prelude.{
  ℕ, zero, suc, ◌+◌, Option, none, some, List, [], ◌∷◌, Bool, true, false, not, set, take,
  get_elem?, ltb, if◌then◌else◌,
}
use aisl.Types.{Status, success, idle}
use aisl.Api.{Raised, System}
use aisl.Client.{Client, Session, aisl_client_is_online}
use aisl.Client.Touch.{aisl_client_touch, aisl_client_free, is_idle}
use aisl.Server.{Net, Server, Touched, aisl_server_touch, aisl_server_free}
use aisl.Spool.{Pointers, PtrList, list_append, list_remove_index}
use aisl.Ssl.{OpenSsl, Ssl, aisl_ssl_free}

-- `struct aisl_instance` with its servers and contexts in front of their NULL, in its world. A
-- client is stored in the spool by value, since no other list has a pointer to it; the callback
-- is that of the System. The limit for clients, which nothing reads, is left out.
pub record Instance (W : Type 0) : Type 0 where
  pub world : W
  pub log : List Raised
  pub srv : List Server
  pub ssl : List Ssl
  pub client_spool : PtrList Client
  pub silence_timeout : ℕ

-- The part that a cycle changes besides the servers.
pub record Cycle (W : Type 0) : Type 0 where
  pub world : W
  pub log : List Raised
  pub spool : PtrList Client

-- `LIST_INDEX` under the test of the loop, `i < count`
unfoldable pub entry_at : {A : Type 0} → PtrList A → ℕ → Option A
entry_at l i = if ltb i l.count then get_elem? l.slots i else none

-- `!= AISL_IDLE` makes the result of the cycle a success.
abbrev pub or_success : Status → Status → Status
or_success status result = if not (is_idle status) then success else result

-- A round of the loop over the clients, where there is an entry; `go` goes on.
abbrev pub visited :
    {W : Type 0}
    → (Client → Cycle W × Status)
    → (Cycle W → Status → Cycle W × Status)
    → Option Client
    → Cycle W
    → Status
    → Cycle W × Status
visited touch go none cy result = (cy, result)
visited touch go (some c) cy result =
    let (cy', status) = touch c in go cy' (or_success status result)

-- How often `aisl_client_free` reads the server of the client, to find the instance: for
-- CLIENT_DISCONNECT, where the client is online, and for STREAM_CLOSE, where it has a stream.
unfoldable pub server_reads : Client → ℕ
server_reads c = (if aisl_client_is_online c then 1 else 0) + (if c.has_stream then 1 else 0)

module _ {W : Type 0} (sys : System W) where
  -- What is done with the client that stands at index `i`.
  unfoldable pub touch_client : ℕ → ℕ → Cycle W → Client → Cycle W × Status
  touch_client timeout i cy c =
      let (s, status) =
        aisl_client_touch sys timeout (record { world = cy.world; client = c; log = cy.log }) in
      let t = aisl_client_free sys s in
      (
        if aisl_client_is_online s.client
            then record {
              world = s.world;
              log = s.log;
              spool = record cy.spool { slots = set cy.spool.slots i s.client };
            }
            else record { world = t.world; log = t.log; spool = (list_remove_index cy.spool i).0 },
        status,
      )

  -- The loop over the clients from index `i` on, in at most the given number of rounds.
  unfoldable pub touch_clients : ℕ → ℕ → ℕ → Cycle W → Status → Cycle W × Status
  touch_clients timeout zero i cy result = (cy, result)
  touch_clients timeout (suc rounds) i cy result =
      visited (touch_client timeout i cy) (touch_clients timeout rounds (suc i))
        (entry_at cy.spool i) cy result

  -- The loop of `list_release`, with `aisl_client_free` as the destructor. The last result counts
  -- the reads of a server. In `aisl_free` each is one of memory that is freed, so that what the
  -- program does from the first one on is undefined; the world and the events are those of a
  -- machine on which the freed server is still found as it was.
  unfoldable pub free_clients : List Client → W × List Raised × ℕ → W × List Raised × ℕ
  unfolding server_reads
  free_clients [] (w, log, reads) = (w, log, reads)
  free_clients (c ∷ cs) (w, log, reads) =
      let s = aisl_client_free sys (record { world = w; client = c; log = log }) in
      free_clients cs (s.world, s.log, reads + server_reads c)

  module _ (pointers : Pointers W Client) (net : Net W) (lib : OpenSsl W) where
    -- A client that cannot be stored is freed.
    unfoldable pub stored_or_freed : List Raised → Client → W × PtrList Client × Option ℕ → Cycle W
    stored_or_freed log c (w, l, some n) = record { world = w; log = log; spool = l }
    stored_or_freed log c (w, l, none) =
        let s = aisl_client_free sys (record { world = w; client = c; log = log }) in
        record { world = s.world; log = s.log; spool = l }

    unfoldable pub admitted : PtrList Client → W → List Raised → Option Client → Cycle W
    admitted spool w log none = record { world = w; log = log; spool = spool }
    admitted spool w log (some c) = stored_or_freed log c (list_append pointers w spool c)

    -- The loop over the servers.
    unfoldable pub touch_servers :
        List Ssl → List Server → Cycle W → Status → List Server × Cycle W × Status
    touch_servers ssl [] cy result = ([], cy, result)
    touch_servers ssl (srv ∷ list) cy result =
        let t = aisl_server_touch net sys lib ssl cy.world cy.log srv in
        let (list', cy', result') =
          touch_servers ssl list (admitted cy.spool t.world t.log t.accepted)
            (or_success t.status result) in
        (t.server ∷ list', cy', result')

    unfoldable pub aisl_run_cycle : Instance W → Instance W × Status
    aisl_run_cycle inst =
        let (srv, cy, status) =
          touch_servers inst.ssl inst.srv
            (record { world = inst.world; log = inst.log; spool = inst.client_spool }) idle in
        let (cy', result) = touch_clients inst.silence_timeout cy.spool.count 0 cy status in
        (
          record inst { world = cy'.world; log = cy'.log; srv = srv; client_spool = cy'.spool },
          result,
        )

    unfoldable pub free_servers : List Server → W → W
    free_servers [] w = w
    free_servers (srv ∷ list) w = free_servers list (aisl_server_free net srv w)

    unfoldable pub free_ssl : List Ssl → W → W
    free_ssl [] w = w
    free_ssl (ssl ∷ list) w = free_ssl list (aisl_ssl_free lib ssl w)

    -- The world and the events that `aisl_free` leaves, as far as they are defined, and how often
    -- it reads a server that it has freed.
    unfoldable pub aisl_free : Instance W → W × List Raised × ℕ
    aisl_free inst =
        let clients = take inst.client_spool.count inst.client_spool.slots in
        let (w, log, reads) =
          free_clients clients (free_servers inst.srv inst.world, inst.log, 0) in
        (free_ssl inst.ssl w, log, reads)
