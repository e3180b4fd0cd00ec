-- ===== src/Instance/Running.antt =====
-- The clients of an instance of src/instance.c over a cycle.
use aisl.Prelude.{
  ℕ, ◌+◌, ◌≡◌, refl, ap, Option, none, some, List, [], ◌∷◌, ◌++◌, length, Bool, true, false, arith,
  inl, inr, Bool-cases,
}
use aisl.Types.{Status}
use aisl.Buffer.Grow.{IsValid}
use aisl.Api.{Raised, System}
use aisl.Client.{Client, Session, aisl_client_is_online}
use aisl.Client.Depth.{IsPolite}
use aisl.Client.Keeps.{Keeps-trans, disconnects, open_count}
use aisl.Client.Life.{aisl_client_free-closes}
use aisl.Client.Touch.{aisl_client_touch, aisl_client_free}
use aisl.Client.TouchKeeps.{aisl_client_touch-Keeps, aisl_client_free-Keeps}
use aisl.Spool.Laws.{IsValid as IsSpool, entries}
use aisl.Instance.{Cycle, or_success, touch_clients}
use aisl.Instance.Slots.{length-entries}
use aisl.Instance.Sweep.{Swept, sweep, touch_clients-sweep}

-- A client as the instance keeps it: online, with a well-formed input buffer, and with the flag
-- for the handshake that it was made with.
pub record IsServed (c : Client) : Type 0 where
  pub online : aisl_client_is_online c ≡ true
  pub sound : IsValid c.input
  pub handshook : c.handshake ≡ true

abbrev pub AllServed : List Client → Type 0
AllServed [] = Unit {0}
AllServed (c ∷ cs) = IsServed c × AllServed cs

pub AllServed-append :
    (cs : List Client) (c : Client) → AllServed cs → IsServed c → AllServed (cs ++ (c ∷ []))
AllServed-append [] c h g = (g, tt)
AllServed-append (d ∷ cs) c (h, hs) g = (h, AllServed-append cs c hs g)

open_count-some :
    (fd : Option ℕ) → (elim fd [ none ↦ false | some _ ↦ true ]) ≡ true → open_count fd ≡ 1
open_count-some none h = absurd (cc)
open_count-some (some n) h = refl

pub open_count_online : (c : Client) → aisl_client_is_online c ≡ true → open_count c.fd ≡ 1
unfolding aisl_client_is_online
open_count_online c h = open_count-some c.fd h

module _ {W : Type 0} (sys : System W) (polite : IsPolite sys) where
  -- What a pass over clients that are served keeps.
  abbrev Passes : List Client → List Raised → Swept W → Type 0
  Passes cs log r =
      AllServed r.clients × (disconnects r.log + length r.clients ≡ disconnects log + length cs)

  sweep-Passes :
      (timeout : ℕ) (passed : Bool) (cs : List Client) (w : W) (log : List Raised) (result : Status)
      → AllServed cs
      → Passes cs log (sweep sys timeout passed cs w log result)
  unfolding sweep
  sweep-Passes timeout true [] w log result h = (tt, refl)
  sweep-Passes timeout false [] w log result h = (tt, refl)
  sweep-Passes timeout true (c ∷ cs) w log result (h, hs) =
      let (served, count) = sweep-Passes timeout false cs w log result hs in
      ((h, served), omega (arith, count))
  sweep-Passes timeout false (c ∷ cs) w log result (h, hs) =
      let start : Session W = record { world = w; client = c; log = log } in
      let (s, status) = aisl_client_touch sys timeout start in
      let t = aisl_client_free sys s in
      let k = aisl_client_touch-Keeps sys polite timeout start in
      let result' = or_success status result in
      elim (Bool-cases (aisl_client_is_online s.client)) [
        | inl e ↦
            let (served, count) = sweep-Passes timeout false cs s.world s.log result' hs in
            let good : IsServed s.client = record {
              online = e;
              sound = k.sound h.sound;
              handshook = k.handshook h.handshook;
            } in
            rw e (
              (good, served),
              omega (
                arith,
                count,
                k.balanced,
                open_count_online c h.online,
                open_count_online s.client e,
              ),
            )
        | inr e ↦
            let (served, count) = sweep-Passes timeout true cs t.world t.log result' hs in
            let k' = Keeps-trans start s t k (aisl_client_free-Keeps sys polite s) in
            rw e (
              served,
              omega (
                arith,
                count,
                k'.balanced,
                open_count_online c h.online,
                ap open_count (aisl_client_free-closes sys polite s),
              ),
            )
      ]

  -- The loop over the clients of a cycle, all of them online and served at its start, with a handler
  -- that does not close the client within CLIENT_DISCONNECT: those left in the spool are so too, and
  -- CLIENT_DISCONNECT is raised once for each that left.
  pub touch_clients-Passes :
      (timeout : ℕ) (cy : Cycle W) (result : Status)
      → IsSpool cy.spool
      → AllServed (entries cy.spool)
      → let (cy', answer) = touch_clients sys timeout cy.spool.count 0 cy result in
        AllServed (entries cy'.spool)
        × (disconnects cy'.log + cy'.spool.count ≡ disconnects cy.log + cy.spool.count)
  touch_clients-Passes timeout cy result v h =
      let does = touch_clients-sweep sys timeout cy result v in
      let (served, count) =
        sweep-Passes timeout false (entries cy.spool) cy.world cy.log result h in
      (
        rw does.clients served,
        omega (
          arith,
          count,
          ap disconnects does.log,
          ap length does.clients,
          length-entries cy.spool v,
          length-entries _ does.valid,
        ),
      )
