-- ===== src/Instance/Sweep.antt =====
-- The loop over the clients in aisl_run_cycle of src/instance.c, against a pass over their list.
use aisl.Prelude.{
  ℕ, zero, suc, ◌≤◌, ◌≡◌, refl, sym, ap, ◌∙◌, some, List, [], ◌∷◌, ◌++◌, append_assoc, length,
  length-append, set, Bool, true, false, arith, inl, inr, Bool-cases, if◌then◌else◌,
}
use aisl.Types.{Status}
use aisl.Api.{Raised, System}
use aisl.Client.{Client, Session, aisl_client_is_online}
use aisl.Client.Touch.{aisl_client_touch, aisl_client_free}
use aisl.Spool.{list_remove_index}
use aisl.Spool.Laws.{IsValid, entries}
use aisl.Instance.{Cycle, or_success, visited, touch_client, touch_clients}
use aisl.Instance.Slots.{
  entry_at_past, entry_at-entries, set-entries, remove-entries, length-entries,
}

-- What a pass leaves: the clients that stay, the world, the events and the answer.
pub record Swept (W : Type 0) : Type 0 where
  pub clients : List Client
  pub world : W
  pub log : List Raised
  pub status : Status

-- A client that stays in front of the others.
abbrev pub kept : {W : Type 0} → Client → Swept W → Swept W
kept c r = record r { clients = c ∷ r.clients }

module _ {W : Type 0} (sys : System W) where
  -- Each client is touched in turn and stays if it is online; if it is not, it is freed and leaves,
  -- and the next one stays without being touched, which the flag says.
  unfoldable pub sweep : ℕ → Bool → List Client → W → List Raised → Status → Swept W
  sweep timeout passed [] w log result = record {
    clients = [];
    world = w;
    log = log;
    status = result;
  }
  sweep timeout true (c ∷ cs) w log result = kept c (sweep timeout false cs w log result)
  sweep timeout false (c ∷ cs) w log result =
      let (s, status) =
        aisl_client_touch sys timeout (record { world = w; client = c; log = log }) in
      let t = aisl_client_free sys s in
      let stays = kept s.client (sweep timeout false cs s.world s.log (or_success status result)) in
      let leaves = sweep timeout true cs t.world t.log (or_success status result) in
      if aisl_client_is_online s.client then stays else leaves

  -- The loop has done the pass `r` behind the clients `before`.
  pub record Does (before : List Client) (r : Swept W) (done : Cycle W × Status) : Type 0 where
    pub valid : IsValid done.0.spool
    pub clients : entries done.0.spool ≡ before ++ r.clients
    pub world : done.0.world ≡ r.world
    pub log : done.0.log ≡ r.log
    pub status : done.1 ≡ r.status

  Does-kept :
      (before : List Client) (c : Client) (r : Swept W) (done : Cycle W × Status)
      → Does (before ++ (c ∷ [])) r done
      → Does before (kept c r) done
  Does-kept before c r done h = record {
    valid = h.valid;
    clients = h.clients ∙ append_assoc before (c ∷ []) r.clients;
    world = h.world;
    log = h.log;
    status = h.status;
  }

  -- The loop of so many rounds, wherever it begins.
  abbrev Works : ℕ → ℕ → Type 0
  Works timeout rounds =
      (before rest : List Client) (cy : Cycle W) (result : Status)
      → IsValid cy.spool
      → entries cy.spool ≡ before ++ rest
      → length rest ≤ rounds
      → Does before (sweep timeout false rest cy.world cy.log result)
          (touch_clients sys timeout rounds (length before) cy result)

  -- The loop behind a client that stays.
  kept-Does :
      (timeout rounds : ℕ) (before : List Client) (c : Client) (rest : List Client) (cy : Cycle W)
      (result : Status)
      → Works timeout rounds
      → IsValid cy.spool
      → entries cy.spool ≡ before ++ (c ∷ rest)
      → length rest ≤ rounds
      → Does before
          (kept c (sweep timeout false rest cy.world cy.log result))
          (touch_clients sys timeout rounds (suc (length before)) cy result)
  kept-Does timeout rounds before c rest cy result works v e h =
      let before' = before ++ (c ∷ []) in
      let len : suc (length before) ≡ length before' =
        omega (arith, length-append before (c ∷ [])) in
      let e' = e ∙ sym (append_assoc before (c ∷ []) rest) in
      rw len (Does-kept before c _ _ (works before' rest cy result v e' h))

  -- The loop behind the last client.
  end-Does :
      (timeout rounds i : ℕ) (before : List Client) (cy : Cycle W) (result : Status)
      → IsValid cy.spool
      → entries cy.spool ≡ before ++ []
      → length before ≤ i
      → Does before
          (sweep timeout false [] cy.world cy.log result)
          (touch_clients sys timeout rounds i cy result)
  unfolding touch_clients sweep
  end-Does timeout zero i before cy result v e h = record {
    valid = v;
    clients = e;
    world = refl;
    log = refl;
    status = refl;
  }
  end-Does timeout (suc rounds) i before cy result v e h =
      let past : cy.spool.count ≤ i =
        omega (arith, h, length-entries cy.spool v, ap length e, length-append before []) in
      rw (entry_at_past cy.spool i past)
        (record { valid = v; clients = e; world = refl; log = refl; status = refl })

  -- The loop behind a client that has left: the next one is passed over.
  left-Does :
      (timeout rounds : ℕ) (before rest : List Client) (cy : Cycle W) (result : Status)
      → Works timeout rounds
      → IsValid cy.spool
      → entries cy.spool ≡ before ++ rest
      → length rest ≤ rounds
      → Does before
          (sweep timeout true rest cy.world cy.log result)
          (touch_clients sys timeout rounds (suc (length before)) cy result)
  unfolding sweep
  left-Does timeout rounds before [] cy result works v e h =
      end-Does timeout rounds (suc (length before)) before cy result v e (omega arith)
  left-Does timeout rounds before (d ∷ rest) cy result works v e h =
      kept-Does timeout rounds before d rest cy result works v e (omega (arith, h))

  visited-Does :
      (timeout rounds : ℕ) (before : List Client) (c : Client) (rest : List Client) (cy : Cycle W)
      (result : Status)
      → Works timeout rounds
      → IsValid cy.spool
      → entries cy.spool ≡ before ++ (c ∷ rest)
      → length rest ≤ rounds
      → Does before (sweep timeout false (c ∷ rest) cy.world cy.log result) (
          visited
            (touch_client sys timeout (length before) cy)
            (touch_clients sys timeout rounds (suc (length before)))
            (some c)
            cy
            result)
  unfolding sweep touch_client
  visited-Does timeout rounds before c rest cy result works v e h =
      let start : Session W = record { world = cy.world; client = c; log = cy.log } in
      let (s, status) = aisl_client_touch sys timeout start in
      let t = aisl_client_free sys s in
      let l = cy.spool in
      let i = length before in
      let result' = or_success status result in
      elim (Bool-cases (aisl_client_is_online s.client)) [
        | inl f ↦
            let (v', e') = set-entries l v before c rest e s.client in
            let cy' : Cycle W = record {
              world = s.world;
              log = s.log;
              spool = record l { slots = set l.slots i s.client };
            } in
            rw f (kept-Does timeout rounds before s.client rest cy' result' works v' e' h)
        | inr f ↦
            let (v', e') = remove-entries l v before c rest e in
            let cy' : Cycle W = record {
              world = t.world;
              log = t.log;
              spool = (list_remove_index l i).0;
            } in
            rw f (left-Does timeout rounds before rest cy' result' works v' e' h)
      ]

  -- The loop over the clients, from the index behind `before` on, with a round for each of the
  -- rest.
  touch_clients-Does : (timeout rounds : ℕ) → Works timeout rounds
  unfolding touch_clients
  touch_clients-Does timeout zero before (c ∷ rest) cy result v e h = absurd (omega (arith, h))
  touch_clients-Does timeout rounds before [] cy result v e h =
      end-Does timeout rounds (length before) before cy result v e (omega arith)
  touch_clients-Does timeout (suc rounds) before (c ∷ rest) cy result v e h =
      rw (entry_at-entries cy.spool v before c rest e) (
        visited-Does timeout rounds before c rest cy result (touch_clients-Does timeout rounds) v e
          (omega (arith, h)))

  -- The loop over the clients of a valid spool, in as many rounds as there are clients, is one pass
  -- over their list, in the clients that it leaves in a valid spool, in the world, the events and
  -- the answer: each client is touched, and freed and removed where it is offline then; but the
  -- client right behind one that is removed is passed over, and stays untouched in this cycle.
  pub touch_clients-sweep :
      (timeout : ℕ) (cy : Cycle W) (result : Status)
      → IsValid cy.spool
      → Does []
          (sweep timeout false (entries cy.spool) cy.world cy.log result)
          (touch_clients sys timeout cy.spool.count 0 cy result)
  touch_clients-sweep timeout cy result v =
      touch_clients-Does timeout cy.spool.count [] (entries cy.spool) cy result v refl
        (omega (arith, length-entries cy.spool v))
