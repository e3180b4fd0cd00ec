-- ===== src/Client/Outcome.antt =====
-- What a touch of src/client.c answers, and the life of a client.
use aisl.Prelude.{
  ℕ, suc, ◌+◌, ◌-◌, ◌<◌, ◌≤◌, ◌≡◌, refl, subst, ◌∙◌, arith, tests, Option, none, some, inl, inr,
  ◌⊎◌, Bool-cases, Bool, true, false, not, ◌&&◌, ltb, ◌==◌, if◌then◌else◌, ltb→lt,
}
use aisl.Types.{
  Status, success, idle, client_disconnect, syscall_error, extcall_error, input_error, malloc_error,
  HttpVersion, http_0_9, http_1_0, http_1_1, http_2_0,
}
use aisl.Buffer.{contents}
use aisl.Api.{
  plain, System, Received, received, lost, no_input, Sent, sent, broken, no_room, Handshake, shaken,
  waiting, refused,
}
use aisl.Client.{Session, with_client, raise, hung_up, if_open, close_by, aisl_client_close}
use aisl.Client.Depth.{IsPolite}
use aisl.Client.Stamps.{stamp, asked_for_output-stamp}
use aisl.Client.Parse.{
  ParserStatus, parsed, ready, hungry, failed, concluded, parse_rounds, parse_as, aisl_client_parse,
}
use aisl.Client.Touch.{
  stored_input, on_received, read_input, on_handshake, aisl_client_input, on_sent, asked_for_output,
  send_output, aisl_client_output, is_negative, is_idle, is_success, timed, after_input,
  aisl_client_touch, with_world,
}

-- What a touch leaves, where `before` is the time of the last success in front of it and `w` the
-- world when it looked at the clock: after success the time of the clock; after an error a closed
-- client; with nothing to do, the same time, since which less than the timeout has passed, or a
-- closed client when the timeout has passed.
abbrev pub Outcome : {W : Type 0} → System W → ℕ → ℕ → Session W × Status → Type 0
Outcome {W} sys timeout before (s, success) =
    (w : W) × (s.world ≡ (sys.time w).0) × (stamp s ≡ (sys.time w).1)
Outcome {W} sys timeout before (s, idle) =
    (w : W) × (((s.world ≡ (sys.time w).0)
        × (stamp s ≡ before)
        × ((sys.time w).1 < before + timeout))
      ⊎ ((before + timeout ≤ (sys.time w).1) × (s.client.fd ≡ none)))
Outcome sys timeout before (s, _) = s.client.fd ≡ none

module _ {W : Type 0} (sys : System W) where
  pub if_open_closes :
      (fd : Option ℕ) (s t : Session W)
      → s.client.fd ≡ fd
      → (if_open fd (hung_up t) s).client.fd ≡ none
  if_open_closes none s t e = e
  if_open_closes (some n) s t e = refl

  pub aisl_client_close-closes :
      (st : Status) (s : Session W) → (aisl_client_close sys st s).client.fd ≡ none
  unfolding aisl_client_close close_by
  aisl_client_close-closes st s =
      if_open_closes s.client.fd s (raise sys (plain client_disconnect st) s) refl

  -- An error is answered of a closed client only, and idle only of one whose time is `n`.
  abbrev pub Settled : ℕ → Session W × Status → Type 0
  Settled n (s, success) = Unit {0}
  Settled n (s, idle) = stamp s ≡ n
  Settled n (s, _) = s.client.fd ≡ none

  Settled-idle : (n : ℕ) (st : Status) (s : Session W) → Settled n (s, st) → st ≡ idle → stamp s ≡ n
  Settled-idle n idle s h e = h
  Settled-idle n success s h e = absurd (cc)
  Settled-idle n input_error s h e = absurd (cc)
  Settled-idle n extcall_error s h e = absurd (cc)
  Settled-idle n syscall_error s h e = absurd (cc)
  Settled-idle n malloc_error s h e = absurd (cc)

  concluded-success : (r : Session W × ParserStatus × ℕ) → (concluded sys r).1 ≡ success
  unfolding concluded
  concluded-success (s, parsed, left) = refl
  concluded-success (s, ready, left) = refl
  concluded-success (s, hungry, left) = refl
  concluded-success (s, failed, left) = refl

  parse_as-success :
      (v : HttpVersion) (size : ℕ) (s : Session W) → (parse_as sys v size s).1 ≡ success
  unfolding parse_as
  parse_as-success http_2_0 size s = concluded-success (s, parsed, size)
  parse_as-success http_0_9 size s = concluded-success (parse_rounds sys (suc size) 0 size s)
  parse_as-success http_1_0 size s = concluded-success (parse_rounds sys (suc size) 0 size s)
  parse_as-success http_1_1 size s = concluded-success (parse_rounds sys (suc size) 0 size s)

  success-Settled : (n : ℕ) (r : Session W × Status) → r.1 ≡ success → Settled n r
  success-Settled n (s, st) e = rw e tt

  on_received-Settled : (r : Received) (s : Session W) → Settled (stamp s) (on_received sys r s)
  unfolding on_received aisl_client_parse
  on_received-Settled (received bytes) s =
      let t = stored_input bytes s in
      success-Settled (stamp s) (parse_as sys t.client.conn.http_version t.client.input.used t)
        (parse_as-success t.client.conn.http_version t.client.input.used t)
  on_received-Settled no_input s = refl
  on_received-Settled lost s = aisl_client_close-closes syscall_error s

  read_input-Settled : (s : Session W) → Settled (stamp s) (read_input sys s)
  unfolding read_input
  read_input-Settled s =
      let (w, r) = sys.recv s.client.secure s.world (s.client.input.size - s.client.input.used) in
      on_received-Settled r (with_world s w)

  on_handshake-Settled : (h : Handshake) (s : Session W) → Settled (stamp s) (on_handshake sys h s)
  unfolding on_handshake
  on_handshake-Settled shaken s =
      read_input-Settled (with_client s (record s.client { handshake = false }))
  on_handshake-Settled waiting s = refl
  on_handshake-Settled refused s = aisl_client_close-closes extcall_error s

  Settled-if :
      (n : ℕ) (test : Bool) (a b : Session W × Status)
      → Settled n a
      → Settled n b
      → Settled n (if test then a else b)
  Settled-if n true a b h g = h
  Settled-if n false a b h g = g

  aisl_client_input-Settled : (s : Session W) → Settled (stamp s) (aisl_client_input sys s)
  unfolding aisl_client_input
  aisl_client_input-Settled s =
      let (w, h) = sys.ssl_accept s.world in
      Settled-if (stamp s) (s.client.secure && not s.client.handshake)
        (on_handshake sys h (with_world s w)) (read_input sys s)
        (on_handshake-Settled h (with_world s w)) (read_input-Settled s)

  on_sent-Settled : (r : Sent) (s : Session W) → Settled (stamp s) (on_sent sys r s)
  unfolding on_sent
  on_sent-Settled (sent n) s = tt
  on_sent-Settled no_room s = refl
  on_sent-Settled broken s = aisl_client_close-closes syscall_error s

  aisl_client_output-Settled : (s : Session W) → Settled (stamp s) (aisl_client_output sys s)
  unfolding aisl_client_output send_output
  aisl_client_output-Settled s =
      let t = asked_for_output sys s in
      let (w, r) = sys.send t.client.secure t.world (contents t.client.conn.stream.buffer) in
      subst (λ n. Settled n (send_output sys t)) (asked_for_output-stamp sys s)
        (Settled-if (stamp t) (t.client.conn.stream.buffer.used == 0) (t, idle)
          (on_sent sys r (with_world t w)) refl (on_sent-Settled r (with_world t w)))

  timed-Outcome :
      (timeout before : ℕ) (result : Status) (s : Session W)
      → is_negative result ≡ false
      → (result ≡ idle → stamp s ≡ before)
      → Outcome sys timeout before (timed sys timeout result s)
  unfolding timed is_success is_negative
  timed-Outcome timeout before success s h g = (s.world, refl, refl)
  timed-Outcome timeout before idle s h g =
      let (w, now) = sys.time s.world in
      elim (Bool-cases (ltb now (stamp s + timeout))) [
        | inl e ↦
            let soon : now < before + timeout =
              omega (arith, g refl, ltb→lt now (stamp s + timeout) e) in
            rw e ((s.world, inl (refl, g refl, soon)))
        | inr e ↦
            let late : before + timeout ≤ now = omega (tests, e, g refl) in
            rw e ((s.world, inr (late, aisl_client_close-closes idle (with_world s w))))
      ]
  timed-Outcome timeout before input_error s h g = absurd (cc)
  timed-Outcome timeout before extcall_error s h g = absurd (cc)
  timed-Outcome timeout before syscall_error s h g = absurd (cc)
  timed-Outcome timeout before malloc_error s h g = absurd (cc)

  Settled-Outcome :
      (timeout before n : ℕ) (r : Session W × Status)
      → Settled n r
      → is_negative r.1 ≡ true
      → Outcome sys timeout before r
  unfolding is_negative
  Settled-Outcome timeout before n (s, success) h e = absurd (cc)
  Settled-Outcome timeout before n (s, idle) h e = absurd (cc)
  Settled-Outcome timeout before n (s, input_error) h e = h
  Settled-Outcome timeout before n (s, extcall_error) h e = h
  Settled-Outcome timeout before n (s, syscall_error) h e = h
  Settled-Outcome timeout before n (s, malloc_error) h e = h

  -- The time in front of the output is the one in front of the input where both are idle.
  last-stamp :
      (before : ℕ) (result status : Status) (s t : Session W)
      → Settled before (s, result)
      → Settled (stamp s) (t, status)
      → (if is_idle result then status else result) ≡ idle
      → stamp t ≡ before
  unfolding is_idle
  last-stamp before idle status s t h g e = Settled-idle (stamp s) status t g e ∙ h
  last-stamp before success status s t h g e = absurd (cc)
  last-stamp before input_error status s t h g e = absurd (cc)
  last-stamp before extcall_error status s t h g e = absurd (cc)
  last-stamp before syscall_error status s t h g e = absurd (cc)
  last-stamp before malloc_error status s t h g e = absurd (cc)

  last_not_negative :
      (result status : Status)
      → is_negative result ≡ false
      → is_negative status ≡ false
      → is_negative (if is_idle result then status else result) ≡ false
  unfolding is_idle
  last_not_negative idle status h g = g
  last_not_negative success status h g = h
  last_not_negative input_error status h g = h
  last_not_negative extcall_error status h g = h
  last_not_negative syscall_error status h g = h
  last_not_negative malloc_error status h g = h

  Outcome-if :
      (timeout before : ℕ) (test : Bool) (a b : Session W × Status)
      → (test ≡ true → Outcome sys timeout before a)
      → (test ≡ false → Outcome sys timeout before b)
      → Outcome sys timeout before (if test then a else b)
  Outcome-if timeout before true a b h g = h refl
  Outcome-if timeout before false a b h g = g refl

  after_input-Outcome :
      (timeout before : ℕ) (r : Session W × Status)
      → Settled before r
      → Outcome sys timeout before (after_input sys timeout r)
  unfolding after_input
  after_input-Outcome timeout before (s, result) h =
      let (t, status) = aisl_client_output sys s in
      let last = if is_idle result then status else result in
      let output = aisl_client_output-Settled s in
      Outcome-if timeout before (is_negative result) (s, result) _
        (λ e. Settled-Outcome timeout before before (s, result) h e)
        (λ e.
          Outcome-if timeout before s.client.can_write _ _
            (λ _.
              Outcome-if timeout before (is_negative status) (t, status) _
                (λ f. Settled-Outcome timeout before (stamp s) (t, status) output f)
                (λ f.
                  timed-Outcome timeout before last t (last_not_negative result status e f)
                    (last-stamp before result status s t h output)))
            (λ _. timed-Outcome timeout before result s e (Settled-idle before result s h)))

  -- With a handler that does not close the client within CLIENT_DISCONNECT: a touch that answers
  -- success leaves the time of the clock in the client; one that answers an error leaves it closed;
  -- one that finds nothing to do leaves it with the time that it had, where the clock shows less
  -- than the timeout more, or else closed, where the timeout has passed since that time.
  pub aisl_client_touch-Outcome :
      IsPolite sys
      → (timeout : ℕ) (s : Session W)
      → Outcome sys timeout s.client.timestamp (aisl_client_touch sys timeout s)
  unfolding aisl_client_touch
  aisl_client_touch-Outcome polite timeout s =
      after_input-Outcome timeout (stamp s) _
        (Settled-if (stamp s) s.client.can_read _ (s, idle) (aisl_client_input-Settled s) refl)
