-- ===== src/Bare/Laws.antt =====
-- The replies of the sample server of bare/src/router.c.
use aisl.Prelude.{
  ℕ, zero, suc, ◌+◌, ◌-◌, ◌≡◌, ◌≢◌, refl, Option, none, some, List, if_false, [], ◌∷◌, Bytes, Bool,
  true, false, length, ltb, if◌then◌else◌, arith, inl, inr, Bool-cases, bytes_eq, bytes_eq_iff, ◌⊎◌,
}
use aisl.Prelude.Alloc.{Alloc}
use aisl.Types.{HttpMethod, auto_length}
use aisl.Types.Response.{HttpResponse}
use aisl.Buffer.{Buffer, blit, stored, buffer_set_size, buffer_append_vprintf, vprintf_rounds}
use aisl.Stream.{Conn}
use aisl.Stream.Response.{printf, aisl_response}
use aisl.Stream.Write.{in_body, with_closed_headers, aisl_vprintf}
use aisl.Api.{status, count, Call, Program, stop, call, reject, System, perform, answered, counted}
use aisl.Handler.{is_zero, succeeds, flushed}
use aisl.Bare.Memory.{World, Libc, Module}
use aisl.Bare.Welcome.{new_context, context_pointer, welcomed, welcome_on_open, welcome_module}
use aisl.Bare.Router.{router_reply_error, opened_by, open_modules, on_stream_open}
use aisl.Client.{Session, with_conn, run}
use aisl.Handler.Page.{reject-closes, run-if}

-- A number of bytes is that of the text.
abbrev pub Counts : Bytes → Option ℕ → Type 0
Counts text none = Unit {0}
Counts text (some n) = n ≡ length text

module _ {W : Type 0} (alloc : Alloc W) where
  grown-Counts :
      (text : Bytes) (o : Option ℕ) (refused again : W × Buffer × Option ℕ)
      → Counts text refused.2
      → Counts text again.2
      → Counts text (elim o as (λ _. W × Buffer × Option ℕ) [ none ↦ refused | some _ ↦ again ]).2
  grown-Counts text none refused again h g = h
  grown-Counts text (some n) refused again h g = g

  vprintf_rounds-Counts :
      (rounds : ℕ) (w : W) (b : Buffer) (text : Bytes)
      → Counts text (vprintf_rounds alloc rounds w b text).2
  unfolding vprintf_rounds
  vprintf_rounds-Counts zero w b text = tt
  vprintf_rounds-Counts (suc rounds) w b text =
      elim (Bool-cases (ltb (length text) (b.size - b.used))) [
        | inl e ↦ rw e refl
        | inr e ↦
            let stored_text = record b {
              mem = blit b.mem b.used (stored (b.size - b.used) text);
            } in
            let g =
              buffer_set_size alloc w stored_text (b.size + length text - (b.size - b.used) + 1) in
            rw e (
              grown-Counts text g.2 (g.0, g.1, none) (vprintf_rounds alloc rounds g.0 g.1 text) tt
                (vprintf_rounds-Counts rounds g.0 g.1 text))
      ]

  in_body-Counts :
      (text : Bytes) (r : W × Conn × Bool) → Counts text (in_body alloc (printf alloc text) r).2
  unfolding in_body buffer_append_vprintf
  in_body-Counts text (w, c, false) = tt
  in_body-Counts text (w, c, true) = vprintf_rounds-Counts 2 w c.stream.buffer text

  aisl_vprintf-Counts :
      (w : W) (c : Conn) (text : Bytes) → Counts text (aisl_vprintf alloc w c text).2
  unfolding aisl_vprintf with_closed_headers
  aisl_vprintf-Counts w c text = in_body-Counts text _

Counts-is_zero :
    (text : Bytes) (r : Option ℕ) → text ≢ [] → Counts text r → is_zero (count r) ≡ false
unfolding is_zero
Counts-is_zero text none h g = refl
Counts-is_zero [] (some n) h g = absurd (h refl)
Counts-is_zero (b ∷ bs) (some n) h g = ground arith

module _ {W : Type 0} (sys : System W) where
  -- Behind the text of a page that is not empty.
  printed_closes :
      (html : Bytes) (d : ℕ) (s : Session W) (r : W × Conn × Option ℕ)
      → html ≢ []
      → Counts html r.2
      → (run sys (if is_zero (count r.2) then flushed else reject stop) (suc d) s).client.fd ≡ none
  printed_closes html d s r h g = rw (Counts-is_zero html r.2 h g) (reject-closes sys d s)

  print_closes :
      (html : Bytes) (d : ℕ) (s : Session W)
      → html ≢ []
      → (run sys
          (call (Call.printf html) (λ ret_code. if is_zero ret_code then flushed else reject stop))
          (suc d)
          s).client.fd
        ≡ none
  unfolding run perform counted
  print_closes html d s h =
      let r = aisl_vprintf sys.alloc s.world s.client.conn html in
      printed_closes html d (record (with_conn s r.1) { world = r.0 }) r h
        (aisl_vprintf-Counts sys.alloc s.world s.client.conn html)

  -- router_reply_error leaves every client closed, whatever the memory and whatever page is
  -- printed, as long as it is not empty.
  pub router_reply_error_closes :
      (html : Bytes) (code : HttpResponse) (d : ℕ) (s : Session W)
      → html ≢ []
      → (run sys (router_reply_error html code) (suc d) s).client.fd ≡ none
  unfolding router_reply_error run perform answered
  router_reply_error_closes html code d s h =
      let r = aisl_response sys.alloc s.world s.client.conn code auto_length in
      let t = record (with_conn s r.1) { world = r.0 } in
      run-if sys (λ r. r.client.fd ≡ none) (succeeds (status r.2)) _ (reject stop) (suc d) t
        (λ _. print_closes html d t h) (λ _. reject-closes sys d t)

pub for_memory :
    (path config_path : Bytes) (given : Bool)
    → bytes_eq path config_path ≡ true
    → (path ≢ config_path) ⊎ (given ≡ false)
    → given ≡ false
for_memory path config_path given e (inl h) = absurd (h ((bytes_eq_iff path config_path).0 e))
for_memory path config_path given e (inr h) = h

-- The modules of a router that serves the page at `config_path`.
abbrev pub pages : {V : Type 0} → Libc V → Bytes → Bytes → List (Module (World V))
pages libc target config_path = welcome_module libc target config_path ∷ []

module _ {V : Type 0} (libc : Libc V) (target config_path : Bytes) (sys : System (World V)) where
  -- The right path without memory for a context.
  refused_closes :
      (go : HttpResponse → Program (World V)) (ctx : Option ℕ) (d : ℕ) (s : Session (World V))
      → ((code : HttpResponse) → libc.error_page code ≢ [])
      → ctx ≡ none
      → (run sys (welcomed libc (opened_by libc go 0) ctx) (suc d) s).client.fd ≡ none
  unfolding welcomed opened_by
  refused_closes go none d s full e =
      router_reply_error_closes sys _ HttpResponse.internal_server_error d s (full _)
  refused_closes go (some p) d s full e = absurd (cc)

  pub no_memory : (w : World V) → (libc.calloc w.outside).1 ≡ false → context_pointer libc w ≡ none
  unfolding context_pointer
  no_memory w e = if_false _ _ _ e

  -- The sample server closes a client whose request is for another path than that of its page, or
  -- for which there is no memory for a context, within STREAM_OPEN.
  pub on_stream_open_closes :
      (path query : Bytes) (method : HttpMethod) (d : ℕ) (s : Session (World V))
      → ((code : HttpResponse) → libc.error_page code ≢ [])
      → (path ≢ config_path) ⊎ ((libc.calloc s.world.outside).1 ≡ false)
      → (run sys
          (on_stream_open libc (pages libc target config_path) path query method)
          (suc d)
          s).client.fd
        ≡ none
  unfolding run on_stream_open open_modules welcome_on_open opened_by
  on_stream_open_closes path query method d s full h =
      elim (Bool-cases (bytes_eq path config_path)) [
        | inl e ↦ rw e (
            refused_closes (λ code. router_reply_error (libc.error_page code) code)
              (context_pointer libc s.world) d (record s { world = new_context libc s.world }) full
              (no_memory s.world (for_memory path config_path _ e h)))
        | inr e ↦ rw e (router_reply_error_closes sys _ HttpResponse.not_found d s (full _))
      ]
