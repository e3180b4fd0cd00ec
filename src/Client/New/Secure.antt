-- ===== src/Client/New/Secure.antt =====
-- aisl_client_new of src/client.c for a server with TLS.
use aisl.Prelude.{ℕ, ◌≡◌, refl, Option, none, some, List, Bool, true, false}
use aisl.Buffer.{Buffer}
use aisl.Api.{Raised, System}
use aisl.Ssl.{OpenSsl, Ssl, aisl_get_ssl_ctx}
use aisl.Client.{Session}
use aisl.Client.New.{
  given_up, with_ssl, secured, with_first_stream, with_input, with_memory, aisl_client_new,
}

module _ {W : Type 0} (sys : System W) (lib : OpenSsl W) (ssl : List Ssl) where
  with_ssl_refused :
      (s : Session W) (r : W × Bool) → r.1 ≡ false → (with_ssl sys lib ssl s r).2 ≡ none
  unfolding with_ssl given_up
  with_ssl_refused s (w, true) h = absurd (cc)
  with_ssl_refused s (w, false) h = refl

  with_first_stream_refused :
      (s : Session W) (r : W × Bool) → (with_first_stream sys lib ssl true s r).2 ≡ none
  unfolding with_first_stream given_up secured aisl_get_ssl_ctx
  with_first_stream_refused s (w, true) =
      with_ssl_refused (record s { world = w; client = record s.client { has_stream = true } })
        (lib.ssl_new w none) (lib.ssl_new_null w)
  with_first_stream_refused s (w, false) = refl

  with_input_refused :
      (s : Session W) (r : W × Buffer × Option ℕ) → (with_input sys lib ssl true s r).2 ≡ none
  unfolding with_input given_up
  with_input_refused s (w, b, none) = refl
  with_input_refused s (w, b, some n) =
      with_first_stream_refused (record s { world = w; client = record s.client { input = b } })
        (sys.calloc_stream w)

  with_memory_refused :
      (fd : ℕ) (log : List Raised) (r : W × Bool) → (with_memory sys lib ssl true fd log r).2 ≡ none
  unfolding with_memory
  with_memory_refused fd log (w, false) = refl
  with_memory_refused fd log (w, true) = with_input_refused _ _

  -- No client is ever made for a server with TLS, whatever contexts there are.
  pub aisl_client_new_secure :
      (w : W) (log : List Raised) (fd : ℕ) → (aisl_client_new sys lib ssl w log true fd).2 ≡ none
  unfolding aisl_client_new
  aisl_client_new_secure w log fd = with_memory_refused fd log (lib.allocate w)
