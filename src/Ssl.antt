-- ===== src/Ssl.antt =====
-- src/ssl.c, src/ssl.h: the TLS contexts of an instance, with aisl_new_ssl and aisl_get_ssl_ctx of
-- src/instance.c. OpenSSL and the allocator are parameters.
mod Laws
pub mod Tests
use aisl.Prelude.{
  ℕ, ◌≡◌, Option, none, some, List, [], ◌∷◌, Bool, true, false, ◌&&◌, Bytes, codes, bytes_eq, ◌==◌,
  if◌then◌else◌, ◌++◌,
}
use aisl.StrUtils.{str_cmpi}

-- A context is a number. `allocate` is whether `calloc`, or `malloc` for a copy of a string, gives
-- memory. SSL_new refuses NULL, with the error SSL_R_NULL_SSL_CTX.
pub record OpenSsl (W : Type 0) : Type 0 where
  pub allocate : W → W × Bool
  pub ctx_new : W → W × Option ℕ
  pub use_certificate_file : W → ℕ → Bytes → W × Bool
  pub use_private_key_file : W → ℕ → Bytes → W × Bool
  pub ctx_free : W → Option ℕ → W
  pub ssl_new : W → Option ℕ → W × Bool
  pub ssl_new_null : (w : W) → (ssl_new w none).1 ≡ false

-- `struct aisl_cfg_ssl`
pub record CfgSsl : Type 0 where
  pub host : Bytes
  pub key_file : Bytes
  pub crt_file : Bytes

-- `struct aisl_ssl`, with `none` for NULL
pub record Ssl : Type 0 where
  pub key_file : Option Bytes
  pub crt_file : Option Bytes
  pub host : Bytes
  pub ctx : Option ℕ

-- The list in front of its NULL.
unfoldable pub ctx_of_host : List Ssl → Bytes → Option ℕ
ctx_of_host [] host = none
ctx_of_host (ssl ∷ list) host =
    let rest = ctx_of_host list host in if str_cmpi ssl.host host == 0 then ssl.ctx else rest

unfoldable pub aisl_get_ssl_ctx : List Ssl → Option Bytes → Option ℕ
aisl_get_ssl_ctx list none = none
aisl_get_ssl_ctx list (some host) = ctx_of_host list host

-- `file && strcmp(file, name) == 0`
unfoldable pub names : Option Bytes → Bytes → Bool
names none name = false
names (some file) name = bytes_eq file name

-- The loop of `aisl_new_ssl`: the context of an entry with the same files.
unfoldable pub shared_ctx : List Ssl → CfgSsl → Option ℕ
shared_ctx [] cfg = none
shared_ctx (ssl ∷ list) cfg =
    let rest = shared_ctx list cfg in
    if names ssl.key_file cfg.key_file && names ssl.crt_file cfg.crt_file then ssl.ctx else rest

abbrev pub host_or_star : Option Bytes → Bytes
host_or_star none = codes "*"
host_or_star (some host) = host

-- The file names that `aisl_ssl_get_ctx` reads are those of an entry that has them.
abbrev pub file_of : Option Bytes → Bytes
file_of none = []
file_of (some name) = name

module _ {W : Type 0} (lib : OpenSsl W) where
  -- The answer of an allocation, and what is done with the memory.
  abbrev pub when_given : {A : Type 0} → W × Bool → (W → W × Option A) → (W → W) → W × Option A
  when_given (w, true) go undo = go w
  when_given (w, false) go undo = (undo w, none)

  -- The context is freed by the entry that has a key file.
  unfoldable pub aisl_ssl_free : Ssl → W → W
  aisl_ssl_free ssl w = elim ssl.key_file [ none ↦ w | some _ ↦ lib.ctx_free w ssl.ctx ]

  abbrev pub copies : Ssl → Bytes → Bytes → W → W × Option Ssl
  copies ssl key_file crt_file w =
      let with_key = record ssl { key_file = some key_file } in
      when_given (lib.allocate w)
        (λ w.
          when_given (lib.allocate w)
            (λ w. (w, some (record with_key { crt_file = some crt_file })))
            (aisl_ssl_free with_key))
        (aisl_ssl_free ssl)

  abbrev pub with_ctx : Ssl → Option ℕ → Bytes → Bytes → W → W × Option Ssl
  with_ctx ssl (some ctx) key_file crt_file w = (w, some (record ssl { ctx = some ctx }))
  with_ctx ssl none key_file crt_file w = copies ssl key_file crt_file w

  unfoldable pub aisl_ssl_new : W → Bytes → Bytes → Option Bytes → Option ℕ → W × Option Ssl
  aisl_ssl_new w key_file crt_file host ctx =
      let ssl : Ssl = record {
        key_file = none;
        crt_file = none;
        host = host_or_star host;
        ctx = none;
      } in
      when_given (lib.allocate w)
        (λ w. when_given (lib.allocate w) (with_ctx ssl ctx key_file crt_file) (aisl_ssl_free ssl))
        (λ w. w)

  abbrev pub loaded : Ssl → W × Option ℕ → W × Ssl × Option ℕ
  loaded ssl (w, none) = (lib.ctx_free w none, ssl, none)
  loaded ssl (w, some ctx) =
      let (w1, crt) = lib.use_certificate_file w ctx (file_of ssl.crt_file) in
      let (w2, key) = lib.use_private_key_file w1 ctx (file_of ssl.key_file) in
      if crt
      then (if key
          then (w2, record ssl { ctx = some ctx }, some ctx)
          else (lib.ctx_free w2 (some ctx), ssl, none))
      else (lib.ctx_free w1 (some ctx), ssl, none)

  unfoldable pub aisl_ssl_get_ctx : W → Ssl → W × Ssl × Option ℕ
  aisl_ssl_get_ctx w ssl = loaded ssl (lib.ctx_new w)

  abbrev pub checked_ctx : W × Ssl × Option ℕ → W × Option Ssl
  checked_ctx (w, ssl, none) = (aisl_ssl_free ssl w, none)
  checked_ctx (w, ssl, some _) = (w, some ssl)

  abbrev pub with_own_ctx : Option ℕ → W × Option Ssl → W × Option Ssl
  with_own_ctx ctx (w, none) = (w, none)
  with_own_ctx (some ctx) (w, some ssl) = (w, some ssl)
  with_own_ctx none (w, some ssl) = checked_ctx (aisl_ssl_get_ctx w ssl)

  -- The call of `aisl_ssl_new` with the arguments in the order in which the source has them.
  unfoldable pub aisl_new_ssl : W → List Ssl → CfgSsl → W × Option Ssl
  aisl_new_ssl w list cfg =
      let ctx = shared_ctx list cfg in
      with_own_ctx ctx (aisl_ssl_new w cfg.host cfg.key_file (some cfg.crt_file) ctx)

  abbrev pub joined :
      (W → List Ssl → W × List Ssl × Bool) → List Ssl → W × Option Ssl → W × List Ssl × Bool
  joined go list (w, none) = (w, list, false)
  joined go list (w, some ssl) = go w (list ++ (ssl ∷ []))

  -- The loop of `aisl_new` over the configured contexts; the flag is whether it came to its end.
  unfoldable pub new_ssl_list : List CfgSsl → W → List Ssl → W × List Ssl × Bool
  new_ssl_list [] w list = (w, list, true)
  new_ssl_list (cfg ∷ cfgs) w list = joined (new_ssl_list cfgs) list (aisl_new_ssl w list cfg)
