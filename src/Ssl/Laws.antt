-- ===== src/Ssl/Laws.antt =====
-- The contexts that aisl_new of src/instance.c makes, looked up by host.
use aisl.Prelude.{
  ℕ, ◌≡◌, ◌≢◌, refl, sym, Option, none, some, List, [], ◌∷◌, ◌++◌, Bool, true, false, Bytes,
  if◌then◌else◌, tests, arith,
}
use aisl.StrUtils.{str_cmpi}
use aisl.Ssl.{
  OpenSsl, CfgSsl, Ssl, ctx_of_host, aisl_get_ssl_ctx, host_or_star, when_given, aisl_ssl_free,
  with_ctx, aisl_ssl_new, loaded, file_of, aisl_ssl_get_ctx, shared_ctx, checked_ctx, with_own_ctx,
  aisl_new_ssl, joined, new_ssl_list,
}

-- No certificate file of the configuration, and no host of the entries, is called `host`.
abbrev pub NoFile : Bytes → List CfgSsl → Type 0
NoFile host [] = Unit {0}
NoFile host (cfg ∷ cfgs) = (str_cmpi cfg.crt_file host ≢ 0) × NoFile host cfgs

abbrev pub NoHost : Bytes → List Ssl → Type 0
NoHost host [] = Unit {0}
NoHost host (ssl ∷ list) = (str_cmpi ssl.host host ≢ 0) × NoHost host list

-- An entry, where one is made, has that host.
abbrev pub HasHost : {W : Type 0} → Bytes → W × Option Ssl → Type 0
HasHost host (w, none) = Unit {0}
HasHost host (w, some ssl) = ssl.host ≡ host

ctx_of_host-NoHost :
    (host : Bytes) (list : List Ssl) → NoHost host list → ctx_of_host list host ≡ none
unfolding ctx_of_host
ctx_of_host-NoHost host [] h = refl
ctx_of_host-NoHost host (ssl ∷ list) (h, hs) =
    let rest = ctx_of_host-NoHost host list hs in grind (arith, tests)

NoHost-append :
    (host : Bytes) (list : List Ssl) (ssl : Ssl)
    → NoHost host list
    → str_cmpi ssl.host host ≢ 0
    → NoHost host (list ++ (ssl ∷ []))
NoHost-append host [] ssl h g = (g, tt)
NoHost-append host (x ∷ list) ssl (h, hs) g = (h, NoHost-append host list ssl hs g)

module _ {W : Type 0} (lib : OpenSsl W) where
  when_given-HasHost :
      (host : Bytes) (r : W × Bool) (go : W → W × Option Ssl) (undo : W → W)
      → ((w : W) → HasHost host (go w))
      → HasHost host (when_given lib r go undo)
  when_given-HasHost host (w, true) go undo h = h w
  when_given-HasHost host (w, false) go undo h = tt

  with_ctx-HasHost :
      (ssl : Ssl) (ctx : Option ℕ) (key_file crt_file : Bytes) (w : W)
      → HasHost ssl.host (with_ctx lib ssl ctx key_file crt_file w)
  with_ctx-HasHost ssl (some ctx) key_file crt_file w = refl
  with_ctx-HasHost ssl none key_file crt_file w =
      let with_key = record ssl { key_file = some key_file } in
      when_given-HasHost ssl.host (lib.allocate w) _ (aisl_ssl_free lib ssl) (λ w.
        when_given-HasHost ssl.host (lib.allocate w) _ (aisl_ssl_free lib with_key) (λ w. refl))

  aisl_ssl_new-HasHost :
      (w : W) (key_file crt_file : Bytes) (host : Option Bytes) (ctx : Option ℕ)
      → HasHost (host_or_star host) (aisl_ssl_new lib w key_file crt_file host ctx)
  unfolding aisl_ssl_new
  aisl_ssl_new-HasHost w key_file crt_file host ctx =
      let ssl : Ssl = record {
        key_file = none;
        crt_file = none;
        host = host_or_star host;
        ctx = none;
      } in
      when_given-HasHost ssl.host (lib.allocate w) _ (λ w. w)
        (λ w.
          when_given-HasHost ssl.host (lib.allocate w) _ (aisl_ssl_free lib ssl)
            (with_ctx-HasHost ssl ctx key_file crt_file))

  checked-if :
      (host : Bytes) (test : Bool) (a b : W × Ssl × Option ℕ)
      → HasHost host (checked_ctx lib a)
      → HasHost host (checked_ctx lib b)
      → HasHost host (checked_ctx lib (if test then a else b))
  checked-if host true a b h g = h
  checked-if host false a b h g = g

  loaded-HasHost :
      (ssl : Ssl) (r : W × Option ℕ) → HasHost ssl.host (checked_ctx lib (loaded lib ssl r))
  loaded-HasHost ssl (w, none) = tt
  loaded-HasHost ssl (w, some ctx) =
      let (w1, crt) = lib.use_certificate_file w ctx (file_of ssl.crt_file) in
      let key = (lib.use_private_key_file w1 ctx (file_of ssl.key_file)).1 in
      checked-if ssl.host crt _ _ (checked-if ssl.host key _ _ refl tt) tt

  with_own_ctx-HasHost :
      (host : Bytes) (ctx : Option ℕ) (r : W × Option Ssl)
      → HasHost host r
      → HasHost host (with_own_ctx lib ctx r)
  unfolding aisl_ssl_get_ctx
  with_own_ctx-HasHost host ctx (w, none) h = tt
  with_own_ctx-HasHost host (some ctx) (w, some ssl) h = h
  with_own_ctx-HasHost host none (w, some ssl) h = rw (sym h) (loaded-HasHost ssl (lib.ctx_new w))

  aisl_new_ssl-HasHost :
      (w : W) (list : List Ssl) (cfg : CfgSsl) → HasHost cfg.crt_file (aisl_new_ssl lib w list cfg)
  unfolding aisl_new_ssl
  aisl_new_ssl-HasHost w list cfg =
      let ctx = shared_ctx list cfg in
      with_own_ctx-HasHost cfg.crt_file ctx _
        (aisl_ssl_new-HasHost w cfg.host cfg.key_file (some cfg.crt_file) ctx)

  joined-NoHost :
      (host crt : Bytes) (go : W → List Ssl → W × List Ssl × Bool) (list : List Ssl)
      (r : W × Option Ssl)
      → ((w : W) (list : List Ssl) → NoHost host list → NoHost host (go w list).1)
      → NoHost host list
      → HasHost crt r
      → str_cmpi crt host ≢ 0
      → NoHost host (joined lib go list r).1
  joined-NoHost host crt go list (w, none) all h named g = h
  joined-NoHost host crt go list (w, some ssl) all h named g =
      all w _ (NoHost-append host list ssl h (rw named g))

  new_ssl_list-NoHost :
      (host : Bytes) (cfgs : List CfgSsl) (w : W) (list : List Ssl)
      → NoFile host cfgs
      → NoHost host list
      → NoHost host (new_ssl_list lib cfgs w list).1
  unfolding new_ssl_list
  new_ssl_list-NoHost host [] w list n h = h
  new_ssl_list-NoHost host (cfg ∷ cfgs) w list (n, ns) h =
      joined-NoHost host cfg.crt_file (new_ssl_list lib cfgs) list (aisl_new_ssl lib w list cfg)
        (λ w list h. new_ssl_list-NoHost host cfgs w list ns h) h (aisl_new_ssl-HasHost w list cfg)
        n

  -- The contexts that are made from a configuration are not found by a host, be it one of the
  -- configuration, unless a certificate file is called like it.
  pub aisl_get_ssl_ctx-new_ssl_list :
      (cfgs : List CfgSsl) (w : W) (host : Bytes)
      → NoFile host cfgs
      → aisl_get_ssl_ctx (new_ssl_list lib cfgs w []).1 (some host) ≡ none
  unfolding aisl_get_ssl_ctx
  aisl_get_ssl_ctx-new_ssl_list cfgs w host n =
      ctx_of_host-NoHost host _ (new_ssl_list-NoHost host cfgs w [] n tt)
