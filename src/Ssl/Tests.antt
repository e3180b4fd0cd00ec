-- ===== src/Ssl/Tests.antt =====
-- A concrete OpenSSL, and the theorems about src/ssl.c at concrete contexts.
use aisl.Prelude.{
  ℕ, suc, ◌≡◌, refl, Option, none, some, [], ◌∷◌, Bool, true, false, codes, arith, to_lower,
}
use aisl.StrUtils.{str_cmpi}
use aisl.Ssl.{OpenSsl, CfgSsl, aisl_get_ssl_ctx, new_ssl_list}
use aisl.Ssl.Laws.{NoFile, aisl_get_ssl_ctx-new_ssl_list}

abbrev pub is_given : Option ℕ → Bool
is_given none = false
is_given (some ctx) = true

-- Every file is found, and there is memory for everything; the next context is the world.
abbrev pub willing : OpenSsl ℕ
willing = record {
  allocate = λ w. (w, true);
  ctx_new = λ w. (suc w, some w);
  use_certificate_file = λ w ctx name. (w, true);
  use_private_key_file = λ w ctx name. (w, true);
  ctx_free = λ w ctx. w;
  ssl_new = λ w ctx. (w, is_given ctx);
  ssl_new_null = λ w. refl;
}

-- The same in any world, with one context.
abbrev pub willing_always : {W : Type 0} → OpenSsl W
willing_always = record {
  allocate = λ w. (w, true);
  ctx_new = λ w. (w, some 1);
  use_certificate_file = λ w ctx name. (w, true);
  use_private_key_file = λ w ctx name. (w, true);
  ctx_free = λ w ctx. w;
  ssl_new = λ w ctx. (w, is_given ctx);
  ssl_new_null = λ w. refl;
}

abbrev site : CfgSsl
site = record { host = codes "site"; key_file = codes "s.key"; crt_file = codes "s.crt" }

site-NoFile : NoFile (codes "site") (site ∷ [])
unfolding str_cmpi to_lower
site-NoFile = (λ e. omega (arith, e), tt)

aisl_get_ssl_ctx-new_ssl_list_example :
    aisl_get_ssl_ctx (new_ssl_list willing (site ∷ []) 0 []).1 (some (codes "site")) ≡ none
aisl_get_ssl_ctx-new_ssl_list_example =
    aisl_get_ssl_ctx-new_ssl_list willing (site ∷ []) 0 (codes "site") site-NoFile
