-- ===== src/Http/Names.antt =====
-- The table of methods of src/http.c, forwards and backwards.
use aisl.Prelude.{
  ℕ, ◌≡◌, refl, inl, inr, [], ◌∷◌, ◌≢◌, List, Bytes, bytes_eq, bytes_eq_iff, length, Bool-cases,
}
use aisl.Types.{HttpMethod, method_unknown, aisl_http_method_to_string}
use aisl.Http.{first_match, methods_of_length, http_method_from_string}

-- The table of methods read back: the name of every method but the unknown one gives the method.
pub http_method_round_trip :
    (m : HttpMethod)
    → m ≢ method_unknown
    → http_method_from_string (aisl_http_method_to_string m) (length (aisl_http_method_to_string m))
      ≡ m
unfolding http_method_from_string aisl_http_method_to_string bytes_eq
http_method_round_trip method_unknown h = absurd (h refl)
http_method_round_trip _ h = refl

first_match_sound :
    (s : Bytes) (ms : List HttpMethod)
    → first_match s ms ≢ method_unknown
    → s ≡ aisl_http_method_to_string (first_match s ms)
unfolding first_match
first_match_sound s [] h = absurd (h refl)
first_match_sound s (m ∷ ms) h = elim (Bool-cases (bytes_eq s (aisl_http_method_to_string m))) [
  | inl same ↦ rw same ((bytes_eq_iff s (aisl_http_method_to_string m)).0 same)
  | inr differs ↦ rw differs (first_match_sound s ms (rw differs at h))
]

-- Whatever method but the unknown one is read, the string was its name.
pub http_method_from_string_sound :
    (s : Bytes) (n : ℕ)
    → http_method_from_string s n ≢ method_unknown
    → s ≡ aisl_http_method_to_string (http_method_from_string s n)
unfolding http_method_from_string
http_method_from_string_sound s n h = first_match_sound s (methods_of_length n) h
