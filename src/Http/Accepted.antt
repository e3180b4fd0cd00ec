-- ===== src/Http/Accepted.antt =====
-- What a request that http_10_parse_request delivers says of the scanned line.
use aisl.Prelude.{
  ℕ, ◌≡◌, refl, sym, ◌∙◌, inl, inr, Option, none, some, ◌∷◌, ◌≢◌, Bytes, c_str, starts_with, take,
  drop, set, arith, Option-cases, true,
}
use aisl.Http.{
  Marks, unmarked, Request, hungry, request, parse_request_line, scan_request, deliver, checked,
  cut_line, verified, http_method_from_string, http_version_from_string, bad_uri, string_at,
  cut_before,
}
use aisl.Types.{HttpMethod, method_unknown, get, HttpVersion}

-- No string begins with both prefixes.
bad_uri_always : (uri : Bytes) → bad_uri uri ≡ true
unfolding bad_uri starts_with
bad_uri_always (a ∷ b ∷ c ∷ d ∷ e ∷ rest) = ground arith
bad_uri_always _ = ground arith

-- What is known of a line from which a request was read.
pub record Accepted (m : Marks) (left : ℕ) (r : Request) : Type 0 where
  pub no_mark : m.host ≡ none
  pub no_host : r.host ≡ none
  pub left_eq : r.left ≡ left

module _ (mem' : Bytes) (r : Request) where
  deliver-Accepted :
      (mem : Bytes) (m : Marks) (method : HttpMethod) (v : HttpVersion) (path uri_end left : ℕ)
      → deliver mem m method v path uri_end left ≡ (mem', request r)
      → Accepted m left r
  unfolding deliver
  deliver-Accepted mem m method v path uri_end left e =
      ground (arith, bad_uri_always (string_at (cut_before mem m.query) m.uri))

  checked-Accepted :
      (mem : Bytes) (m : Marks) (method : HttpMethod) (v : Option HttpVersion)
      (path uri_end left : ℕ)
      → checked mem m method v path uri_end left ≡ (mem', request r)
      → Accepted m left r
  checked-Accepted mem m method_unknown v path uri_end left e = absurd (unfold checked in cc)
  checked-Accepted mem m get none path uri_end left e = absurd (unfold checked in cc)
  checked-Accepted mem m get (some v) path uri_end left e =
      deliver-Accepted mem m get v path uri_end left (unfold checked in e)
  checked-Accepted mem m method (some v) path uri_end left e =
      deliver-Accepted mem m method v path uri_end left (unfold checked in e)
  checked-Accepted mem m method none path uri_end left e = absurd (unfold checked in cc)

  cut_line-Accepted :
      (mem : Bytes) (m : Marks) (left newline : ℕ) (method_end path uri_end version : Option ℕ)
      → cut_line mem m left newline method_end path uri_end version ≡ (mem', request r)
      → Accepted m left r
  unfolding cut_line
  cut_line-Accepted mem m left newline (some e) (some p) (some u) (some v) h =
      let cut = set (set (set mem e 0) newline 0) u 0 in
      checked-Accepted cut m (http_method_from_string (c_str cut) e)
        (http_version_from_string (c_str (drop v cut))) p u left h
  cut_line-Accepted mem m left newline _ _ _ _ h = absurd (cc)

-- The pointers of a line from which a request was read.
pub record Scanned (mem : Bytes) (size : ℕ) (r : Request) : Type 0 where
  pub marks : Marks
  pub left : ℕ
  pub newline : ℕ
  pub scanned : scan_request (take size mem) 0 unmarked ≡ some (marks, left)
  pub ended : marks.newline ≡ some newline
  pub accepted : Accepted marks left r

pub verified_newline :
    (mem : Bytes) (m : Marks) (left k : ℕ)
    → m.newline ≡ some k
    → verified mem (some (m, left)) ≡ cut_line mem m left k m.method_end m.path m.uri_end m.version
unfolding verified
verified_newline mem m left k n = rw n

pub verified_hungry :
    (mem : Bytes) (m : Marks) (left : ℕ)
    → m.newline ≡ none
    → verified mem (some (m, left)) ≡ (mem, hungry)
unfolding verified
verified_hungry mem m left n = rw n

verified-Accepted :
    (mem mem' : Bytes) (r : Request) (m : Marks) (left : ℕ)
    → verified mem (some (m, left)) ≡ (mem', request r)
    → (newline : ℕ) × (m.newline ≡ some newline) × Accepted m left r
verified-Accepted mem mem' r m left e = elim (Option-cases m.newline) [
  | inl n ↦ absurd (cc (verified_hungry mem m left n))
  | inr (k, n) ↦ (
    k,
    n,
    cut_line-Accepted mem' r mem m left k m.method_end m.path m.uri_end m.version
        (sym (verified_newline mem m left k n) ∙ e),
  )
]

verified-Scanned :
    (mem mem' : Bytes) (size : ℕ) (r : Request) (s : Option (Marks × ℕ))
    → scan_request (take size mem) 0 unmarked ≡ s
    → verified mem s ≡ (mem', request r)
    → Scanned mem size r
verified-Scanned mem mem' size r none s e = absurd (unfold verified in cc)
verified-Scanned mem mem' size r (some (m, left)) s e =
    let (k, n, a) = verified-Accepted mem mem' r m left e in
    record { marks = m; left = left; newline = k; scanned = s; ended = n; accepted = a }

pub parse_request_line-Scanned :
    (mem mem' : Bytes) (size : ℕ) (r : Request)
    → parse_request_line mem size ≡ (mem', request r)
    → Scanned mem size r
parse_request_line-Scanned mem mem' size r e =
    verified-Scanned mem mem' size r _ refl (unfold parse_request_line in e)

-- Once the line is complete the answer is a request or an error.
module _ (mem' : Bytes) where
  deliver-ne-hungry :
      (mem : Bytes) (m : Marks) (method : HttpMethod) (v : HttpVersion) (path uri_end left : ℕ)
      → deliver mem m method v path uri_end left ≢ (mem', hungry)
  unfolding deliver
  deliver-ne-hungry mem m method v path uri_end left e = ground arith

  checked-ne-hungry :
      (mem : Bytes) (m : Marks) (method : HttpMethod) (v : Option HttpVersion)
      (path uri_end left : ℕ)
      → checked mem m method v path uri_end left ≢ (mem', hungry)
  checked-ne-hungry mem m method_unknown v path uri_end left e = unfold checked in cc
  checked-ne-hungry mem m get none path uri_end left e = unfold checked in cc
  checked-ne-hungry mem m get (some v) path uri_end left e =
      deliver-ne-hungry mem m get v path uri_end left (unfold checked in e)
  checked-ne-hungry mem m method (some v) path uri_end left e =
      deliver-ne-hungry mem m method v path uri_end left (unfold checked in e)
  checked-ne-hungry mem m method none path uri_end left e = unfold checked in cc

  cut_line-ne-hungry :
      (mem : Bytes) (m : Marks) (left newline : ℕ) (method_end path uri_end version : Option ℕ)
      → cut_line mem m left newline method_end path uri_end version ≢ (mem', hungry)
  unfolding cut_line
  cut_line-ne-hungry mem m left newline (some e) (some p) (some u) (some v) h =
      let cut = set (set (set mem e 0) newline 0) u 0 in
      checked-ne-hungry cut m (http_method_from_string (c_str cut) e)
        (http_version_from_string (c_str (drop v cut))) p u left h
  cut_line-ne-hungry mem m left newline _ _ _ _ h = cc

pub verified-hungry :
    (mem mem' : Bytes) (s : Option (Marks × ℕ))
    → verified mem s ≡ (mem', hungry)
    → (m : Marks) × (left : ℕ) × (s ≡ some (m, left)) × (m.newline ≡ none) × (mem' ≡ mem)
verified-hungry mem mem' none e = absurd (unfold verified in cc)
verified-hungry mem mem' (some (m, left)) e = elim (Option-cases m.newline) [
  | inl n ↦ (m, left, refl, n, cc (verified_hungry mem m left n))
  | inr (k, n) ↦ absurd (
      cut_line-ne-hungry mem' mem m left k m.method_end m.path m.uri_end m.version
        (sym (verified_newline mem m left k n) ∙ e))
]
