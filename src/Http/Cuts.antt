-- ===== src/Http/Cuts.antt =====
-- The text of a well-formed request line, and the cuts that http_10_parse_request makes in it.
use aisl.Prelude.{
  ℕ, suc, ◌+◌, ◌≡◌, refl, ◌∙◌, Option, none, some, ◌++◌, [], ◌∷◌, ◌≢◌, Bytes, length, drop, set,
  arith, true, length-append, append_assoc,
}
use aisl.Prelude.Cut.{no_nul, c_str-append, drop_past, set_three, drop_skip}
use aisl.Types.{
  HttpMethod, method_unknown, get, aisl_http_method_to_string, HttpVersion, http_0_9,
  aisl_http_version_to_string,
}
use aisl.Http.{
  Marks, unmarked, Request, scan_request, deliver, checked, cut_line, http_version_from_string,
}
use aisl.Http.Names.{http_method_round_trip}
use aisl.Http.Scan.{
  all_chars, is_path_char, is_query_char, is_token_char, query_text, query_start, IsQuery,
  after_target, scan_line, chars_no_nul,
}

method_is_token : (m : HttpMethod) → all_chars is_token_char (aisl_http_method_to_string m) ≡ true
unfolding aisl_http_method_to_string
method_is_token get = refl
method_is_token _ = refl

-- Whatever stands behind the version in the string.
version_prefix :
    (v : HttpVersion) (rest : Bytes)
    → http_version_from_string (aisl_http_version_to_string v ++ rest) ≡ some v
unfolding http_version_from_string aisl_http_version_to_string
version_prefix http_0_9 rest = refl
version_prefix _ rest = refl

abbrev pub target_text : Bytes → Option Bytes → Bytes
target_text path query = b'/' ∷ (path ++ query_text query)

abbrev pub version_text : HttpVersion → Bytes
version_text v = aisl_http_version_to_string v ++ b'\r' ∷ []

-- `METHOD /path?query HTTP/x.y\r\n` and what follows it.
abbrev pub request_text : HttpMethod → Bytes → Option Bytes → HttpVersion → Bytes → Bytes
request_text m path query v rest =
    aisl_http_method_to_string m
    ++ b' ' ∷ (target_text path query ++ b' ' ∷ (version_text v ++ b'\n' ∷ rest))

-- What the parser reads from it.
abbrev pub split_request : HttpMethod → Bytes → Option Bytes → HttpVersion → ℕ → Request
split_request m path query v left = record {
  http_method = m;
  http_version = v;
  path = b'/' ∷ path;
  query = elim query [ none ↦ [] | some q ↦ q ];
  host = none;
  left = left;
}

-- The same bytes once the parser has cut them.
abbrev pub cut_query : Option Bytes → Bytes
cut_query none = []
cut_query (some q) = 0 ∷ q

abbrev pub cut_text : HttpMethod → Bytes → Option Bytes → HttpVersion → Bytes → Bytes
cut_text m path query v rest =
    aisl_http_method_to_string m
    ++ 0 ∷ ((b'/' ∷ (path ++ cut_query query)) ++ 0 ∷ (version_text v ++ 0 ∷ rest))

pub request_text-append :
    (m : HttpMethod) (path : Bytes) (query : Option Bytes) (v : HttpVersion) (rest beyond : Bytes)
    → request_text m path query v (rest ++ beyond) ≡ request_text m path query v rest ++ beyond
request_text-append m path query v rest beyond = simp append_assoc

length-version_text : (v : HttpVersion) → length (version_text v) ≡ 9
unfolding aisl_http_version_to_string
length-version_text http_0_9 = refl
length-version_text _ = refl

version_no_nul : (v : HttpVersion) → no_nul (version_text v) ≡ true
unfolding aisl_http_version_to_string
version_no_nul http_0_9 = refl
version_no_nul _ = refl

token_no_nul : (m : HttpMethod) → no_nul (aisl_http_method_to_string m) ≡ true
unfolding aisl_http_method_to_string
token_no_nul get = refl
token_no_nul _ = refl

pub path_no_nul : (path : Bytes) → all_chars is_path_char path ≡ true → no_nul path ≡ true
path_no_nul = chars_no_nul is_path_char (λ c h. ground arith)

pub query_no_nul : (q : Bytes) → all_chars is_query_char q ≡ true → no_nul q ≡ true
query_no_nul = chars_no_nul is_query_char (λ c h. ground arith)

checked_known :
    (mem : Bytes) (marks : Marks) (m : HttpMethod) (v : HttpVersion) (path uri_end left : ℕ)
    → m ≢ method_unknown
    → checked mem marks m (some v) path uri_end left ≡ deliver mem marks m v path uri_end left
unfolding checked
checked_known mem marks method_unknown v path uri_end left h = absurd (h refl)
checked_known mem marks _ v path uri_end left h = refl

module _ (m : HttpMethod) (path : Bytes) (query : Option Bytes) (v : HttpVersion)
    (rest : Bytes) where
  abbrev pub name_end : ℕ
  name_end = length (aisl_http_method_to_string m)

  abbrev pub target_end : ℕ
  target_end = name_end + 2 + length path + length (query_text query)

  abbrev pub marks : Marks
  marks =
      record (after_target name_end (name_end + 1) (query_start (name_end + 2 + length path) query)
        target_end) { version = some (target_end + 1); newline = some (target_end + 1 + 9) }

  pub scan_text :
      all_chars is_path_char path ≡ true
      → IsQuery query
      → scan_request (request_text m path query v rest) 0 unmarked ≡ some (marks, length rest)
  scan_text h g =
      simp append_assoc
        (scan_line (aisl_http_method_to_string m) path query v rest (method_is_token m) h g)

  -- The line cut at its three ends.
  abbrev pub mem1 : Bytes
  mem1 =
      aisl_http_method_to_string m
      ++ 0 ∷ (target_text path query ++ 0 ∷ (version_text v ++ 0 ∷ rest))

  cut_ends :
      set
        (set (set (request_text m path query v rest) name_end 0) (target_end + 1 + 9) 0)
        target_end
        0
      ≡ mem1
  cut_ends =
      set_three (aisl_http_method_to_string m) (target_text path query) (version_text v) rest b' '
        b' ' b'\n' name_end target_end (target_end + 1 + 9) refl
        (omega (arith, length-append path (query_text query)))
        (omega (arith, length-append path (query_text query), length-version_text v))

  version_at : drop (target_end + 1) mem1 ≡ version_text v ++ 0 ∷ rest
  version_at =
      let tail = version_text v ++ 0 ∷ rest in
      let k : target_end + 1 ≡ name_end + suc (length (target_text path query) + 1) =
        omega (arith, length-append path (query_text query)) in
      drop_skip (aisl_http_method_to_string m) _ _ _ k
      ∙ drop_past (target_text path query) tail 0 (length (target_text path query) + 1) refl

  pub cut_line_text :
      (left : ℕ)
      → m ≢ method_unknown
      → cut_line
          (request_text m path query v rest)
          marks
          left
          (target_end + 1 + 9)
          (some name_end)
          (some (name_end + 1))
          (some target_end)
          (some (target_end + 1))
        ≡ deliver mem1 marks m v (name_end + 1) target_end left
  cut_line_text left known =
      let tail = target_text path query ++ 0 ∷ (version_text v ++ 0 ∷ rest) in
      let name = c_str-append (aisl_http_method_to_string m) tail (token_no_nul m) in
      let at_version : drop (target_end + 1) mem1 ≡ version_text v ++ 0 ∷ rest = version_at in
      let text = c_str-append (version_text v) rest (version_no_nul v) in
      unfold cut_line in
      rw
        (
          cut_ends,
          name,
          at_version,
          text,
          http_method_round_trip m known,
          version_prefix v (b'\r' ∷ []),
        )
        (checked_known mem1 marks m v (name_end + 1) target_end left known)
