-- ===== src/Http/Extent.antt =====
-- http_10_parse_request of src/http.c writes inside the input only.
use aisl.Http.Accepted.{verified_hungry, verified_newline}
use aisl.Prelude.{
  Option-cases, inl, inr, take, ℕ, ◌-◌, ◌≡◌, refl, ap, ◌∙◌, Option, none, some, Bytes, length, set,
  length-set, if◌then◌else◌, Bool, true, false, is_some, ◌&&◌,
}
use aisl.Types.{HttpMethod, method_unknown, get, HttpVersion}
use aisl.Http.{
  Marks, unmarked, Parsed, parse_request_line, scan_request, deliver, checked, cut_line, verified,
  cut_before, bad_uri, string_at,
}

length-cut_before : (mem : Bytes) (o : Option ℕ) → length (cut_before mem o) ≡ length mem
length-cut_before mem none = refl
length-cut_before mem (some p) = length-set mem (p - 1) 0

length-if :
    (t : Bool) (a b : Bytes × Parsed) (n : ℕ)
    → length a.0 ≡ n
    → length b.0 ≡ n
    → length (if t then a else b).0 ≡ n
length-if true a b n h g = h
length-if false a b n h g = g

length-deliver :
    (mem : Bytes) (m : Marks) (method : HttpMethod) (v : HttpVersion) (path uri_end left : ℕ)
    → length (deliver mem m method v path uri_end left).0 ≡ length mem
unfolding deliver
length-deliver mem m method v path uri_end left =
    let second = length-cut_before mem m.query in
    let port = if is_some m.host then m.port else none in
    length-if (is_some m.host && bad_uri (string_at (cut_before mem m.query) m.uri)) _ _
      (length mem) second (length-cut_before (cut_before mem m.query) port ∙ second)

length-checked :
    (mem : Bytes) (m : Marks) (method : HttpMethod) (v : Option HttpVersion) (path uri_end left : ℕ)
    → length (checked mem m method v path uri_end left).0 ≡ length mem
length-checked mem m method_unknown v path uri_end left = unfold checked in refl
length-checked mem m get none path uri_end left = unfold checked in refl
length-checked mem m get (some v) path uri_end left =
    unfold checked in length-deliver mem m get v path uri_end left
length-checked mem m method (some v) path uri_end left =
    unfold checked in length-deliver mem m method v path uri_end left
length-checked mem m method none path uri_end left = unfold checked in refl

length-cut_line :
    (mem : Bytes) (m : Marks) (left newline : ℕ) (method_end path uri_end version : Option ℕ)
    → length (cut_line mem m left newline method_end path uri_end version).0 ≡ length mem
unfolding cut_line
length-cut_line mem m left newline (some e) (some p) (some u) (some v) =
    let mem1 = set mem e 0 in
    let mem2 = set mem1 newline 0 in
    length-checked (set mem2 u 0) m _ _ p u left
    ∙ length-set mem2 u 0
    ∙ length-set mem1 newline 0
    ∙ length-set mem e 0
length-cut_line mem m left newline _ _ _ _ = refl

length-verified : (mem : Bytes) (s : Option (Marks × ℕ)) → length (verified mem s).0 ≡ length mem
length-verified mem none = unfold verified in refl
length-verified mem (some (m, left)) = elim (Option-cases m.newline) [
  | inl n ↦ ap (λ (r : Bytes × Parsed). length r.0) (verified_hungry mem m left n)
  | inr (k, n) ↦
      ap (λ (r : Bytes × Parsed). length r.0) (verified_newline mem m left k n)
      ∙ length-cut_line mem m left k m.method_end m.path m.uri_end m.version
]

-- The request line's parser keeps the extent of the memory.
pub length-parse_request_line :
    (mem : Bytes) (size : ℕ) → length (parse_request_line mem size).0 ≡ length mem
unfolding parse_request_line
length-parse_request_line mem size = length-verified mem (scan_request (take size mem) 0 unmarked)
