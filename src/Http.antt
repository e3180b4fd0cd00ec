-- ===== src/Http.antt =====
-- src/http.c: the request line and the header lines of HTTP/1.x, split in place in the input
-- buffer. Memory is the list of the bytes from `data` on; a pointer into it is an offset, NULL is
-- `none`. What the parser hands to the stream is the result here; Client/Parse raises the events.
pub mod Header
pub mod Line
pub mod Names
pub mod Cuts
pub mod Scan
pub mod Extent
pub mod Frame
pub mod Accepted
pub mod Host
mod Tests
use aisl.Prelude.{
  ℕ, ◌+◌, ◌-◌, Bool, true, false, not, ◌&&◌, ◌||◌, Option, none, some, List, [], ◌∷◌, Bytes, codes,
  length, take, drop, set, c_str, bytes_eq, starts_with, ltb, ◌==◌, if◌then◌else◌, is_some,
}
use aisl.Types.{
  HttpMethod, method_unknown, get, put, post, head, trace, delete, options, connect, pri,
  aisl_http_method_to_string, HttpVersion, http_0_9, http_1_0, http_1_1, http_2_0,
}

-- `methods[]`, the candidates of each length
methods_of_length : ℕ → List HttpMethod
methods_of_length length =
    if length == 3
    then get ∷ put ∷ pri ∷ []
    else if length == 4
    then post ∷ head ∷ []
    else if length == 5
    then trace ∷ []
    else if length == 6
    then delete ∷ []
    else if length == 7
    then options ∷ connect ∷ []
    else []

-- the loop over the candidates
first_match : Bytes → List HttpMethod → HttpMethod
first_match method [] = method_unknown
first_match method (m ∷ ms) =
    if bytes_eq method (aisl_http_method_to_string m) then m else first_match method ms

unfoldable pub http_method_from_string : Bytes → ℕ → HttpMethod
unfolding methods_of_length first_match
http_method_from_string method length = first_match method (methods_of_length length)

unfoldable pub http_version_from_string : Bytes → Option HttpVersion
unfolding starts_with
http_version_from_string s =
    if starts_with (codes "HTTP/") s
    then (let v = drop 5 s in
        if starts_with (codes "0.9") v
        then some http_0_9
        else if starts_with (codes "1.0") v
        then some http_1_0
        else if starts_with (codes "1.1") v
        then some http_1_1
        else if starts_with (codes "2.0") v
        then some http_2_0
        else none)
    else none

-- The pointers that the loop of `http_10_parse_request` sets; `method` is offset 0.
pub record Marks : Type 0 where
  pub uri : Option ℕ
  pub uri_end : Option ℕ
  pub host : Option ℕ
  pub port : Option ℕ
  pub path : Option ℕ
  pub query : Option ℕ
  pub version : Option ℕ
  pub newline : Option ℕ
  pub method_end : Option ℕ

abbrev pub unmarked : Marks
unmarked = record {
  uri = none;
  uri_end = none;
  host = none;
  port = none;
  path = none;
  query = none;
  version = none;
  newline = none;
  method_end = none;
}

-- `data > host`, where NULL is below every pointer
abbrev pub above : ℕ → Option ℕ → Bool
above i none = true
above i (some h) = ltb h i

-- `version && test(data - version)`
abbrev pub since : Option ℕ → ℕ → (ℕ → Bool) → Bool
since none i test = false
since (some v) i test = test (i - v)

on_space : ℕ → Marks → Marks
on_space i m =
    if not (is_some m.method_end)
    then record m { method_end = some i }
    else if is_some m.path && not (is_some m.uri_end)
    then record m { uri_end = some i }
    else m

on_colon : ℕ → Marks → Option Marks
on_colon i m =
    if is_some m.uri && not (is_some m.host)
    then some (record m { host = some (i + 3) })
    else if is_some m.host && not (is_some m.port)
    then some (record m { port = some (i + 1) })
    else if is_some m.version
    then none
    else some m

on_slash : ℕ → Marks → Option Marks
on_slash i m =
    if not (is_some m.path) && above i m.host
    then some (record m { path = some i; uri = if is_some m.uri then m.uri else some i })
    else if since m.version i (λ d. not (d == 4))
    then none
    else some m

on_question : ℕ → Marks → Option Marks
on_question i m =
    if not (is_some m.query)
    then some (record m { query = some (i + 1) })
    else if is_some m.version
    then none
    else some m

on_other : ℕ → Marks → Option Marks
on_other i m =
    if not (is_some m.uri) && is_some m.method_end
    then some (record m { uri = some i })
    else if not (is_some m.version) && is_some m.uri_end
    then some (record m { version = some i })
    else if since m.version i (λ d. ltb 7 d)
    then none
    else some m

-- One round of the loop; `none` is HTTP_PARSER_ERROR.
unfoldable pub request_char : ℕ → ℕ → Marks → Option Marks
unfolding on_space on_colon on_slash on_question on_other
request_char c i m =
    if c == b' '
    then some (on_space i m)
    else if c == b':'
    then on_colon i m
    else if c == b'/'
    then on_slash i m
    else if c == b'?'
    then on_question i m
    else if c == b'\n'
    then some (record m { newline = some i })
    else if c == b'\r'
    then (if is_some m.version then some m else none)
    else on_other i m

-- The loop over the `size` bytes: the pointers, and the bytes left behind the newline.
unfoldable pub scan_request : Bytes → ℕ → Marks → Option (Marks × ℕ)
scan_request [] i m = some (m, 0)
scan_request (c ∷ cs) i m = elim (request_char c i m) [
  | none ↦ none
  | some m' ↦ elim m'.newline [ some _ ↦ some (m', length cs) | none ↦ scan_request cs (i + 1) m' ]
]

-- What is passed to `aisl_stream_set_request` and `aisl_stream_set_header`.
pub record Request : Type 0 where
  pub http_method : HttpMethod
  pub http_version : HttpVersion
  pub path : Bytes
  pub query : Bytes
  pub host : Option Bytes
  pub left : ℕ

pub data Parsed : Type 0 where
  hungry error : Parsed
  request : Request → Parsed

-- the C string at a pointer
abbrev pub string_at : Bytes → Option ℕ → Bytes
string_at mem none = []
string_at mem (some p) = c_str (drop p mem)

-- `if (port) *(port - 1) = 0;`
abbrev pub cut_before : Bytes → Option ℕ → Bytes
cut_before mem none = mem
cut_before mem (some p) = set mem (p - 1) 0

-- `strncmp(uri, "http://", 7) || strncmp(uri, "https://", 8)`
bad_uri : Bytes → Bool
bad_uri uri = not (starts_with (codes "http://") uri) || not (starts_with (codes "https://") uri)

-- Behind the checks of method and version, with the line cut at its parts.
pub deliver : Bytes → Marks → HttpMethod → HttpVersion → ℕ → ℕ → ℕ → Bytes × Parsed
deliver mem1 m method version path uri_end left =
    let mem2 = cut_before mem1 m.query in
    let mem3 = cut_before mem2 (if is_some m.host then m.port else none) in
    let query = if is_some m.query then m.query else some uri_end in
    if is_some m.host && bad_uri (string_at mem2 m.uri) then (mem2, error) else (
      mem3,
      request (record {
        http_method = method;
        http_version = version;
        path = c_str (drop path mem3);
        query = string_at mem3 query;
        host = if is_some m.host then some (string_at mem3 m.host) else none;
        left = left;
      }),
    )

checked : Bytes → Marks → HttpMethod → Option HttpVersion → ℕ → ℕ → ℕ → Bytes × Parsed
unfolding deliver
checked mem1 m method_unknown v path uri_end left = (mem1, error)
checked mem1 m method none path uri_end left = (mem1, error)
checked mem1 m method (some v) path uri_end left = deliver mem1 m method v path uri_end left

-- `if (!method_end || !path || !uri_end || !version)`, and the line cut at its ends
pub cut_line : Bytes → Marks → ℕ → ℕ → Option ℕ → Option ℕ → Option ℕ → Option ℕ → Bytes × Parsed
unfolding checked
cut_line mem m left newline (some method_end) (some path) (some uri_end) (some version) =
    let mem1 = set (set (set mem method_end 0) newline 0) uri_end 0 in
    checked mem1 m (http_method_from_string (c_str mem1) method_end)
      (http_version_from_string (c_str (drop version mem1))) path uri_end left
cut_line mem m left newline _ _ _ _ = (mem, error)

pub verified : Bytes → Option (Marks × ℕ) → Bytes × Parsed
unfolding cut_line
verified mem none = (mem, error)
verified mem (some (m, left)) = elim m.newline [
  | none ↦ (mem, hungry)
  | some newline ↦ cut_line mem m left newline m.method_end m.path m.uri_end m.version
]

-- `http_10_parse_request` on the `size` bytes at the head of `mem`
unfoldable pub parse_request_line : Bytes → ℕ → Bytes × Parsed
unfolding verified bad_uri
parse_request_line mem size = verified mem (scan_request (take size mem) 0 unmarked)
