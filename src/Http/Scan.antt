-- ===== src/Http/Scan.antt =====
-- The loop of http_10_parse_request over a line `METHOD /path?query HTTP/x.y`.
use aisl.Prelude.{
  ℕ, suc, ◌+◌, ◌≡◌, refl, ap, ◌∙◌, Option, none, some, ◌++◌, [], ◌∷◌, not, ◌&&◌, ◌||◌, Bool, Bytes,
  length, ◌==◌, arith, true, false,
}
use aisl.Prelude.Cut.{no_nul}
use aisl.Types.{HttpVersion, http_0_9, aisl_http_version_to_string}
use aisl.Http.{Marks, unmarked, request_char, scan_request}

abbrev pub all_chars : (ℕ → Bool) → Bytes → Bool
all_chars p [] = true
all_chars p (c ∷ cs) = p c && all_chars p cs

-- A byte of a query: no NUL, no space, no colon, no line end.
abbrev pub is_query_char : ℕ → Bool
is_query_char c = not (c == 0 || c == b' ' || c == b':' || c == b'\n' || c == b'\r')

-- A byte of a path is no question mark either.
abbrev pub is_path_char : ℕ → Bool
is_path_char c = is_query_char c && not (c == b'?')

-- A byte of a method name is no slash either.
abbrev pub is_token_char : ℕ → Bool
is_token_char c = is_path_char c && not (c == b'/')

pub chars_no_nul :
    (p : ℕ → Bool)
    → ((c : ℕ) → p c ≡ true → (c == 0) ≡ false)
    → (xs : Bytes) → all_chars p xs ≡ true
    → no_nul xs ≡ true
chars_no_nul p nz [] h = refl
chars_no_nul p nz (c ∷ xs) h = ground (arith, nz c, chars_no_nul p nz xs)

-- The pointers behind the method, in the path, in the query, and behind the target.
abbrev pub after_method : ℕ → Marks
after_method e = record unmarked { method_end = some e }

abbrev pub in_target : ℕ → ℕ → Option ℕ → Marks
in_target e p q = record unmarked { method_end = some e; uri = some p; path = some p; query = q }

abbrev pub after_target : ℕ → ℕ → Option ℕ → ℕ → Marks
after_target e p q u = record (in_target e p q) { uri_end = some u }

pub scan-step :
    (c i : ℕ) (cs : Bytes) (m m' : Marks)
    → request_char c i m ≡ some m'
    → m'.newline ≡ none
    → scan_request (c ∷ cs) i m ≡ scan_request cs (i + 1) m'
unfolding scan_request
scan-step c i cs m m' e n = ground arith

-- A run of bytes that leave the pointers as they are.
pub scan_run :
    (p : ℕ → Bool) (m : Marks)
    → m.newline ≡ none
    → ((c i : ℕ) → p c ≡ true → request_char c i m ≡ some m)
    → (xs rest : Bytes) (i : ℕ) → all_chars p xs ≡ true
    → scan_request (xs ++ rest) i m ≡ scan_request rest (i + length xs) m
scan_run p m n quiet [] rest i h = ap (λ k. scan_request rest k m) (omega arith)
scan_run p m n quiet (c ∷ xs) rest i h =
    let next : i + 1 + length xs ≡ i + suc (length xs) = omega arith in
    scan-step c i (xs ++ rest) m m (quiet c i (ground arith)) n
    ∙ scan_run p m n quiet xs rest (i + 1) (ground arith)
    ∙ ap (λ k. scan_request rest k m) next

token_quiet : (c i : ℕ) → is_token_char c ≡ true → request_char c i unmarked ≡ some unmarked
unfolding request_char
token_quiet c i h = ground arith

pub path_quiet :
    (e p c i : ℕ)
    → is_path_char c ≡ true
    → request_char c i (in_target e p none) ≡ some (in_target e p none)
unfolding request_char
path_quiet e p c i h = ground arith

query_quiet :
    (e p q c i : ℕ)
    → is_query_char c ≡ true
    → request_char c i (in_target e p (some q)) ≡ some (in_target e p (some q))
unfolding request_char
query_quiet e p q c i h = ground arith

scan_version :
    (v : HttpVersion) (rest : Bytes) (e p i : ℕ) (q : Option ℕ) (u : ℕ)
    → scan_request (aisl_http_version_to_string v ++ b'\r' ∷ b'\n' ∷ rest) i (after_target e p q u)
      ≡ some
          (record (after_target e p q u) { version = some i; newline = some (i + 9) }, length rest)
unfolding aisl_http_version_to_string scan_request request_char
scan_version http_0_9 rest e p i q u = ground arith
scan_version _ rest e p i q u = ground arith

method_space : (e : ℕ) → request_char b' ' e unmarked ≡ some (after_method e)
unfolding request_char
method_space e = refl

target_slash : (e i : ℕ) → request_char b'/' i (after_method e) ≡ some (in_target e i none)
unfolding request_char
target_slash e i = refl

target_question :
    (e a i : ℕ) → request_char b'?' i (in_target e a none) ≡ some (in_target e a (some (i + 1)))
unfolding request_char
target_question e a i = refl

target_space :
    (e a i : ℕ) (q : Option ℕ) → request_char b' ' i (in_target e a q) ≡ some (after_target e a q i)
unfolding request_char
target_space e a i q = refl

-- `METHOD /`
pub scan_method :
    (name rest : Bytes)
    → all_chars is_token_char name ≡ true
    → let e = length name in
      scan_request (name ++ b' ' ∷ b'/' ∷ rest) 0 unmarked
      ≡ scan_request rest (e + 2) (in_target e (e + 1) none)
scan_method name rest h =
    let e = length name in
    let start : 0 + e ≡ e = omega arith in
    let next : e + 1 + 1 ≡ e + 2 = omega arith in
    scan_run is_token_char unmarked refl token_quiet name _ 0 h
    ∙ ap (λ k. scan_request (b' ' ∷ b'/' ∷ rest) k unmarked) start
    ∙ scan-step b' ' e _ unmarked _ (method_space e) refl
    ∙ scan-step b'/' (e + 1) rest _ _ (target_slash e (e + 1)) refl
    ∙ ap (λ k. scan_request rest k (in_target e (e + 1) none)) next

-- the text of a query, with its question mark
abbrev pub query_text : Option Bytes → Bytes
query_text none = []
query_text (some q) = b'?' ∷ q

-- where the query begins, if the path ends at `i`
abbrev pub query_start : ℕ → Option Bytes → Option ℕ
query_start i none = none
query_start i (some q) = some (i + 1)

abbrev pub IsQuery : Option Bytes → Type 0
IsQuery none = Unit {0}
IsQuery (some q) = all_chars is_query_char q ≡ true

-- The rest of the target, from any place in its path on.
scan_target :
    (e a i : ℕ) (path rest : Bytes) (query : Option Bytes)
    → all_chars is_path_char path ≡ true
    → IsQuery query
    → let u = i + length path + length (query_text query) in
      scan_request (path ++ (query_text query ++ b' ' ∷ rest)) i (in_target e a none)
      ≡ scan_request rest (u + 1) (after_target e a (query_start (i + length path) query) u)
scan_target e a i path rest none h g =
    let n = i + length path in
    let end : n ≡ n + 0 = omega arith in
    scan_run is_path_char (in_target e a none) refl (path_quiet e a) path _ i h
    ∙ scan-step b' ' n rest _ _ (target_space e a n none) refl
    ∙ ap (λ u. scan_request rest (u + 1) (after_target e a none u)) end
scan_target e a i path rest (some q) h g =
    let n = i + length path in
    let end : n + 1 + length q ≡ n + suc (length q) = omega arith in
    scan_run is_path_char (in_target e a none) refl (path_quiet e a) path _ i h
    ∙ scan-step b'?' n _ _ _ (target_question e a n) refl
    ∙ scan_run is_query_char (in_target e a (some (n + 1))) refl (query_quiet e a (n + 1)) q _
        (n + 1) g
    ∙ scan-step b' ' (n + 1 + length q) rest _ _ (target_space e a _ (some (n + 1))) refl
    ∙ ap (λ u. scan_request rest (u + 1) (after_target e a (some (n + 1)) u)) end

-- The loop over a whole line sets the pointers to the parts of the line and stops behind it.
pub scan_line :
    (name path : Bytes) (query : Option Bytes) (v : HttpVersion) (rest : Bytes)
    → all_chars is_token_char name ≡ true
    → all_chars is_path_char path ≡ true
    → IsQuery query
    → let e = length name in
      let u = e + 2 + length path + length (query_text query) in
      scan_request
        (name
          ++ b' '
            ∷ b'/'
            ∷ (path
                ++ (query_text query
                    ++ b' ' ∷ (aisl_http_version_to_string v ++ b'\r' ∷ b'\n' ∷ rest))))
        0
        unmarked
      ≡ some (
        record (after_target e (e + 1) (query_start (e + 2 + length path) query) u) {
          version = some (u + 1);
          newline = some (u + 1 + 9);
        },
        length rest,
      )
scan_line name path query v rest h g k =
    let e = length name in
    scan_method name _ h
    ∙ scan_target e (e + 1) (e + 2) path _ query g k
    ∙ scan_version v rest e (e + 1) _ (query_start (e + 2 + length path) query) _
