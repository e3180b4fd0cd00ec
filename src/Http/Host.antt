-- ===== src/Http/Host.antt =====
-- A request line with a host part, or with a colon in its target, never comes through.
use aisl.Prelude.{
  ℕ, ◌+◌, ◌≡◌, refl, sym, ap, ◌∙◌, none, some, ◌++◌, ◌∷◌, ◌≢◌, Bytes, length, take, arith, true,
  take_exact,
}
use aisl.Http.{Marks, unmarked, Request, request, request_char, parse_request_line, scan_request}
use aisl.Http.Scan.{
  all_chars, is_path_char, is_token_char, in_target, scan_method, scan_run, scan-step, path_quiet,
}
use aisl.Http.Frame.{scan_inv}
use aisl.Http.Accepted.{parse_request_line-Scanned}

-- `host` is never cleared.
host_kept :
    (c i h : ℕ) (m m' : Marks) → m.host ≡ some h → request_char c i m ≡ some m' → m'.host ≡ some h
unfolding request_char
host_kept c i h m m' e s = ground arith

colon_host :
    (e a i : ℕ)
    → request_char b':' i (in_target e a none)
      ≡ some (record (in_target e a none) { host = some (i + 3) })
unfolding request_char
colon_host e a i = refl

-- Up to the colon.
scan_colon :
    (name path rest : Bytes)
    → all_chars is_token_char name ≡ true
    → all_chars is_path_char path ≡ true
    → let e = length name in
      let i = e + 2 + length path in
      scan_request (name ++ b' ' ∷ b'/' ∷ (path ++ b':' ∷ rest)) 0 unmarked
      ≡ scan_request rest (i + 1) (record (in_target e (e + 1) none) { host = some (i + 3) })
scan_colon name path rest h g =
    let e = length name in
    scan_method name _ h
    ∙ scan_run is_path_char (in_target e (e + 1) none) refl (path_quiet e (e + 1)) path _ (e + 2) g
    ∙ scan-step b':' (e + 2 + length path) rest _ _ (colon_host e (e + 1) _) refl

-- No request is ever read from a line with a colon in its path: `GET /a:b HTTP/1.1` is answered as
-- an error, or waits for its newline. The method is of bytes that are no NUL, space, colon, slash,
-- question mark or line end; the path begins with a slash, and up to the colon its other bytes are
-- no NUL, space, colon, question mark or line end.
pub parse_request_line_colon :
    (name path rest beyond mem' : Bytes) (r : Request)
    → all_chars is_token_char name ≡ true
    → all_chars is_path_char path ≡ true
    → let line = name ++ b' ' ∷ b'/' ∷ (path ++ b':' ∷ rest) in
      parse_request_line (line ++ beyond) (length line) ≢ (mem', request r)
parse_request_line_colon name path rest beyond mem' r h g e =
    let line = name ++ b' ' ∷ b'/' ∷ (path ++ b':' ∷ rest) in
    let s = parse_request_line-Scanned (line ++ beyond) mem' (length line) r e in
    let seen : take (length line) (line ++ beyond) ≡ line =
      take_exact (length line) line beyond refl in
    let scanned =
      sym (scan_colon name path rest h g)
      ∙ sym (ap (λ xs. scan_request xs 0 unmarked) seen)
      ∙ s.scanned in
    let i = length name + 2 + length path in
    let kept =
      scan_inv (λ m. m.host ≡ some (i + 3)) (λ c k m m'. host_kept c k (i + 3) m m') rest (i + 1) _
        s.marks s.left refl scanned in
    let gone = s.accepted.no_mark in cc

-- A request that is read never has a host part.
pub host-parse_request_line :
    (mem mem' : Bytes) (size : ℕ) (r : Request)
    → parse_request_line mem size ≡ (mem', request r)
    → r.host ≡ none
host-parse_request_line mem mem' size r e =
    (parse_request_line-Scanned mem mem' size r e).accepted.no_host
