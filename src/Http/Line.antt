-- ===== src/Http/Line.antt =====
-- A well-formed request line is split at exactly its parts.
use aisl.Prelude.{
  ℕ, suc, ◌+◌, ◌-◌, ◌≡◌, refl, ap, ◌∙◌, Option, none, some, ◌++◌, [], ◌∷◌, ◌≢◌, Bytes, length, take,
  drop, set, arith, true, length-append, take_exact, append_assoc, append-nil,
}
use aisl.Prelude.Cut.{
  c_str-append, set_skip, set_here, drop_past, drop_skip, drop_second, c_str_nul,
}
use aisl.Types.{HttpMethod, method_unknown, aisl_http_method_to_string, HttpVersion}
use aisl.Http.{request, parse_request_line, deliver}
use aisl.Http.Cuts.{
  request_text, cut_text, split_request, version_text, request_text-append, mem1, marks, target_end,
  scan_text, cut_line_text, path_no_nul, query_no_nul,
}
use aisl.Http.Scan.{all_chars, is_path_char, is_query_char, IsQuery}

module _ (m : HttpMethod) (path : Bytes) (v : HttpVersion) (rest : Bytes) where
  deliver_path :
      (left : ℕ)
      → all_chars is_path_char path ≡ true
      → deliver
          (mem1 m path none v rest)
          (marks m path none v rest)
          m
          v
          (length (aisl_http_method_to_string m) + 1)
          (target_end m path none v rest)
          left
        ≡ (
          cut_text m path none v rest,
          request (record {
            http_method = m;
            http_version = v;
            path = b'/' ∷ path;
            query = [];
            host = none;
            left = left;
          }),
        )
  deliver_path left h =
      let name = aisl_http_method_to_string m in
      let tail = version_text v ++ 0 ∷ rest in
      let full = b'/' ∷ path in
      let open_end = append-nil path in
      let path_at : drop (length name + 1) (mem1 m path none v rest) ≡ full ++ 0 ∷ tail =
        drop_past name ((b'/' ∷ (path ++ [])) ++ 0 ∷ tail) 0 (length name + 1) refl
        ∙ ap (λ p. (b'/' ∷ p) ++ 0 ∷ tail) open_end in
      let query_at : drop (target_end m path none v rest) (mem1 m path none v rest) ≡ 0 ∷ tail =
        drop_second name (b'/' ∷ (path ++ [])) (0 ∷ tail) 0 _
          (omega (arith, length-append path [])) in
      unfold deliver in
      rw (path_at, query_at, c_str_nul tail, c_str-append full tail (path_no_nul path h))

module _ (m : HttpMethod) (path q : Bytes) (v : HttpVersion) (rest : Bytes) where
  question_cut :
      set
        (mem1 m path (some q) v rest)
        (length (aisl_http_method_to_string m) + 2 + length path + 1 - 1)
        0
      ≡ cut_text m path (some q) v rest
  question_cut =
      let name = aisl_http_method_to_string m in
      let tail = version_text v ++ 0 ∷ rest in
      let cut : set ((path ++ b'?' ∷ q) ++ 0 ∷ tail) (length path) 0 ≡ (path ++ 0 ∷ q) ++ 0 ∷ tail =
        rw (append_assoc path (b'?' ∷ q) (0 ∷ tail), append_assoc path (0 ∷ q) (0 ∷ tail))
          (set_here path (q ++ 0 ∷ tail) b'?' (length path) 0 refl) in
      set_skip name _ _ (suc (suc (length path))) 0 (omega arith)
      ∙ ap (λ r. name ++ 0 ∷ b'/' ∷ r) cut

  deliver_query :
      (left : ℕ)
      → all_chars is_path_char path ≡ true
      → all_chars is_query_char q ≡ true
      → deliver
          (mem1 m path (some q) v rest)
          (marks m path (some q) v rest)
          m
          v
          (length (aisl_http_method_to_string m) + 1)
          (target_end m path (some q) v rest)
          left
        ≡ (
          cut_text m path (some q) v rest,
          request (record {
            http_method = m;
            http_version = v;
            path = b'/' ∷ path;
            query = q;
            host = none;
            left = left;
          }),
        )
  deliver_query left h g =
      let name = aisl_http_method_to_string m in
      let tail = version_text v ++ 0 ∷ rest in
      let full = b'/' ∷ path in
      let after = cut_text m path (some q) v rest in
      let path_at : drop (length name + 1) after ≡ full ++ 0 ∷ (q ++ 0 ∷ tail) =
        drop_past name ((b'/' ∷ (path ++ 0 ∷ q)) ++ 0 ∷ tail) 0 (length name + 1) refl
        ∙ ap (◌∷◌ b'/') (append_assoc path (0 ∷ q) (0 ∷ tail)) in
      let query_at : drop (length name + 2 + length path + 1) after ≡ q ++ 0 ∷ tail =
        drop_skip name _ _ (suc (suc (length path + 1))) (omega arith)
        ∙ ap (drop (length path + 1)) (append_assoc path (0 ∷ q) (0 ∷ tail))
        ∙ drop_past path (q ++ 0 ∷ tail) 0 (length path + 1) refl in
      unfold deliver in
      rw (
        question_cut,
        path_at,
        query_at,
        c_str-append full (q ++ 0 ∷ tail) (path_no_nul path h),
        c_str-append q tail (query_no_nul q g),
      )

deliver_text :
    (m : HttpMethod) (path : Bytes) (query : Option Bytes) (v : HttpVersion) (rest : Bytes)
    (left : ℕ)
    → all_chars is_path_char path ≡ true
    → IsQuery query
    → deliver
        (mem1 m path query v rest)
        (marks m path query v rest)
        m
        v
        (length (aisl_http_method_to_string m) + 1)
        (target_end m path query v rest)
        left
      ≡ (cut_text m path query v rest, request (split_request m path query v left))
deliver_text m path none v rest left h g = deliver_path m path v rest left h
deliver_text m path (some q) v rest left h g = deliver_query m path q v rest left h g

-- `http_10_parse_request` splits a request line at exactly its parts. For each known method, a path
-- and a query of bytes that are no NUL, space, colon or line end (nor, in the path, a question
-- mark), and each version: from the text of the line, with any bytes behind it in and past the
-- input, it reads the method, the path, the query (empty if there is none) and the version, no
-- host, and leaves the bytes behind the line; memory changes at the ends of the parts only.
pub parse_request_line-request_text :
    (m : HttpMethod) (path : Bytes) (query : Option Bytes) (v : HttpVersion) (rest beyond : Bytes)
    → m ≢ method_unknown
    → all_chars is_path_char path ≡ true
    → IsQuery query
    → parse_request_line
        (request_text m path query v (rest ++ beyond))
        (length (request_text m path query v rest))
      ≡ (
        cut_text m path query v (rest ++ beyond),
        request (split_request m path query v (length rest)),
      )
parse_request_line-request_text m path query v rest beyond known h g =
    let text = request_text m path query v rest in
    let seen : take (length text) (request_text m path query v (rest ++ beyond)) ≡ text =
      rw (request_text-append m path query v rest beyond)
        (take_exact (length text) text beyond refl) in
    unfold parse_request_line in
    rw (seen, scan_text m path query v rest h g)
      (cut_line_text m path query v (rest ++ beyond) (length rest) known
        ∙ deliver_text m path query v (rest ++ beyond) (length rest) h g)
