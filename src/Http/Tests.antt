-- ===== src/Http/Tests.antt =====
-- Runs of the parsers of src/http.c, and the theorems about them at concrete lines.
use aisl.Prelude.{
  ◌<◌, ◌≡◌, refl, ap, none, some, ◌++◌, [], ◌≢◌, Bytes, codes, c_str, bytes_eq, to_lower, length,
  take,
}
use aisl.Types.{get, post, http_1_0, http_1_1, aisl_http_method_to_string}
use aisl.Http.{
  Request, hungry, error, request, parse_request_line, request_char, scan_request,
  http_method_from_string, http_version_from_string,
}
use aisl.Http.Cuts.{request_text, cut_text, split_request}
use aisl.Http.Line.{parse_request_line-request_text}
use aisl.Http.Frame.{FirstLine, left-parse_request_line}
use aisl.Http.Host.{parse_request_line_colon, host-parse_request_line}
use aisl.Http.Header.{
  field, end_of_headers, parse_header_line, scan_header, header_char, header_byte,
}
use aisl.Http.Header.Field.{header_text, cut_header_text, parse_header_line-header_text}
use aisl.Http.Header.Progress.{Framed, parse_header_line-Framed}

abbrev line : Bytes
line = codes "GET /a/b?x=1 HTTP/1.1\r\nHost"

abbrev line_request : Request
line_request = record {
  http_method = get;
  http_version = http_1_1;
  path = codes "/a/b";
  query = codes "x=1";
  host = none;
  left = 4;
}

parse_line : (parse_request_line line 27).1 ≡ request line_request
unfolding parse_request_line scan_request request_char http_method_from_string
    http_version_from_string c_str bytes_eq aisl_http_method_to_string
parse_line = refl

-- A colon in the path, and an absolute URI.
parse_colon :
    ((parse_request_line (codes "GET /a:b HTTP/1.1\r\n") 19).1 ≡ error)
    × ((parse_request_line (codes "GET http://h/ HTTP/1.1\r\n") 24).1 ≡ error)
unfolding parse_request_line scan_request request_char http_method_from_string
    http_version_from_string c_str bytes_eq aisl_http_method_to_string
parse_colon = (refl, refl)

parse_headers :
    ((parse_header_line (codes "Content-Length:  12 3 \r\nrest") 28).1
      ≡ field (codes "content-length") (codes "12 3") 4)
    × ((parse_header_line (codes "\r\nrest") 6).1 ≡ end_of_headers 4)
    × ((parse_header_line (codes ":x\n") 3).1 ≡ field [] (codes "x") 0)
unfolding parse_header_line scan_header header_char header_byte c_str to_lower
parse_headers = (refl, refl, refl)

get-ne-unknown : get ≢ aisl.Types.method_unknown
get-ne-unknown e = cc

parse_request_line-request_text_example :
    parse_request_line
      (request_text get (codes "a") (some (codes "x")) http_1_1 (codes "HoZ"))
      (length (request_text get (codes "a") (some (codes "x")) http_1_1 (codes "Ho")))
    ≡ (
      cut_text get (codes "a") (some (codes "x")) http_1_1 (codes "HoZ"),
      request (split_request get (codes "a") (some (codes "x")) http_1_1 2),
    )
parse_request_line-request_text_example =
    parse_request_line-request_text get (codes "a") (some (codes "x")) http_1_1 (codes "Ho")
      (codes "Z") get-ne-unknown refl refl

parse_line_whole :
    parse_request_line line 27 ≡ ((parse_request_line line 27).0, request line_request)
parse_line_whole = ap (λ r. ((parse_request_line line 27).0, r)) parse_line

left-parse_request_line_example : FirstLine (take 27 line) 4 × (4 < length (take 27 line))
left-parse_request_line_example =
    left-parse_request_line line (parse_request_line line 27).0 27 line_request parse_line_whole

parse_part : parse_request_line (codes "GET /") 5 ≡ (codes "GET /", hungry)
unfolding parse_request_line scan_request request_char
parse_part = refl

parse_request_line_colon_example :
    parse_request_line
      (codes "GET /a:b HTTP/1.1\r\n" ++ codes "Z")
      (length (codes "GET /a:b HTTP/1.1\r\n"))
    ≢ ([], request line_request)
parse_request_line_colon_example =
    parse_request_line_colon (codes "GET") (codes "a") (codes "b HTTP/1.1\r\n") (codes "Z") []
      line_request refl refl

host-parse_request_line_example : line_request.host ≡ none
host-parse_request_line_example =
    host-parse_request_line line (parse_request_line line 27).0 27 line_request parse_line_whole

parse_header_line-header_text_example :
    parse_header_line
      (header_text (codes "Host") 1 (codes "a b") 2 (codes "XYZ"))
      (length (header_text (codes "Host") 1 (codes "a b") 2 (codes "X")))
    ≡ (
      cut_header_text (codes "Host") 1 (codes "a b") 2 (codes "XYZ"),
      field (codes "host") (codes "a b") 1,
    )
unfolding to_lower
parse_header_line-header_text_example =
    parse_header_line-header_text (codes "Host") (codes "a b") (codes "X") (codes "YZ") 1 2 refl
      refl

parse_header_line-Framed_example :
    Framed (take 3 (codes "A:b")) (parse_header_line (codes "A:b") 3).1
parse_header_line-Framed_example = parse_header_line-Framed (codes "A:b") 3
