-- ===== src/Types/Response.antt =====
-- include/aisl/types.h: the enumerations of the response side, with their values, and
-- aisl_http_response_to_string of src/http.c.
use aisl.Prelude.{ℕ, Bytes, codes}

-- `AislHttpResponse`
pub data HttpResponse : Type 0 where
  continue switching_protocols ok created accepted non_authoritative_information : HttpResponse
  no_content reset_content partial_content multiple_choices moved_permanently found : HttpResponse
  see_other not_modified use_proxy unused temporary_redirect bad_request unauthorized : HttpResponse
  payment_required forbidden not_found method_not_allowed not_acceptable : HttpResponse
  proxy_authentication_required request_timeout conflict gone length_required : HttpResponse
  precondition_failed request_entity_too_large request_uri_too_long : HttpResponse
  unsupported_media_type requested_range_not_satisfiable expectation_failed : HttpResponse
  internal_server_error not_implemented bad_gateway service_unavailable : HttpResponse
  gateway_timeout version_not_supported : HttpResponse

-- The number of the enumerator, which "%d" prints.
unfoldable pub response_code : HttpResponse → ℕ
response_code continue = 100
response_code switching_protocols = 101
response_code ok = 200
response_code created = 201
response_code accepted = 202
response_code non_authoritative_information = 203
response_code no_content = 204
response_code reset_content = 205
response_code partial_content = 206
response_code multiple_choices = 300
response_code moved_permanently = 301
response_code found = 302
response_code see_other = 303
response_code not_modified = 304
response_code use_proxy = 305
response_code unused = 306
response_code temporary_redirect = 307
response_code bad_request = 400
response_code unauthorized = 401
response_code payment_required = 402
response_code forbidden = 403
response_code not_found = 404
response_code method_not_allowed = 405
response_code not_acceptable = 406
response_code proxy_authentication_required = 407
response_code request_timeout = 408
response_code conflict = 409
response_code gone = 410
response_code length_required = 411
response_code precondition_failed = 412
response_code request_entity_too_large = 413
response_code request_uri_too_long = 414
response_code unsupported_media_type = 415
response_code requested_range_not_satisfiable = 416
response_code expectation_failed = 417
response_code internal_server_error = 500
response_code not_implemented = 501
response_code bad_gateway = 502
response_code service_unavailable = 503
response_code gateway_timeout = 504
response_code version_not_supported = 505

unfoldable pub aisl_http_response_to_string : HttpResponse → Bytes
aisl_http_response_to_string continue = codes "Continue"
aisl_http_response_to_string switching_protocols = codes "Switching Protocols"
aisl_http_response_to_string ok = codes "OK"
aisl_http_response_to_string created = codes "Created"
aisl_http_response_to_string accepted = codes "Accepted"
aisl_http_response_to_string non_authoritative_information = codes "Non-Authoritative Information"
aisl_http_response_to_string no_content = codes "No Content"
aisl_http_response_to_string reset_content = codes "Reset Content"
aisl_http_response_to_string partial_content = codes "Partial Content"
aisl_http_response_to_string multiple_choices = codes "Multiple Choices"
aisl_http_response_to_string moved_permanently = codes "Moved Permanently"
aisl_http_response_to_string found = codes "Found"
aisl_http_response_to_string see_other = codes "See other"
aisl_http_response_to_string not_modified = codes "Not Modified"
aisl_http_response_to_string use_proxy = codes "Use Proxy"
aisl_http_response_to_string unused = codes "(unused)"
aisl_http_response_to_string temporary_redirect = codes "Temporary Redirect"
aisl_http_response_to_string bad_request = codes "Bad Request"
aisl_http_response_to_string unauthorized = codes "Unauthorized"
aisl_http_response_to_string payment_required = codes "Payment Required"
aisl_http_response_to_string forbidden = codes "Forbidden"
aisl_http_response_to_string not_found = codes "Not Found"
aisl_http_response_to_string method_not_allowed = codes "Method Not Allowed"
aisl_http_response_to_string not_acceptable = codes "Not Acceptable"
aisl_http_response_to_string proxy_authentication_required = codes "Proxy Authentication Required"
aisl_http_response_to_string request_timeout = codes "Request Timeout"
aisl_http_response_to_string conflict = codes "Conflict"
aisl_http_response_to_string gone = codes "Gone"
aisl_http_response_to_string length_required = codes "Length Required"
aisl_http_response_to_string precondition_failed = codes "Precondition Failed"
aisl_http_response_to_string request_entity_too_large = codes "Request Entity Too Large"
aisl_http_response_to_string request_uri_too_long = codes "Request-URI Too Long"
aisl_http_response_to_string unsupported_media_type = codes "Unsupported Media Type"
aisl_http_response_to_string requested_range_not_satisfiable =
    codes "Requested Range Not Satisfiable"
aisl_http_response_to_string expectation_failed = codes "Expectation Failed"
aisl_http_response_to_string internal_server_error = codes "Internal Server Error"
aisl_http_response_to_string not_implemented = codes "Not Implemented"
aisl_http_response_to_string bad_gateway = codes "Bad Gateway"
aisl_http_response_to_string service_unavailable = codes "Service Unavailable"
aisl_http_response_to_string gateway_timeout = codes "Gateway Timeout"
aisl_http_response_to_string version_not_supported = codes "HTTP Version Not Supported"
