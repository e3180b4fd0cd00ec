-- ===== src/Types.antt =====
-- include/aisl/types.h: the enumerations that the library passes to its user, and their names
-- (src/types.c, and the tables at the end of src/http.c).
pub mod Response
use aisl.Prelude.{ℕ, ◌^◌, ◌-◌, Bytes, codes}

-- `AislStatus`; the first four are negative.
pub data Status : Type 0 where
  input_error extcall_error syscall_error malloc_error success idle : Status

unfoldable pub aisl_status_to_string : Status → Bytes
aisl_status_to_string input_error = codes "AISL_INPUT_ERROR"
aisl_status_to_string extcall_error = codes "AISL_EXTCALL_ERROR"
aisl_status_to_string syscall_error = codes "AISL_SYSCALL_ERROR"
aisl_status_to_string malloc_error = codes "AISL_MALLOC_ERROR"
aisl_status_to_string success = codes "AISL_SUCCESS"
aisl_status_to_string idle = codes "AISL_IDLE"

-- `AislHttpVersion`
pub data HttpVersion : Type 0 where
  http_0_9 http_1_0 http_1_1 http_2_0 : HttpVersion

unfoldable pub aisl_http_version_to_string : HttpVersion → Bytes
aisl_http_version_to_string http_0_9 = codes "HTTP/0.9"
aisl_http_version_to_string http_1_0 = codes "HTTP/1.0"
aisl_http_version_to_string http_1_1 = codes "HTTP/1.1"
aisl_http_version_to_string http_2_0 = codes "HTTP/2.0"

-- `AislHttpMethod`
pub data HttpMethod : Type 0 where
  method_unknown get put post head trace delete options connect pri : HttpMethod

unfoldable pub aisl_http_method_to_string : HttpMethod → Bytes
aisl_http_method_to_string get = codes "GET"
aisl_http_method_to_string put = codes "PUT"
aisl_http_method_to_string post = codes "POST"
aisl_http_method_to_string head = codes "HEAD"
aisl_http_method_to_string trace = codes "TRACE"
aisl_http_method_to_string delete = codes "DELETE"
aisl_http_method_to_string options = codes "OPTIONS"
aisl_http_method_to_string connect = codes "CONNECT"
aisl_http_method_to_string pri = codes "PRI"
aisl_http_method_to_string method_unknown = codes ""

-- `AislEvent`
pub data EventCode : Type 0 where
  server_ready server_error client_connect client_disconnect : EventCode
  stream_open stream_header stream_input stream_request : EventCode
  stream_output stream_close stream_error : EventCode

-- the number of the enumerator
unfoldable pub event_number : EventCode → ℕ
event_number server_ready = 100
event_number server_error = 190
event_number client_connect = 200
event_number client_disconnect = 210
event_number stream_open = 300
event_number stream_header = 310
event_number stream_input = 320
event_number stream_request = 330
event_number stream_output = 340
event_number stream_close = 350
event_number stream_error = 390

unfoldable pub aisl_event_to_string : EventCode → Bytes
aisl_event_to_string server_ready = codes "SERVER READY"
aisl_event_to_string server_error = codes "SERVER ERROR"
aisl_event_to_string client_connect = codes "CLIENT CONNECT"
aisl_event_to_string client_disconnect = codes "CLIENT DISCONNECT"
aisl_event_to_string stream_open = codes "STREAM OPEN"
aisl_event_to_string stream_header = codes "STREAM HEADER"
aisl_event_to_string stream_input = codes "STREAM INPUT"
aisl_event_to_string stream_request = codes "STREAM REQUEST"
aisl_event_to_string stream_output = codes "STREAM OUTPUT"
aisl_event_to_string stream_close = codes "STREAM CLOSE"
aisl_event_to_string stream_error = codes "STREAM ERROR"

-- `AISL_AUTO_LENGTH`, `~0` taken to uint64_t
abbrev pub auto_length : ℕ
auto_length = 2 ^ 64 - 1
