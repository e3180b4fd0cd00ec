-- ===== src/Handler.antt =====
-- What the handlers of examples/hello-world.c and bare/src have in common: the tests of the answers
-- of include/aisl/stream.h, and a page that is sent whole.
pub mod Answer
pub mod Page
use aisl.Prelude.{ℕ, Option, none, some, Bytes, Bool, true, false, length, ◌==◌, if◌then◌else◌}
use aisl.Types.Response.{HttpResponse}
use aisl.Api.{Reply, status, count, nothing, Program, stop, call, reject, response, write, flush}
use aisl.Client.Touch.{is_success}

-- `aisl_response(...) == AISL_SUCCESS`
unfoldable pub succeeds : Reply → Bool
succeeds (status st) = is_success st
succeeds (count n) = false
succeeds nothing = false

-- `!ret_code` and `!= -1`, of a number of bytes
unfoldable pub is_zero : Reply → Bool
is_zero (count (some n)) = n == 0
is_zero _ = false

unfoldable pub is_count : Reply → Bool
is_count (count (some n)) = true
is_count _ = false

abbrev pub flushed : {W : Type 0} → Program W
flushed = call flush (λ _. stop)

-- `aisl_response`, `aisl_write` and `aisl_flush` for a page, or else `aisl_reject`.
unfoldable pub page_served : {W : Type 0} → Bytes → Program W
page_served html = call (response HttpResponse.ok (length html)) (λ r.
    if succeeds r
    then call (write html (some (length html))) (λ n. if is_count n then flushed else reject stop)
    else reject stop)
