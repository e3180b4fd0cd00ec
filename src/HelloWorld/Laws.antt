-- ===== src/HelloWorld/Laws.antt =====
-- What the server of examples/hello-world.c answers.
use aisl.Prelude.{ℕ, ◌≡◌, ◌≢◌, refl, Option, List, ◌++◌, Bytes, true, length}
use aisl.Types.{stream_request, http_1_0, HttpVersion, HttpMethod, method_unknown}
use aisl.Stream.{state_idle}
use aisl.Stream.Request.{Event}
use aisl.Api.{carrying, event_code, System}
use aisl.Handler.Answer.{IsFresh, Replies, Serves, aisl_client_parse-Replies}
use aisl.Client.Effects.{asked_keepalive}
use aisl.Client.{Client, Session, chosen, run, raise_within, raise}
use aisl.Client.Fields.{LooksOn}
use aisl.Client.Lines.{Line, ArePlain, headers_text}
use aisl.Client.Parse.{aisl_client_parse}
use aisl.Client.Opening.{open_event, Opens}
use aisl.Http.Cuts.{request_text}
use aisl.Http.Scan.{all_chars, is_path_char, IsQuery}
use aisl.HelloWorld.{hello_html, event_line, is_request, hello_world, with_hello}

module _ {W : Type 0} (print : Bytes → W → W) (sys : System W) where
  -- The handler only prints a line for an event other than STREAM_REQUEST.
  abbrev heard : Event → W → W
  heard e w = print (event_line (event_code (carrying e))) w

  -- No condition on the world or the user's pointer.
  abbrev Any : W → ℕ → Type 0
  Any w p = Unit {0}

  with_hello-LooksOn : LooksOn (with_hello print sys) heard Any
  unfolding raise raise_within chosen run hello_world is_request event_code
  with_hello-LooksOn key value s h = (refl, tt)

  with_hello-Opens :
      (m : HttpMethod) (path : Bytes) (query : Option Bytes) (v : HttpVersion)
      → Opens m path query v
          (with_hello print sys)
          Any
          (λ w. Unit {0})
          (heard (open_event m path query v))
          (λ w p. p)
  unfolding raise raise_within chosen run hello_world is_request event_code
  with_hello-Opens m path query v s h = (refl, tt)

  with_hello-Serves :
      Serves hello_html (with_hello print sys) Any (λ w. print (event_line stream_request) w)
  unfolding raise raise_within chosen run hello_world is_request event_code
  with_hello-Serves s h = refl

  -- The server of hello-world.c answers a whole request without a body. For a client of HTTP/1.0
  -- with an idle stream that expects no body and on which nothing was written, whose input begins
  -- with a request line of a known method, with a path and a query of bytes that are no NUL, space,
  -- colon or line end (nor, in the path, a question mark), with headers that are read as they are,
  -- none of them a Content-Length, and an empty line, aisl_client_parse answers success, and the
  -- stream's buffer holds "200 OK" in the version of the request, the headers of the library with
  -- the length of the page and the keep-alive that the headers of the request ask for, an empty
  -- line and the page, the response is done, the socket is as it was and the client writes; or else
  -- aisl_reject has closed the client, right behind a realloc that was refused.
  pub hello_world-Replies :
      (m : HttpMethod) (path : Bytes) (query : Option Bytes) (v : HttpVersion) (hs : List Line)
      (beyond : Bytes) (s : Session W)
      → m ≢ method_unknown
      → all_chars is_path_char path ≡ true
      → IsQuery query
      → ArePlain hs
      → s.client.conn.http_version ≡ http_1_0
      → s.client.conn.stream.state ≡ state_idle
      → s.client.conn.stream.content_length ≡ 0
      → IsFresh s.client.conn.stream
      → s.client.input.mem ≡ request_text m path query v (headers_text hs ++ beyond)
      → Replies
          (with_hello print sys)
          hello_html
          v
          (asked_keepalive hs s.client.conn.keepalive)
          s.client.fd
          (aisl_client_parse
            (with_hello print sys)
            (length (request_text m path query v (headers_text hs)))
            s)
  hello_world-Replies m path query v hs beyond s known ok good lines version idle no_body fresh
        mem =
      aisl_client_parse-Replies hello_html (with_hello print sys) Any
        (λ w. print (event_line stream_request) w) refl with_hello-Serves m path query v known ok
        good heard with_hello-LooksOn (λ w. Unit {0}) (heard (open_event m path query v)) (λ w p. p)
        (with_hello-Opens m path query v) hs beyond s lines version idle no_body fresh tt mem
