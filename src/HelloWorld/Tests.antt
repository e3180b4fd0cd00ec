-- ===== src/HelloWorld/Tests.antt =====
-- The server of examples/hello-world.c at a concrete client.
use aisl.Prelude.{ℕ, refl, some, [], ◌∷◌, Bytes, codes, false, bytes_eq, to_lower, arith}
use aisl.Types.{HttpMethod, http_1_0, aisl_http_method_to_string, aisl_http_version_to_string}
use aisl.StrUtils.{str_cmpi}
use aisl.Buffer.{buffer_release}
use aisl.Client.{Session}
use aisl.Client.Parse.{aisl_client_parse}
use aisl.Client.Sample.{connected, fresh, lonely}
use aisl.Handler.Answer.{Replies}
use aisl.Instance.Sleep.{Waiter, readable}
use aisl.Stream.{aisl_stream_new, aisl_stream_reset}
use aisl.HelloWorld.{hello_html, with_hello}
use aisl.HelloWorld.Laws.{hello_world-Replies}

-- What is printed goes nowhere.
abbrev print : Bytes → ℕ → ℕ
print text w = w

abbrev waiter : Waiter ℕ
waiter = record { fd_setsize = 1024; select = λ w n fds usec. (w, readable) }

-- A client that has sent "GET /a?b HTTP/1.0" and asks to close the connection.
abbrev visitor : Session ℕ
visitor = record fresh {
  client = record connected {
    input = record {
      mem = codes "GET /a?b HTTP/1.0\r\nConnection: close\r\n\r\n";
      size = 40;
      used = 40;
    };
  };
}

hello_world-Replies_example :
    Replies
      (with_hello print lonely)
      hello_html
      http_1_0
      false
      (some 5)
      (aisl_client_parse (with_hello print lonely) 40 visitor)
unfolding aisl_http_method_to_string aisl_http_version_to_string to_lower aisl_stream_new
    aisl_stream_reset bytes_eq buffer_release str_cmpi
hello_world-Replies_example =
    hello_world-Replies print lonely HttpMethod.get (codes "a") (some (codes "b")) http_1_0
      (record { key = codes "Connection"; before = 1; value = codes "close"; after = 0 } ∷ []) []
      visitor (λ e. cc) refl refl (refl, refl, refl, tt) refl refl refl
      ((record { sized = refl; fits = omega arith }, refl), refl) refl
