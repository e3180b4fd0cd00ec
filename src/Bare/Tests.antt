-- ===== src/Bare/Tests.antt =====
-- The sample server of bare/ at concrete clients.
use aisl.Prelude.{ℕ, ◌≡◌, refl, none, some, [], ◌∷◌, codes, true, inl, bytes_eq, to_lower, arith}
use aisl.Types.{
  HttpMethod, stream_request, stream_close, success, http_1_0, aisl_http_method_to_string,
  aisl_http_version_to_string,
}
use aisl.Api.{carrying, plain}
use aisl.Buffer.{buffer_release}
use aisl.Client.{Session, raise}
use aisl.Client.Opening.{opening}
use aisl.Client.Parse.{aisl_client_parse}
use aisl.Client.Sample.{connected, lonely}
use aisl.Client.Touch.{aisl_client_free}
use aisl.Handler.Answer.{Replies}
use aisl.Stream.{aisl_stream_new, aisl_stream_reset}
use aisl.Stream.Request.{on_open}
use aisl.Bare.Answer.{router-Replies, context_life}
use aisl.Bare.Contexts.{with_router}
use aisl.Bare.Faults.{refused_then_faults, aisl_client_free-faults}
use aisl.Bare.Memory.{World, set_memory, faulty, Libc}
use aisl.Bare.Welcome.{welcome_html}

-- A C library with memory for every context; the world outside is a number.
abbrev libc : Libc ℕ
libc = record {
  calloc = λ v. (v, true);
  print = λ text v. v;
  address = λ v. codes "c:1";
  browser_address = λ v. codes "localhost:8081";
  strerror = λ v. codes "busy";
  error_page = λ code. codes "<html>";
}

abbrev nowhere : World ℕ
nowhere = record { memory = record { cells = []; faults = 0 }; outside = 0 }

-- A client that has sent "GET / HTTP/1.0" with a Host.
abbrev visitor : Session (World ℕ)
visitor = record {
  world = nowhere;
  client = record connected {
    input = record { mem = codes "GET / HTTP/1.0\r\nHost: c\r\n\r\n!"; size = 28; used = 27 };
  };
  log = [];
}

router-Replies_example :
    Replies
      (with_router libc (codes "bare") lonely)
      (welcome_html (codes "bare"))
      http_1_0
      true
      (some 5)
      (aisl_client_parse (with_router libc (codes "bare") lonely) 27 visitor)
unfolding aisl_http_method_to_string aisl_http_version_to_string to_lower aisl_stream_new
    aisl_stream_reset bytes_eq buffer_release
router-Replies_example =
    router-Replies libc (codes "bare") lonely HttpMethod.get none http_1_0
      (record { key = codes "Host"; before = 1; value = codes "c"; after = 0 } ∷ []) (codes "!")
      visitor refl (λ e. cc) tt (refl, refl, refl, tt) refl refl refl
      ((record { sized = refl; fits = omega arith }, refl), refl) refl refl

context_life_example :
    let router = with_router libc (codes "bare") lonely in
    (raise router
      (plain stream_close success)
      (raise router (opening HttpMethod.get [] none http_1_0) visitor)).world.memory
    ≡ record nowhere.memory { cells = none ∷ [] }
context_life_example =
    context_life libc (codes "bare") lonely HttpMethod.get none http_1_0 visitor refl

refused_then_faults_example :
    let router = with_router libc (codes "bare") lonely in
    let t = raise router (carrying (on_open HttpMethod.get (codes "/favicon") [])) visitor in
    (t.client.fd ≡ none)
    × (raise router (plain stream_request success) t ≡ record t {
      world = set_memory t.world (faulty t.world.memory);
      log = plain stream_request success ∷ t.log;
    })
unfolding aisl_stream_new aisl_stream_reset
refused_then_faults_example =
    refused_then_faults libc (codes "bare") lonely (codes "/favicon") [] HttpMethod.get visitor
      (plain stream_request success) (λ code e. cc) refl (inl (λ e. cc)) tt

aisl_client_free-faults_example :
    (aisl_client_free (with_router libc (codes "bare") lonely) visitor).world.memory
    ≡ faulty visitor.world.memory
unfolding aisl_stream_new aisl_stream_reset
aisl_client_free-faults_example =
    aisl_client_free-faults libc (codes "bare") lonely visitor refl refl
