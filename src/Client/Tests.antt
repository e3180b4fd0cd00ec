-- ===== src/Client/Tests.antt =====
-- Runs of src/client.c over a concrete library, and the theorems about it at concrete clients.
use aisl.Prelude.{
  ℕ, ◌≡◌, refl, none, some, [], ◌∷◌, codes, true, false, replicate, ◌++◌, ◌≢◌, ◌≤◌, arith,
}
use aisl.Client.{Session, with_conn, chosen, run, raise, raise_within}
use aisl.Client.Keeps.{Keeps, disconnects}
use aisl.Client.Life.{touches, client_life}
use aisl.Client.New.{aisl_client_new}
use aisl.Client.New.Laws.{Answered, aisl_client_new-Answered}
use aisl.Client.New.Secure.{aisl_client_new_secure}
use aisl.Ssl.Tests.{willing}
use aisl.Client.Outcome.{Outcome, aisl_client_touch-Outcome}
use aisl.Client.Parse.{emit, parsed, parse_rounds, aisl_client_parse}
use aisl.Api.{carrying, plain}
use aisl.Stream.Request.{on_header, IsFed, aisl_stream_set_header, aisl_stream_set_end_of_headers}
use aisl.Stream.{wait_header, ready, with_state, done, aisl_stream_new, aisl_stream_reset}
use aisl.Types.{
  success, stream_request, HttpMethod, http_1_0, aisl_http_method_to_string,
  aisl_http_version_to_string,
}
use aisl.Prelude.{to_lower, bytes_eq}
use aisl.Stream.Request.{on_open}
use aisl.Client.Forward.{stage, raise_within-stage}
use aisl.Client.Body.{Listens, inputs, fed, request_body}
use aisl.Prelude.Decimal.{decimal}
use aisl.Client.Request.{IsRead, aisl_client_parse-request_text}
use aisl.Client.Rounds.{parse_rounds_end}
use aisl.Client.Touch.{aisl_client_touch, aisl_client_free}
use aisl.Client.TouchKeeps.{aisl_client_touch-Keeps}
use aisl.Client.Sample.{serving, greeting, greeting-IsPolite, connected, fresh}

-- The request, read into the input buffer.
abbrev asked : Session ℕ
asked = record fresh {
  client = record connected {
    input = record { mem = codes "GET / HTTP/1.0\n\n" ++ replicate 24 0; size = 40; used = 16 };
  };
}

parse_rounds_end_example :
    ((parse_rounds greeting 17 0 16 asked).1 ≢ parsed)
    × (parse_rounds greeting 20 0 16 asked ≡ parse_rounds greeting 17 0 16 asked)
parse_rounds_end_example = parse_rounds_end greeting greeting-IsPolite 3 0 16 asked

aisl_client_touch-Keeps_example : Keeps fresh (aisl_client_touch greeting 10 fresh).0
aisl_client_touch-Keeps_example = aisl_client_touch-Keeps greeting greeting-IsPolite 10 fresh

aisl_client_touch-Outcome_example :
    Outcome greeting 10 fresh.client.timestamp (aisl_client_touch greeting 10 fresh)
aisl_client_touch-Outcome_example = aisl_client_touch-Outcome greeting greeting-IsPolite 10 fresh

raise_within-stage_example :
    stage fresh ≤ stage (raise_within greeting 2 (plain stream_request success) fresh)
raise_within-stage_example = raise_within-stage greeting 2 (plain stream_request success) fresh

client_life_example :
    disconnects (aisl_client_free greeting (touches greeting (10 ∷ 10 ∷ []) fresh)).log ≡ 1
client_life_example = client_life greeting greeting-IsPolite (10 ∷ 10 ∷ []) fresh

aisl_client_new-Answered_example :
    Answered [] false 9 (aisl_client_new greeting willing [] 0 [] false 9)
aisl_client_new-Answered_example =
    aisl_client_new-Answered greeting willing [] greeting-IsPolite 0 [] false 9 refl

aisl_client_new_secure_example : (aisl_client_new greeting willing [] 0 [] true 9).2 ≡ none
aisl_client_new_secure_example = aisl_client_new_secure greeting willing [] 0 [] 9

-- "GET /a?b HTTP/1.0", a Host of "c" and the empty line, and a byte behind them.
abbrev asked_page : Session ℕ
asked_page = record fresh {
  client = record connected {
    input = record { mem = codes "GET /a?b HTTP/1.0\r\nHost: c\r\n\r\n!"; size = 31; used = 30 };
  };
}

aisl_client_parse-request_text_example :
    IsRead
      (carrying (on_header (codes "host") (codes "c"))
        ∷ carrying (on_open HttpMethod.get (codes "/a") (codes "b"))
        ∷ [])
      (aisl_client_parse (serving none []) 30 asked_page)
unfolding aisl_http_method_to_string aisl_http_version_to_string to_lower aisl_stream_new
    aisl_stream_reset bytes_eq
aisl_client_parse-request_text_example =
    aisl_client_parse-request_text (serving none []) refl HttpMethod.get (codes "a")
      (some (codes "b")) http_1_0 (λ e. cc) refl refl
      (record { key = codes "Host"; before = 1; value = codes "c"; after = 0 } ∷ []) (codes "!")
      asked_page (refl, refl, refl, tt) refl refl refl refl

-- A client that waits for four bytes to be sent, and is closed then.
abbrev answered : Session ℕ
answered = record fresh {
  client = record connected {
    conn = record {
      keepalive = false;
      http_version = http_1_0;
      stream = record (aisl_stream_new 0) {
        buffer = record { mem = codes "page"; size = 4; used = 4 };
        state = done;
      };
    };
  };
}

-- A client whose request line has been read, with a handler that answers STREAM_REQUEST only.
abbrev opened : Session ℕ
opened = record fresh { client = record connected { conn = with_state connected.conn wait_header } }

greeting-Listens : Listens greeting
unfolding raise raise_within chosen run
greeting-Listens e s = (refl, refl)

two_pieces-IsFed : IsFed (codes "ab" ∷ codes "c" ∷ [])
two_pieces-IsFed = omega arith

request_body_example :
    let pieces = codes "ab" ∷ codes "c" ∷ [] in
    let key = codes "content-length" in
    let value = decimal 3 in
    let read = emit greeting (aisl_stream_set_header opened.client.conn key value) opened in
    let (c, result) = aisl_stream_set_end_of_headers read.client.conn in
    let t = fed greeting pieces (with_conn read c) in
    (result ≡ 1)
    × (t.log ≡ inputs pieces (carrying (on_header key value) ∷ opened.log))
    × (t.client.conn.stream.state ≡ ready)
    × (t.client.conn.stream.content_length ≡ 0)
request_body_example =
    request_body greeting greeting-Listens opened (codes "ab" ∷ codes "c" ∷ []) refl
      two_pieces-IsFed (omega arith) (omega arith)
