-- ===== src/Client/Sample.antt =====
-- A concrete library for src/client.c, a handler that answers with a page, and a client.
use aisl.Prelude.{
  ℕ, suc, ◌≡◌, ◌≤◌, ◌<◌, Option, none, some, [], ◌∷◌, Bytes, codes, true, false, take, length,
  arith, replicate, length-take, sym,
}
use aisl.Prelude.Plenty.{plenty, ample}
use aisl.Types.{stream_request, http_1_0, auto_length}
use aisl.Types.Response.{HttpResponse}
use aisl.Stream.{aisl_stream_new}
use aisl.Api.{
  Raised, plain, response, puts, flush, Program, stop, call, System, Received, received, no_input,
  Sent, sent, no_room, shaken,
}
use aisl.Client.{Client, Session, chosen}
use aisl.Client.Depth.{IsPolite}

-- What `recv` answers when those bytes have come, and `send` when it takes all bytes.
abbrev pub arrived : Bytes → Received
arrived [] = no_input
arrived (b ∷ bs) = received (b ∷ bs)

abbrev pub all_sent : Bytes → Sent
all_sent [] = no_room
all_sent (b ∷ bs) = sent (suc (length bs))

pub arrived_bounds :
    (given bytes : Bytes) (n : ℕ)
    → length given ≤ n
    → arrived given ≡ received bytes
    → (0 < length bytes) × (length bytes ≤ n)
arrived_bounds [] bytes n h e = absurd (cc)
arrived_bounds (b ∷ bs) bytes n h e =
    let same : b ∷ bs ≡ bytes = cc in rw (sym same) (omega arith, h)

pub all_sent_bounds :
    (bytes : Bytes) (n : ℕ) → all_sent bytes ≡ sent n → (0 < n) × (n ≤ length bytes)
all_sent_bounds [] n e = absurd (cc)
all_sent_bounds (b ∷ bs) n e =
    let same : suc (length bs) ≡ n = cc in (omega (arith, same), omega (arith, same))

pub recv_some :
    (text bytes : Bytes) (n : ℕ)
    → arrived (take n text) ≡ received bytes
    → (0 < length bytes) × (length bytes ≤ n)
recv_some text bytes n e =
    arrived_bounds (take n text) bytes n (omega (arith, length-take n text)) e

-- A request is on every socket; the clock counts with the allocator; the handler is given.
abbrev pub serving : Option (Raised → Program ℕ) → Bytes → System ℕ
serving handler text = record {
  alloc = plenty;
  callback = handler;
  recv = λ tls w n. (w, arrived (take n text));
  send = λ tls w bytes. (w, all_sent bytes);
  ssl_accept = λ w. (w, shaken);
  time = λ w. (w, w);
  calloc_stream = λ w. (w, true);
  recv_bounds = λ tls w n bytes e. recv_some text bytes n e;
  send_bounds = λ tls w bytes n e. all_sent_bounds bytes n e;
}

-- A handler that answers each request with a page.
abbrev pub greet : {W : Type 0} → Raised → Program W
greet (plain stream_request _) =
    call (response HttpResponse.ok auto_length)
      (λ _. call (puts (codes "hi")) (λ _. call flush (λ _. stop)))
greet _ = stop

abbrev pub greeting : System ℕ
greeting = serving (some greet) (codes "GET / HTTP/1.0\n\n")

pub greeting-IsPolite : IsPolite greeting
unfolding chosen
greeting-IsPolite st s = tt

abbrev pub connected : Client
connected = record {
  conn = record { keepalive = true; http_version = http_1_0; stream = aisl_stream_new 0 };
  input = record { mem = replicate 40 0; size = 40; used = 0 };
  secure = false;
  has_stream = true;
  fd = some 5;
  next_id = 2;
  timestamp = 0;
  handshake = true;
  can_read = true;
  can_write = false;
}

abbrev pub fresh : Session ℕ
fresh = record { world = 0; client = connected; log = [] }

pub nothing_received :
    (bytes : Bytes) (n : ℕ) → no_input ≡ received bytes → (0 < length bytes) × (length bytes ≤ n)
nothing_received bytes n e = absurd (cc)

-- A library in any world, which it leaves alone; nothing comes to it.
abbrev pub lonely : {W : Type 0} → System W
lonely = record {
  alloc = ample;
  callback = none;
  recv = λ tls w n. (w, no_input);
  send = λ tls w bytes. (w, all_sent bytes);
  ssl_accept = λ w. (w, shaken);
  time = λ w. (w, 0);
  calloc_stream = λ w. (w, true);
  recv_bounds = λ tls w n bytes e. nothing_received bytes n e;
  send_bounds = λ tls w bytes n e. all_sent_bounds bytes n e;
}
