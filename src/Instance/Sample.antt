-- ===== src/Instance/Sample.antt =====
-- Concrete memory for clients and a concrete network for src/instance.c.
use aisl.Prelude.{
  ℕ, ◌+◌, ◌≡◌, ap, ◌∙◌, none, some, List, true, length, replicate, length-replicate, take,
}
use aisl.Client.{Client}
use aisl.Client.Sample.{connected}
use aisl.Server.{Net, connection, nobody}
use aisl.Spool.{Pointers}

pub length_given :
    (n : ℕ) (new : List Client) → some (replicate n connected) ≡ some new → length new ≡ n
length_given n new e =
    let same : new ≡ replicate n connected = cc in ap length same ∙ length-replicate n connected

pub refused :
    {W : Type 0} (w : W) (n : ℕ) (mem new : List Client) → none ≡ some new → length new ≡ n
refused w n mem new e = absurd (cc)

pub refused_prefix :
    {W : Type 0} (w : W) (n : ℕ) (mem new : List Client)
    → none ≡ some new
    → take (length mem) new ≡ mem
refused_prefix w n mem new e = absurd (cc)

-- Memory for a first list of clients, and none to make it longer.
abbrev pub shelf : {W : Type 0} → Pointers W Client
shelf = record {
  calloc = λ w n. (w, some (replicate n connected));
  realloc = λ w mem n. (w, none);
  calloc_length = λ w n new e. length_given n new e;
  realloc_length = λ w mem n new e. refused w n mem new e;
  realloc_prefix = λ w mem n new e h. refused_prefix w n mem new e;
}

-- A connection comes with every touch.
abbrev pub busy : Net ℕ
busy = record {
  socket = λ w. (w, some 3);
  bind = λ w fd. (w, true);
  listen = λ w fd. (w, true);
  accept = λ w fd. (w + 1, connection w);
  get_flags = λ w fd. (w, some 0);
  set_nonblocking = λ w fd flags. (w, true);
  close = λ w fd. w;
}

-- No connection comes.
abbrev pub idle_net : {W : Type 0} → Net W
idle_net = record {
  socket = λ w. (w, some 3);
  bind = λ w fd. (w, true);
  listen = λ w fd. (w, true);
  accept = λ w fd. (w, nobody);
  get_flags = λ w fd. (w, some 0);
  set_nonblocking = λ w fd flags. (w, true);
  close = λ w fd. w;
}
