-- ===== src/Bare/Memory.antt =====
-- The contexts of the streams of the sample server in bare/: `struct aisl_context` of
-- include/aisl/types.h in a memory in which an access can be invalid, and the modules that own
-- them.
use aisl.Prelude.{ℕ, zero, suc, ◌+◌, Option, none, some, List, Bytes, Bool, set, get_elem?}
use aisl.Types.{HttpMethod}
use aisl.Types.Response.{HttpResponse}
use aisl.Api.{Program}

-- AISL_CONTEXT_MAGIC
abbrev pub context_magic : ℕ
context_magic = 0x4149534c

-- `struct aisl_context`
pub record Context : Type 0 where
  pub magic : ℕ
  pub module_id : ℕ

-- The cells that `calloc` gave, none for one that was freed, and the accesses to no such cell, each
-- of which is undefined behaviour.
pub record Memory : Type 0 where
  pub cells : List (Option Context)
  pub faults : ℕ

-- A pointer is 0 for NULL, or the number of a cell and one.
unfoldable pub context_at : Memory → ℕ → Option Context
context_at m zero = none
context_at m (suc i) = elim (get_elem? m.cells i) [ none ↦ none | some cell ↦ cell ]

unfoldable pub put_at : Memory → ℕ → Option Context → Memory
put_at m zero cell = m
put_at m (suc i) cell = record m { cells = set m.cells i cell }

abbrev pub faulty : Memory → Memory
faulty m = record m { faults = m.faults + 1 }

-- The world of the server: its contexts, and all else.
pub record World (V : Type 0) : Type 0 where
  pub memory : Memory
  pub outside : V

abbrev pub set_memory : {V : Type 0} → World V → Memory → World V
set_memory w m = record w { memory = m }

-- The C library: whether `calloc` gives memory, what printing does, the address of the server or
-- the client of an event as it is printed, the text of errno, and the page that `aisl_printf` makes
-- of router_reply_error's format, which has five conversions for four arguments.
pub record Libc (V : Type 0) : Type 0 where
  pub calloc : V → V × Bool
  pub print : Bytes → V → V
  pub address : V → Bytes
  -- the same for a server that is ready, with "localhost" for any address
  pub browser_address : V → Bytes
  pub strerror : V → Bytes
  pub error_page : HttpResponse → Bytes

-- An access through a pointer: the cell is used, or the access is a fault.
abbrev pub accessed :
    {V : Type 0} → (Context → Memory → Memory) → Option Context → World V → World V
accessed f none w = set_memory w (faulty w.memory)
accessed f (some ctx) w = set_memory w (f ctx w.memory)

-- A read through `p`.
unfoldable pub read_at : {V : Type 0} → ℕ → World V → World V
read_at p w = accessed (λ ctx m. m) (context_at w.memory p) w

-- `free(p)` where `p` is not NULL
unfoldable pub freed : {V : Type 0} → ℕ → World V → World V
freed p w = accessed (λ ctx m. put_at m p none) (context_at w.memory p) w

-- `struct aisl_module` for a world `W`. `on_open` returns by its last argument, with none for 0;
-- the configuration is its path.
pub record Module (W : Type 0) : Type 0 where
  pub name : Bytes
  pub config : Bytes
  pub on_open : Bytes → Bytes → Bytes → HttpMethod → (Option HttpResponse → Program W) → Program W
  pub on_header : Option (Bytes → Bytes → Bytes → Program W)
  pub on_input : Option (Bytes → Bytes → Program W)
  pub on_request : Option (Bytes → Program W)
  pub on_output : Option (Bytes → Program W)
  pub on_close : Option (Bytes → Program W)
