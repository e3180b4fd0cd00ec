-- ===== src/Client/Recursion.antt =====
-- aisl_client_close of src/client.c with a handler that closes the client when it is told of the
-- closing: the flag that would stop it, `fd = -1`, is set behind the event only.
use aisl.Api.{Raised, Program, stop, reject}

-- A handler that answers every event by closing the client.
abbrev pub always_rejects : {W : Type 0} → Raised → Program W
always_rejects e = reject stop
