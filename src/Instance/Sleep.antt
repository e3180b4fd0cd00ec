-- ===== src/Instance/Sleep.antt =====
-- aisl_sleep of src/instance.c, and the loop of the main functions of examples/hello-world.c and
-- bare/src/main.c round it. `select` is a parameter.
use aisl.Prelude.{
  ℕ, zero, suc, ◌+◌, Option, none, some, List, [], ◌∷◌, ◌++◌, ltb, take, if◌then◌else◌,
}
use aisl.Types.{Status, success, idle, syscall_error}
use aisl.Api.{System}
use aisl.Client.{Client, aisl_client_get_socket}
use aisl.Client.Touch.{is_success}
use aisl.Server.{Net, Server, aisl_server_get_socket}
use aisl.Spool.{Pointers}
use aisl.Ssl.{OpenSsl}
use aisl.Instance.{Instance, aisl_run_cycle}

-- How `select` ends: an error, the time is over, or a socket can be read.
pub data Selected : Type 0 where
  failing elapsed readable : Selected

-- `fd_set`: the descriptors that FD_SET was called for, in the order of the calls. A descriptor from
-- FD_SETSIZE on is none of the set: the call writes behind the fd_set, and it stands in `outside`.
pub record FdSet : Type 0 where
  pub members : List ℕ
  pub outside : List ℕ

abbrev pub fd_zero : FdSet
fd_zero = record { members = []; outside = [] }

-- `select` for reading: the number of descriptors to look at, those of the set, and the
-- microseconds to wait.
pub record Waiter (W : Type 0) : Type 0 where
  pub fd_setsize : ℕ
  pub select : W → ℕ → List ℕ → ℕ → W × Selected

unfoldable pub fd_set : ℕ → ℕ → FdSet → FdSet
fd_set fd_setsize sd fs =
    if ltb sd fd_setsize
    then record fs { members = fs.members ++ (sd ∷ []) }
    else record fs { outside = fs.outside ++ (sd ∷ []) }

-- `if (sd != -1)` with FD_SET and the greatest descriptor so far
unfoldable pub add_socket : ℕ → Option ℕ → FdSet × ℕ → FdSet × ℕ
add_socket fd_setsize none (fs, maxfd) = (fs, maxfd)
add_socket fd_setsize (some sd) (fs, maxfd) =
    (fd_set fd_setsize sd fs, (if ltb maxfd sd then sd else maxfd))

-- The loop over the servers, and the loop over the clients.
unfoldable pub add_servers : ℕ → List Server → FdSet × ℕ → FdSet × ℕ
add_servers fd_setsize [] fs = fs
add_servers fd_setsize (srv ∷ list) fs =
    add_servers fd_setsize list (add_socket fd_setsize (aisl_server_get_socket srv) fs)

unfoldable pub add_clients : ℕ → List Client → FdSet × ℕ → FdSet × ℕ
add_clients fd_setsize [] fs = fs
add_clients fd_setsize (c ∷ cs) fs =
    add_clients fd_setsize cs (add_socket fd_setsize (aisl_client_get_socket c) fs)

unfoldable pub selected : Selected → Status
selected failing = syscall_error
selected elapsed = idle
selected readable = success

-- The sockets to wait for, and the greatest of them.
unfoldable pub sockets : {W : Type 0} → ℕ → Instance W → FdSet × ℕ
sockets fd_setsize inst =
    add_clients fd_setsize (take inst.client_spool.count inst.client_spool.slots)
      (add_servers fd_setsize inst.srv (fd_zero, 0))

module _ {W : Type 0} (waiter : Waiter W) where
  -- The last result is the descriptors for which FD_SET wrote behind the set. Where there is one,
  -- what the program does from there on is undefined.
  unfoldable pub aisl_sleep : Instance W → ℕ → Instance W × Status × List ℕ
  aisl_sleep inst usec =
      let (fs, maxfd) = sockets waiter.fd_setsize inst in
      let (w, r) = waiter.select inst.world (maxfd + 1) fs.members usec in
      (record inst { world = w }, selected r, fs.outside)

module _ {W : Type 0} (sys : System W) (pointers : Pointers W Client) (net : Net W)
    (lib : OpenSsl W) (waiter : Waiter W) where
  -- A round of the loop of a main function, and so many of them.
  unfoldable pub main_round : Instance W → Instance W
  main_round inst =
      let (inst', status) = aisl_run_cycle sys pointers net lib inst in
      if is_success status then inst' else (aisl_sleep waiter inst' 500).0

  unfoldable pub main_rounds : ℕ → Instance W → Instance W
  main_rounds zero inst = inst
  main_rounds (suc n) inst = main_rounds n (main_round inst)

  -- What a main function does with the result of `aisl_new`.
  unfoldable pub entered : ℕ → W × Option (Instance W) → Option (Instance W)
  entered rounds (w, none) = none
  entered rounds (w, some inst) = some (main_rounds rounds inst)
