-- ===== src/Instance/Waits.antt =====
-- The sockets that aisl_sleep of src/instance.c waits for.
use aisl.Prelude.{
  ℕ, ◌+◌, ◌≤◌, ◌<◌, ◌≡◌, refl, sym, ap, subst, ◌∙◌, Option, none, some, List, [], ◌∷◌, ◌++◌,
  append_assoc, append-nil, ltb, if◌then◌else◌, take, arith, inl, inr, ◌⊎◌, Bool-cases, ltb→lt,
}
use aisl.Client.{Client}
use aisl.Server.{Server}
use aisl.Instance.{Instance}
use aisl.Instance.Sleep.{
  Waiter, add_socket, add_servers, add_clients, selected, sockets, aisl_sleep, FdSet, fd_zero,
  fd_set,
}

-- The descriptors that are open.
abbrev pub opened : Option ℕ → List ℕ
opened none = []
opened (some fd) = fd ∷ []

abbrev pub server_fds : List Server → List ℕ
server_fds [] = []
server_fds (srv ∷ list) = opened srv.fd ++ server_fds list

abbrev pub client_fds : List Client → List ℕ
client_fds [] = []
client_fds (c ∷ cs) = opened c.fd ++ client_fds cs

-- Every one is at most `n`, and `n` is one of them or zero.
abbrev pub AllLe : ℕ → List ℕ → Type 0
AllLe n [] = Unit {0}
AllLe n (fd ∷ fds) = (fd ≤ n) × AllLe n fds

abbrev pub Has : ℕ → List ℕ → Type 0
Has n [] = n ≡ 0
Has n (fd ∷ fds) = (n ≡ fd) ⊎ Has n fds

abbrev pub IsGreatest : List ℕ × ℕ → Type 0
IsGreatest (fds, n) = AllLe n fds × Has n fds

AllLe-le : (m n : ℕ) (fds : List ℕ) → m ≤ n → AllLe m fds → AllLe n fds
AllLe-le m n [] le h = tt
AllLe-le m n (fd ∷ fds) le (h, hs) = (omega arith, AllLe-le m n fds le hs)

AllLe-append : (n fd : ℕ) (fds : List ℕ) → fd ≤ n → AllLe n fds → AllLe n (fds ++ (fd ∷ []))
AllLe-append n fd [] le h = (le, tt)
AllLe-append n fd (x ∷ fds) le (h, hs) = (h, AllLe-append n fd fds le hs)

Has-append : (n fd : ℕ) (fds : List ℕ) → Has n fds → Has n (fds ++ (fd ∷ []))
Has-append n fd [] h = inr h
Has-append n fd (x ∷ fds) (inl e) = inl e
Has-append n fd (x ∷ fds) (inr h) = inr (Has-append n fd fds h)

Has-last : (fd : ℕ) (fds : List ℕ) → Has fd (fds ++ (fd ∷ []))
Has-last fd [] = inl refl
Has-last fd (x ∷ fds) = inr (Has-last fd fds)

-- The descriptors that an fd_set has room for, and the others.
abbrev pub below : ℕ → List ℕ → List ℕ
below limit [] = []
below limit (fd ∷ fds) = if ltb fd limit then fd ∷ below limit fds else below limit fds

abbrev pub beyond : ℕ → List ℕ → List ℕ
beyond limit [] = []
beyond limit (fd ∷ fds) = if ltb fd limit then beyond limit fds else fd ∷ beyond limit fds

below-append :
    (limit : ℕ) (xs ys : List ℕ) → below limit (xs ++ ys) ≡ below limit xs ++ below limit ys
below-append limit [] ys = refl
below-append limit (x ∷ xs) ys = elim (Bool-cases (ltb x limit)) [
  | inl e ↦ rw e (ap (λ zs. x ∷ zs) (below-append limit xs ys))
  | inr e ↦ rw e (below-append limit xs ys)
]

beyond-append :
    (limit : ℕ) (xs ys : List ℕ) → beyond limit (xs ++ ys) ≡ beyond limit xs ++ beyond limit ys
beyond-append limit [] ys = refl
beyond-append limit (x ∷ xs) ys = elim (Bool-cases (ltb x limit)) [
  | inl e ↦ rw e (beyond-append limit xs ys)
  | inr e ↦ rw e (ap (λ zs. x ∷ zs) (beyond-append limit xs ys))
]

-- The set that FD_SET leaves for the descriptors `fds`.
abbrev set_of : ℕ → List ℕ → FdSet
set_of limit fds = record { members = below limit fds; outside = beyond limit fds }

fd_set-set_of :
    (limit sd : ℕ) (fds : List ℕ)
    → fd_set limit sd (set_of limit fds) ≡ set_of limit (fds ++ (sd ∷ []))
unfolding fd_set
fd_set-set_of limit sd fds = elim (Bool-cases (ltb sd limit)) [
  | inl e ↦
      rw (below-append limit fds (sd ∷ []), beyond-append limit fds (sd ∷ []), e)
        (ap (λ xs. record { members = below limit fds ++ (sd ∷ []); outside = xs })
          (sym (append-nil (beyond limit fds))))
  | inr e ↦
      rw (below-append limit fds (sd ∷ []), beyond-append limit fds (sd ∷ []), e)
        (ap (λ xs. record { members = xs; outside = beyond limit fds ++ (sd ∷ []) })
          (sym (append-nil (below limit fds))))
]

-- The loops have seen the descriptors `fds`.
abbrev Seen : ℕ → List ℕ → FdSet × ℕ → Type 0
Seen limit fds (fs, n) = (fs ≡ set_of limit fds) × IsGreatest (fds, n)

Seen-same :
    (limit : ℕ) (fds fds' : List ℕ) (r : FdSet × ℕ)
    → fds ≡ fds'
    → Seen limit fds r
    → Seen limit fds' r
Seen-same limit fds fds' r e h = subst (λ fds. Seen limit fds r) e h

add_socket-Seen :
    (limit : ℕ) (fd : Option ℕ) (fds : List ℕ) (r : FdSet × ℕ)
    → Seen limit fds r
    → Seen limit (fds ++ opened fd) (add_socket limit fd r)
unfolding add_socket
add_socket-Seen limit none fds (fs, n) h =
    Seen-same limit fds (fds ++ []) (fs, n) (sym (append-nil fds)) h
add_socket-Seen limit (some sd) fds (fs, n) (e, (le, has)) =
    let set = ap (fd_set limit sd) e ∙ fd_set-set_of limit sd fds in
    elim (Bool-cases (ltb n sd)) [
      | inl f ↦
          let less : n < sd = ltb→lt n sd f in
          let all = AllLe-le n sd fds (omega (arith, less)) le in
          rw f (set, (AllLe-append sd sd fds (omega arith) all, Has-last sd fds))
      | inr f ↦ rw f (set, (AllLe-append n sd fds (ground (arith, f)) le, Has-append n sd fds has))
    ]

add_servers-Seen :
    (limit : ℕ) (list : List Server) (fds : List ℕ) (r : FdSet × ℕ)
    → Seen limit fds r
    → Seen limit (fds ++ server_fds list) (add_servers limit list r)
unfolding add_servers
add_servers-Seen limit [] fds r h = Seen-same limit fds (fds ++ []) r (sym (append-nil fds)) h
add_servers-Seen limit (srv ∷ list) fds r h =
    Seen-same limit _ _ (add_servers limit (srv ∷ list) r)
      (append_assoc fds (opened srv.fd) (server_fds list))
      (add_servers-Seen limit list (fds ++ opened srv.fd) (add_socket limit srv.fd r)
        (add_socket-Seen limit srv.fd fds r h))

add_clients-Seen :
    (limit : ℕ) (cs : List Client) (fds : List ℕ) (r : FdSet × ℕ)
    → Seen limit fds r
    → Seen limit (fds ++ client_fds cs) (add_clients limit cs r)
unfolding add_clients
add_clients-Seen limit [] fds r h = Seen-same limit fds (fds ++ []) r (sym (append-nil fds)) h
add_clients-Seen limit (c ∷ cs) fds r h =
    Seen-same limit _ _ (add_clients limit (c ∷ cs) r)
      (append_assoc fds (opened c.fd) (client_fds cs))
      (add_clients-Seen limit cs (fds ++ opened c.fd) (add_socket limit c.fd r)
        (add_socket-Seen limit c.fd fds r h))

sockets-Seen :
    {W : Type 0} (limit : ℕ) (inst : Instance W)
    → Seen limit
        (server_fds inst.srv ++ client_fds (take inst.client_spool.count inst.client_spool.slots))
        (sockets limit inst)
unfolding sockets
sockets-Seen limit inst =
    let clients = take inst.client_spool.count inst.client_spool.slots in
    add_clients-Seen limit clients (server_fds inst.srv) (add_servers limit inst.srv (fd_zero, 0))
      (add_servers-Seen limit inst.srv [] (fd_zero, 0) (refl, (tt, refl)))

-- aisl_sleep waits for exactly those sockets of the servers and the clients that are open and below
-- FD_SETSIZE, in the order of the instance; for each open one from FD_SETSIZE on it writes behind
-- its fd_set. The number it gives to `select` is one more than the greatest of all that are open,
-- or 1 where there is none. Of the instance only the world changes, and the answer is that of
-- `select`.
pub aisl_sleep-Waits :
    {W : Type 0} (waiter : Waiter W) (inst : Instance W) (usec : ℕ)
    → let fds =
        server_fds inst.srv ++ client_fds (take inst.client_spool.count inst.client_spool.slots) in
      let set = below waiter.fd_setsize fds in
      (n : ℕ) × IsGreatest (fds, n)
      × (aisl_sleep waiter inst usec ≡ (
        record inst { world = (waiter.select inst.world (n + 1) set usec).0 },
        selected (waiter.select inst.world (n + 1) set usec).1,
        beyond waiter.fd_setsize fds,
      ))
unfolding aisl_sleep
aisl_sleep-Waits waiter inst usec =
    let (e, h) = sockets-Seen waiter.fd_setsize inst in
    let n = (sockets waiter.fd_setsize inst).1 in
    (
      n,
      h,
      ap
          (λ fs.
            let (w, r) = waiter.select inst.world (n + 1) fs.members usec in
            (record inst { world = w }, selected r, fs.outside))
          e,
    )
