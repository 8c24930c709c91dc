-- ===== src/Tcp/Service/Entries.antt =====
-- The list of entries: `net_tcp_listen` and which entry gets a segment.
use ex_os.Base.{
  ℕ, ◌≡◌, ◌≢◌, ◌∙◌, inl, inr, refl, sym, ap, ap₂, Bool, Bool-cases, true, false, Option, none, some,
  List, [], ◌∷◌, ◌++◌, arith, ◌==◌, if◌then◌else◌,
}
use cubical.Cubical.Foundations.Prelude.{fun_ext}
use ex_os.LinkedList.Links.{All}
use ex_os.Thread.{write_at}
use ex_os.Tcp.{TcpState, closed, listen, Entry}
use ex_os.Tcp.Service.{
  Net, set_io, is_key, find_io, first_of, find_handler, bind_found, bind, is_closed, net_listen,
}

-- The entry `n` is none of these.
abbrev pub Absent : ℕ → List ℕ → Type 0
Absent n ns = All (λ m. m ≢ n) ns

find_io-write_at :
    (ios : ℕ → Entry) (ns : List ℕ) (n : ℕ) (io : Entry) (local_port remote_ip remote_port : ℕ)
    → Absent n ns
    → find_io (write_at ios n io) ns local_port remote_ip remote_port
      ≡ find_io ios ns local_port remote_ip remote_port
unfolding find_io
find_io-write_at ios [] n io local_port remote_ip remote_port a = refl
find_io-write_at ios (m ∷ ns) n io local_port remote_ip remote_port (other, a) =
    let apart : (m == n) ≡ false = ground arith in
    rw (apart, find_io-write_at ios ns n io local_port remote_ip remote_port a) refl

-- What the search finds in a longer list
find_io-append :
    (ios : ℕ → Entry) (ns : List ℕ) (n local_port remote_ip remote_port : ℕ)
    → find_io ios (ns ++ (n ∷ [])) local_port remote_ip remote_port
      ≡ first_of
          (find_io ios ns local_port remote_ip remote_port)
          (if is_key (ios n) local_port remote_ip remote_port then some n else none)
unfolding find_io
find_io-append ios [] n local_port remote_ip remote_port = refl
find_io-append ios (m ∷ ns) n local_port remote_ip remote_port =
    elim (Bool-cases (is_key (ios m) local_port remote_ip remote_port)) [
      | inl found ↦ rw (found, find_io) refl
      | inr other ↦ rw (other, find_io-append ios ns n local_port remote_ip remote_port) refl
    ]

-- The entry that `net_tcp_listen` makes
abbrev listening_io : Entry → ℕ → Entry
listening_io io port = record io {
  state = listen;
  local_port = port;
  remote_port = 0;
  remote_ip = 0;
  accept_queue = [];
}

-- The net with one more entry
abbrev extended : Net → ℕ → Entry → Net
extended w n io = record w { entries = w.entries ++ (n ∷ []); ios = write_at w.ios n io }

find_io-extended :
    (w : Net) (n : ℕ) (io : Entry) (local_port remote_ip remote_port : ℕ)
    → Absent n w.entries
    → find_io (extended w n io).ios (extended w n io).entries local_port remote_ip remote_port
      ≡ first_of
          (find_io w.ios w.entries local_port remote_ip remote_port)
          (if is_key io local_port remote_ip remote_port then some n else none)
find_io-extended w n io local_port remote_ip remote_port a =
    let same : (n == n) ≡ true = ground arith in
    find_io-append (write_at w.ios n io) w.entries n local_port remote_ip remote_port
    ∙ rw (same, find_io-write_at w.ios w.entries n io local_port remote_ip remote_port a) refl

write_at_twice :
    (f : ℕ → Entry) (n : ℕ) (io io' : Entry) → write_at (write_at f n io) n io' ≡ write_at f n io'
write_at_twice f n io io' =
    fun_ext
      (λ m. elim (Bool-cases (m == n)) [ inl here ↦ rw here refl | inr other ↦ rw other refl ])

bind_new :
    (w : Net) (n : ℕ) (io : Entry) (init : TcpState)
    → Absent n w.entries
    → find_io w.ios w.entries io.local_port io.remote_ip io.remote_port ≡ none
    → bind (set_io w n io) n init ≡ (true, extended w n (record io { state = init }))
unfolding bind
bind_new w n io init a free =
    let same : write_at w.ios n io n ≡ io =
      let here : (n == n) ≡ true = ground arith in rw here refl in
    let search : find_io (write_at w.ios n io) w.entries (write_at w.ios n io n).local_port
          (write_at w.ios n io n).remote_ip (write_at w.ios n io n).remote_port
        ≡ none =
      rw same (
        find_io-write_at w.ios w.entries n io io.local_port io.remote_ip io.remote_port a ∙ free) in
    bind_searched w n io init same search
  where
    bind_searched :
        (w : Net) (n : ℕ) (io : Entry) (init : TcpState)
        → write_at w.ios n io n ≡ io
        → find_io
            (write_at w.ios n io)
            w.entries
            (write_at w.ios n io n).local_port
            (write_at w.ios n io n).remote_ip
            (write_at w.ios n io n).remote_port
          ≡ none
        → bind (set_io w n io) n init ≡ (true, extended w n (record io { state = init }))
    bind_searched w n io init same search =
        ap (bind_found (set_io w n io) n init) search
        ∙ ap (λ f. (true, record w { entries = w.entries ++ (n ∷ []); ios = f }))
            (ap (λ x. write_at (write_at w.ios n io) n (record x { state = init })) same
              ∙ write_at_twice w.ios n io (record io { state = init }))

first_of-none : (o : Option ℕ) → first_of o none ≡ o
first_of-none none = refl
first_of-none (some k) = refl

first_of-last :
    (n : ℕ) (o other : Option ℕ)
    → first_of o (first_of other (some n)) ≡ first_of (first_of o other) (some n)
first_of-last n none other = refl
first_of-last n (some k) other = refl

module _ (w : Net) (n port : ℕ) (c : (w.ios n).state ≡ closed) (a : Absent n w.entries) where
  listen-extended :
      find_io w.ios w.entries port 0 0 ≡ none
      → net_listen w n port ≡ (true, extended w n (listening_io (w.ios n) port))
  unfolding net_listen
  listen-extended free =
      let io = record (w.ios n) {
        local_port = port;
        remote_port = 0;
        remote_ip = 0;
        accept_queue = [];
      } in
      let made : bind (set_io w n io) n listen
          ≡ (true, extended w n (listening_io (w.ios n) port)) =
        bind_new w n io listen a free in
      if_true (is_closed (w.ios n).state) (false, w) (ap is_closed c) made
    where
      if_true :
          {r result : Bool × Net} (b : Bool) (other : Bool × Net)
          → b ≡ true
          → r ≡ result
          → (if b then r else other) ≡ result
      if_true true other e made = made
      if_true false other e made = absurd cc

  -- At a port where another entry listens it fails, and leaves the list as it is.
  listen_taken :
      (m : ℕ)
      → find_io w.ios w.entries port 0 0 ≡ some m
      → m ≢ n
      → ((net_listen w n port).0 ≡ false) × ((net_listen w n port).1.entries ≡ w.entries)
  unfolding net_listen bind
  listen_taken m taken other =
      let same : (n == n) ≡ true = ground arith in
      let apart : (m == n) ≡ false = ground arith in
      rw (c, same, find_io-write_at w.ios w.entries n _ port 0 0 a, taken, apart) (refl, refl)

  handler-extended :
      (local_port remote_ip remote_port : ℕ)
      → find_io w.ios w.entries port 0 0 ≡ none
      → find_handler (extended w n (listening_io (w.ios n) port)) local_port remote_ip remote_port
        ≡ first_of
            (find_handler w local_port remote_ip remote_port)
            (if port == local_port then some n else none)
  unfolding find_handler
  handler-extended local_port remote_ip remote_port free =
      let io = listening_io (w.ios n) port in
      let exact = find_io-extended w n io local_port remote_ip remote_port a in
      let any = find_io-extended w n io local_port 0 0 a in
      elim (Bool-cases (port == local_port)) [
        | inr apart ↦
            let not_exact : is_key io local_port remote_ip remote_port ≡ false = rw apart refl in
            let not_any : is_key io local_port 0 0 ≡ false = rw apart refl in
            rw (apart, exact, any, not_exact, not_any)
              (ap₂ first_of (first_of-none _) (first_of-none _) ∙ sym (first_of-none _))
        | inl here ↦ elim (Bool-cases (is_key io local_port remote_ip remote_port)) [
          | inr not_exact ↦
              let is_any : is_key io local_port 0 0 ≡ true = rw here refl in
              rw (here, exact, any, not_exact, is_any)
                (ap (λ o. first_of o (first_of (find_io w.ios w.entries local_port 0 0) (some n)))
                    (first_of-none _)
                  ∙ first_of-last n (find_io w.ios w.entries local_port remote_ip remote_port)
                      (find_io w.ios w.entries local_port 0 0))
          | inl is_exact ↦
              let at_port : local_port ≡ port = ground arith in
              let any_ip : remote_ip ≡ 0 = ground arith in
              let any_port : remote_port ≡ 0 = ground arith in
              let missing : find_io w.ios w.entries local_port remote_ip remote_port ≡ none =
                rw (at_port, any_ip, any_port) free in
              let missing_any : find_io w.ios w.entries local_port 0 0 ≡ none = rw at_port free in
              let is_any : is_key io local_port 0 0 ≡ true = rw here refl in
              rw (here, exact, any, is_exact, is_any, missing, missing_any) refl
        ]
      ]

-- On a closed entry that is not in the list, and a port where no entry listens, `net_tcp_listen`
-- succeeds and the entry listens: every segment to the port that had no entry comes to it, and
-- all other segments go where they went.
pub listen-find_handler :
    (w : Net) (n port : ℕ)
    → (w.ios n).state ≡ closed
    → Absent n w.entries
    → find_io w.ios w.entries port 0 0 ≡ none
    → let (done, w') = net_listen w n port in
      (done ≡ true)
      × ((w'.ios n).state ≡ listen)
      × ((local_port remote_ip remote_port : ℕ)
          → find_handler w' local_port remote_ip remote_port
            ≡ first_of
                (find_handler w local_port remote_ip remote_port)
                (if port == local_port then some n else none))
listen-find_handler w n port c a free =
    let made = listen-extended w n port c a free in
    let same : (n == n) ≡ true = ground arith in
    (
      ap (λ r. r.0) made,
      ap (λ r. (r.1.ios n).state) made ∙ rw same refl,
      λ local_port remote_ip remote_port.
          ap (λ r. find_handler r.1 local_port remote_ip remote_port) made
          ∙ handler-extended w n port c a local_port remote_ip remote_port free,
    )
