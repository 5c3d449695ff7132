-- ===== src/Ps/Refcount/Reachable.antt =====
-- The table of counts through sequences of events of the whole daemon.
use pinetd.Prelude.{
  ℕ, zero, suc, ◌+◌, ◌≤◌, ◌≡◌, refl, sym, List, [], ◌∷◌, ◌++◌, Option, none, some, Bytes, find, put,
  bytes_eq, count, Dict, Bool-cases, arith, inl, inr,
}
use pinetd.Prelude.Fault.{Returns, Returns-bind}
use pinetd.Ps.Server.{Server, Master, Signal, push_packet, read_from_master}
use pinetd.Ps.Masters.{check_entries, check_masters, add_masters, drop_masters, reload}
use pinetd.Ps.Client.{Client, new_client, channel_packet, handle_buffer, destroy}
use pinetd.Ps.System.{
  System, init, incoming_tcp, emit, emit_option, emit_all, incoming_datagram, feed, lose,
  master_read, master_up, read_entry, connect_entry, Event, connects, sends, datagram, leaves,
  timeout, master_sends, master_connects, reloads, step, run,
}
use pinetd.Ps.Refcount.Counts.{Counts, Ready}
use pinetd.Ps.Refcount.OneClient.{Counts-ext, Local, handle_buffer-Local, destroy-Counts}

-- How many clients subscribe to a channel.
abbrev pub subscribers : List Client → Bytes → ℕ
subscribers [] c = 0
subscribers (x ∷ xs) c = count c x.channels + subscribers xs c

abbrev pub Unique : List Client → Type 0
Unique [] = Unit {0}
Unique (x ∷ xs) = ((c : Bytes) → count c x.channels ≤ 1) × Unique xs

-- The table has, for each channel, the number of clients that subscribe to it; no client is counted
-- twice for a channel; every master has a socket.
pub record Inv (y : System) : Type 0 where
  pub counts : Counts (subscribers y.clients) y.server
  pub unique : Unique y.clients

-- The same for some of the clients, with N subscriptions of the others.
abbrev Part : (Bytes → ℕ) → Server × List Client → Type 0
Part N (s, xs) = Counts (λ c. subscribers xs c + N c) s × Unique xs

feed-Part :
    (N : Bytes → ℕ) (n : ℕ) (t : Bytes) (s : Server) (xs : List Client)
    → Part N (s, xs)
    → Returns (Part N) (feed n t s xs)
unfolding feed
feed-Part N n t s [] h = h
feed-Part N zero t s (x ∷ xs) (k, (u, us)) =
    Returns-bind (Local (λ c. subscribers xs c + N c)) (Part N) (handle_buffer t s x) _
      (handle_buffer-Local (λ c. subscribers xs c + N c) t s x
        (record { counts = Counts-ext _ _ s k (λ c. omega arith); unique = u }))
      (λ p l. (Counts-ext _ _ p.0 l.counts (λ c. omega arith), (l.unique, us)))
feed-Part N (suc n) t s (x ∷ xs) (k, (u, us)) =
    Returns-bind (Part (λ c. count c x.channels + N c)) (Part N) (feed n t s xs) _
      (feed-Part (λ c. count c x.channels + N c) n t s xs
        (Counts-ext _ _ s k (λ c. omega arith), us))
      (λ p l. (Counts-ext _ _ p.0 l.0 (λ c. omega arith), (u, l.1)))

lose-Part :
    (N : Bytes → ℕ) (n : ℕ) (s : Server) (xs : List Client)
    → Part N (s, xs)
    → Returns (Part N) (lose n s xs)
unfolding lose
lose-Part N n s [] h = h
lose-Part N zero s (x ∷ xs) (k, (u, us)) =
    Returns-bind (Counts (λ c. subscribers xs c + N c)) (Part N) (destroy s x) _
      (destroy-Counts (λ c. subscribers xs c + N c) s x
        (record { counts = Counts-ext _ _ s k (λ c. omega arith); unique = u }))
      (λ s' l. (l, us))
lose-Part N (suc n) s (x ∷ xs) (k, (u, us)) =
    Returns-bind (Part (λ c. count c x.channels + N c)) (Part N) (lose n s xs) _
      (lose-Part (λ c. count c x.channels + N c) n s xs (Counts-ext _ _ s k (λ c. omega arith), us))
      (λ p l. (Counts-ext _ _ p.0 l.0 (λ c. omega arith), (u, l.1)))

-- A signal writes to clients and changes no subscription.
channels-channel_packet : (sig : Signal) (x : Client) → (channel_packet sig x).channels ≡ x.channels
unfolding channel_packet
channels-channel_packet sig x = ground arith

subscribers-emit :
    (sig : Signal) (xs : List Client) (c : Bytes) → subscribers (emit sig xs) c ≡ subscribers xs c
unfolding emit
subscribers-emit sig [] c = refl
subscribers-emit sig (x ∷ xs) c =
    rw (channels-channel_packet sig x) (omega (arith, subscribers-emit sig xs c))

emit-Unique : (sig : Signal) (xs : List Client) → Unique xs → Unique (emit sig xs)
unfolding emit
emit-Unique sig [] h = h
emit-Unique sig (x ∷ xs) h = (rw (channels-channel_packet sig x) h.0, emit-Unique sig xs h.1)

emit-Inv :
    (sig : Signal) (s : Server) (xs : List Client)
    → Inv (record { server = s; clients = xs })
    → Inv (record { server = s; clients = emit sig xs })
emit-Inv sig s xs h = record {
  counts = Counts-ext _ _ s h.counts (λ c. sym (subscribers-emit sig xs c));
  unique = emit-Unique sig xs h.unique;
}

emit_all-Inv :
    (sigs : List Signal) (s : Server) (xs : List Client)
    → Inv (record { server = s; clients = xs })
    → Inv (record { server = s; clients = emit_all sigs xs })
unfolding emit_all
emit_all-Inv [] s xs h = h
emit_all-Inv (sig ∷ sigs) s xs h = emit_all-Inv sigs s (emit sig xs) (emit-Inv sig s xs h)

emit_option-Inv :
    (o : Option Signal) (s : Server) (xs : List Client)
    → Inv (record { server = s; clients = xs })
    → Inv (record { server = s; clients = emit_option o xs })
unfolding emit_option
emit_option-Inv none s xs h = h
emit_option-Inv (some sig) s xs h = emit-Inv sig s xs h

put-Ready :
    (k : Bytes) (m : Master) (ms : Dict (Option Master)) → Ready ms → Ready (put k (some m) ms)
unfolding put
put-Ready k m [] h = tt
put-Ready k m ((j, none) ∷ ms) h = absurd h
put-Ready k m ((j, some m') ∷ ms) h = elim (Bool-cases (bytes_eq j k)) [
  | inl e ↦ rw e h
  | inr e ↦ rw e (put-Ready k m ms h)
]

-- The timer gives every master a socket, whether or not it had one.
check_entries-Ready : (now : ℕ) (ms : Dict (Option Master)) → Ready (check_entries now ms)
unfolding check_entries
check_entries-Ready now [] = tt
check_entries-Ready now ((k, o) ∷ ms) = check_entries-Ready now ms

with_masters :
    (y : System) (ms : Dict (Option Master))
    → Inv y
    → Ready ms
    → Inv (record y { server = record y.server { masters = ms } })
with_masters y ms h r = record {
  counts = record { table = h.counts.table; ready = r };
  unique = h.unique;
}

read_entry-Inv :
    (now : ℕ) (k bytes : Bytes) (y : System) (o : Option (Option Master))
    → Inv y
    → Inv (read_entry now k bytes y o)
unfolding read_entry
read_entry-Inv now k bytes y none h = h
read_entry-Inv now k bytes y (some none) h = h
read_entry-Inv now k bytes y (some (some m)) h =
    let (sigs, m') = read_from_master now y.server (record m { input = m.input ++ bytes }) in
    emit_all-Inv sigs _ y.clients
      (with_masters y _ h (put-Ready k m' y.server.masters h.counts.ready))

connect_entry-Inv :
    (k : Bytes) (y : System) (o : Option (Option Master)) → Inv y → Inv (connect_entry k y o)
unfolding connect_entry
connect_entry-Inv k y none h = h
connect_entry-Inv k y (some none) h = h
connect_entry-Inv k y (some (some m)) h =
    with_masters y _ h (put-Ready k _ y.server.masters h.counts.ready)

-- Every event keeps the invariant, and is handled without a fault.
pub step-Inv : (e : Event) (y : System) → Inv y → Returns Inv (step e y)
unfolding step
step-Inv connects y h =
    unfold incoming_tcp new_client in
    record {
      counts = Counts-ext _ _ y.server h.counts (λ c. unfold count in omega arith);
      unique = ((λ c. unfold count in omega arith), h.unique);
    }
step-Inv (sends n t) y h =
    Returns-bind (Part (λ c. 0)) Inv (feed n t y.server y.clients) _
      (feed-Part (λ c. 0) n t y.server y.clients
        (Counts-ext _ _ y.server h.counts (λ c. omega arith), h.unique))
      (λ p k. record { counts = Counts-ext _ _ p.0 k.0 (λ c. omega arith); unique = k.1 })
step-Inv (datagram dat) y h =
    unfold incoming_datagram in emit_option-Inv (push_packet y.server dat) y.server y.clients h
step-Inv (leaves n) y h =
    Returns-bind (Part (λ c. 0)) Inv (lose n y.server y.clients) _
      (lose-Part (λ c. 0) n y.server y.clients
        (Counts-ext _ _ y.server h.counts (λ c. omega arith), h.unique))
      (λ p k. record { counts = Counts-ext _ _ p.0 k.0 (λ c. omega arith); unique = k.1 })
step-Inv (timeout now) y h =
    unfold check_masters in with_masters y _ h (check_entries-Ready now y.server.masters)
step-Inv (master_sends now k bytes) y h =
    unfold master_read in read_entry-Inv now k bytes y (find k y.server.masters) h
step-Inv (master_connects k) y h =
    unfold master_up in connect_entry-Inv k y (find k y.server.masters) h
step-Inv (reloads now names limits) y h =
    unfold reload check_masters in
    record {
      counts = record {
        table = h.counts.table;
        ready = check_entries-Ready now (drop_masters names (add_masters names y.server.masters));
      };
      unique = h.unique;
    }

run-Inv : (es : List Event) (y : System) → Inv y → Returns Inv (run es y)
unfolding run
run-Inv [] y h = h
run-Inv (e ∷ es) y h = Returns-bind Inv Inv (step e y) (run es) (step-Inv e y h) (run-Inv es)

init-Inv : Inv init
unfolding init find
init-Inv = record { counts = record { table = λ c. refl; ready = tt }; unique = tt }

-- After any sequence of events from the start of the daemon, the table holds for each channel the
-- number of clients that subscribe to it (and nothing where there is none), and no event on the way
-- has aborted the process or written to a master without a socket.
pub run-init-Inv : (es : List Event) → Returns Inv (run es init)
run-init-Inv es = run-Inv es init init-Inv
