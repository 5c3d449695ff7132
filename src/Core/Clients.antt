-- ===== src/Core/Clients.antt =====
-- mod/core/Daemon.cpp and mod/core/Client.cpp: what a daemon knows of its clients.
use pinetd.Prelude.{
  ℕ, ◌≡◌, refl, ap, ◌∙◌, if◌then◌else◌, Option, none, some, List, [], ◌∷◌, Bytes, Dict, find, put,
  remove, find-put, find-remove, bytes_eq,
}

-- `Client`: an object, with the identifier that it was given.
pub record Client : Type 0 where
  pub object : ℕ
  pub id : Bytes

-- `Daemon`
pub record Daemon : Type 0 where
  pub modname : Bytes
  pub instname : Bytes
  pub clients : Dict ℕ

-- `Daemon::Daemon`
unfoldable pub construct : Bytes → Bytes → Daemon
construct modname instname = record { modname = modname; instname = instname; clients = [] }

-- `instanceName`
unfoldable pub instance_name : Daemon → Bytes
instance_name d = d.instname

-- `Daemon::incomingTcp`, which a daemon overrides that takes connections: the calls on the socket.
pub data SocketCall : Type 0 where
  close : SocketCall
  delete_later : SocketCall

unfoldable pub incoming_tcp : Daemon → List SocketCall
incoming_tcp d = close ∷ delete_later ∷ []

-- `clientAdd`
unfoldable pub client_add : Client → Daemon → Daemon
unfolding put
client_add c d = record d { clients = put c.id c.object d.clients }

-- `clientLost`, with the identifier that is read from the destroyed object.
unfoldable pub client_lost : Bytes → Daemon → Daemon
unfolding remove
client_lost id d = record d { clients = remove id d.clients }

-- A client comes, or is destroyed while its memory still holds its identifier.
pub data Event : Type 0 where
  comes : Client → Event
  goes : Client → Event

abbrev pub run : List Event → Daemon → Daemon
run [] d = d
run (comes c ∷ es) d = run es (client_add c d)
run (goes c ∷ es) d = run es (client_lost c.id d)

-- Who has an identifier after some events, by the last of them that is about it.
abbrev pub holder : Bytes → List Event → Option ℕ → Option ℕ
holder id [] o = o
holder id (comes c ∷ es) o = holder id es (if bytes_eq c.id id then some c.object else o)
holder id (goes c ∷ es) o = holder id es (if bytes_eq c.id id then none else o)

-- The table of clients holds for an identifier the client that came with it last, until that client is destroyed.
pub find-run :
    (id : Bytes) (es : List Event) (d : Daemon)
    → find id (run es d).clients ≡ holder id es (find id d.clients)
unfolding client_add client_lost
find-run id [] d = refl
find-run id (comes c ∷ es) d =
    find-run id es (client_add c d)
    ∙ ap (λ (o : Option ℕ). holder id es o) (find-put c.id id c.object d.clients)
find-run id (goes c ∷ es) d =
    find-run id es (client_lost c.id d)
    ∙ ap (λ (o : Option ℕ). holder id es o) (find-remove c.id id d.clients)
