-- ===== src/Line/Broadcast.antt =====
-- mod/daemon/broadcast: ModBroadcast and ModBroadcastClient, and what the clients are sent.
use pinetd.Prelude.{
  false, ℕ, zero, suc, ◌≡◌, refl, sym, ap, ◌∙◌, List, [], ◌∷◌, ◌++◌, Bytes, map, All, append_assoc,
  append-nil, Option, none, some,
}
use mathlib.Core.Option.{some-injective}
use native.Mathlib.Omega.{arith}
use pinetd.Line.{ClientTcpLine, trimmed, handle_buffer}
use pinetd.Line.Lines.{IsLine, joined, handle_buffer-joined}

-- `ModBroadcastClient`, with what was written to its socket.
pub record Member : Type 0 where
  pub line : ClientTcpLine
  pub sent : Bytes

-- `ModBroadcast::incomingTcp`: a new client, connected to both signals.
unfoldable pub incoming_tcp : List Member → List Member
incoming_tcp ms =
    ms
    ++ (record { line = record { read_buffer = []; lines = []; closed = false }; sent = [] } ∷ [])

-- `ModBroadcastClient::send`
unfoldable pub send : Bytes → Member → Member
send buf m = record m { sent = m.sent ++ (buf ++ (13 ∷ 10 ∷ [])) }

-- `ModBroadcast::incoming`: the signal calls `send` of every client.
unfoldable pub incoming : Bytes → List Member → List Member
unfolding send
incoming l ms = map (send l) ms

unfoldable pub incoming_all : List Bytes → List Member → List Member
unfolding incoming
incoming_all [] ms = ms
incoming_all (l ∷ ls) ms = incoming_all ls (incoming l ms)

-- The client at position n reads bytes; the result is the clients with its buffer renewed, and the
-- lines for which its `handleLine` emits `recv`.
unfoldable pub read_at : ℕ → Bytes → List Member → List Member × List Bytes
read_at n buf [] = ([], [])
read_at zero buf (m ∷ ms) =
    let c = handle_buffer buf (record (m.line) { lines = [] }) in
    (record m { line = c } ∷ ms, c.lines)
read_at (suc n) buf (m ∷ ms) = let (ms', ls) = read_at n buf ms in (m ∷ ms', ls)

-- Bytes from the client at position n, with the broadcasts that they cause.
unfoldable pub feed : ℕ → Bytes → List Member → List Member
feed n buf ms = let (ms', ls) = read_at n buf ms in incoming_all ls ms'

-- What a client is sent for a list of lines.
abbrev pub sent_for : List Bytes → Bytes
sent_for [] = []
sent_for (l ∷ ls) = (l ++ (13 ∷ 10 ∷ [])) ++ sent_for ls

abbrev pub outputs : List Member → List Bytes
outputs ms = map (λ m. m.sent) ms

incoming-outputs :
    (l : Bytes) (ms : List Member)
    → outputs (incoming l ms) ≡ map (λ s. s ++ (l ++ (13 ∷ 10 ∷ []))) (outputs ms)
unfolding incoming send
incoming-outputs l [] = refl
incoming-outputs l (m ∷ ms) =
    ap (λ t. (m.sent ++ (l ++ (13 ∷ 10 ∷ []))) ∷ t) (incoming-outputs l ms)

map_append :
    (a b : Bytes) (ss : List Bytes)
    → map (λ s. s ++ b) (map (λ s. s ++ a) ss) ≡ map (λ s. s ++ (a ++ b)) ss
map_append a b [] = refl
map_append a b (s ∷ ss) = rw (append_assoc s a b, map_append a b ss)

map_append_nil : (ss : List Bytes) → map (λ s. s ++ []) ss ≡ ss
map_append_nil [] = refl
map_append_nil (s ∷ ss) = rw (append-nil s, map_append_nil ss)

incoming_all-outputs :
    (ls : List Bytes) (ms : List Member)
    → outputs (incoming_all ls ms) ≡ map (λ s. s ++ sent_for ls) (outputs ms)
unfolding incoming_all
incoming_all-outputs [] ms = sym (map_append_nil (outputs ms))
incoming_all-outputs (l ∷ ls) ms =
    incoming_all-outputs ls (incoming l ms)
    ∙ ap (λ (t : List Bytes). map (λ s. s ++ sent_for ls) t) (incoming-outputs l ms)
    ∙ map_append (l ++ (13 ∷ 10 ∷ [])) (sent_for ls) (outputs ms)

-- The client that reads, if there is one at the position.
abbrev pub member_at : ℕ → List Member → Option Member
member_at n [] = none
member_at zero (m ∷ ms) = some m
member_at (suc n) (m ∷ ms) = member_at n ms

read_at-outputs :
    (n : ℕ) (buf : Bytes) (ms : List Member) → outputs (read_at n buf ms).0 ≡ outputs ms
unfolding read_at
read_at-outputs n buf [] = refl
read_at-outputs zero buf (m ∷ ms) = refl
read_at-outputs (suc n) buf (m ∷ ms) = ap (λ t. m.sent ∷ t) (read_at-outputs n buf ms)

read_at-lines :
    (n : ℕ) (buf rest : Bytes) (ls : List Bytes) (m : Member) (ms : List Member)
    → member_at n ms ≡ some m
    → (m.line).read_buffer ++ buf ≡ joined ls ++ rest
    → All IsLine ls
    → IsLine rest
    → (read_at n buf ms).1 ≡ map trimmed ls
unfolding read_at
read_at-lines n buf rest ls m [] e b h r = absurd (ground arith)
read_at-lines zero buf rest ls m (m' ∷ ms) e b h r =
    let q : m' ≡ m = some-injective _ _ e in
    ap (λ (c : ClientTcpLine). c.lines)
      (handle_buffer-joined ls rest buf (record (m'.line) { lines = [] }) (rw q b) h r)
read_at-lines (suc n) buf rest ls m (m' ∷ ms) e b h r = read_at-lines n buf rest ls m ms e b h r

-- The complete lines that a client's bytes make up are sent to every client, each trimmed and ended
-- by CR LF, in order, behind what that client was sent before.
pub feed-outputs :
    (n : ℕ) (buf rest : Bytes) (ls : List Bytes) (m : Member) (ms : List Member)
    → member_at n ms ≡ some m
    → (m.line).read_buffer ++ buf ≡ joined ls ++ rest
    → All IsLine ls
    → IsLine rest
    → outputs (feed n buf ms) ≡ map (λ s. s ++ sent_for (map trimmed ls)) (outputs ms)
unfolding feed
feed-outputs n buf rest ls m ms e b h r = rw (read_at-lines n buf rest ls m ms e b h r) (
    incoming_all-outputs (map trimmed ls) (read_at n buf ms).0
    ∙ ap (λ (t : List Bytes). map (λ s. s ++ sent_for (map trimmed ls)) t)
        (read_at-outputs n buf ms))
