-- ===== src/Ps/Framing.antt =====
-- ModPSClient::handleBuffer: the stream of bytes and its packets.
use pinetd.Prelude.{
  ℕ, zero, suc, ◌*◌, ◌≤◌, ◌<◌, ◌≡◌, ◌⊎◌, inl, inr, refl, ap, ◌∙◌, ltb, lt→ltb, le→ltb, List, [],
  ◌∷◌, ◌++◌, Option, none, some, Bytes, Bool-cases, arith, length, All, append_assoc, length-append,
  take-append, drop-append, get_or-append,
}
use pinetd.Prelude.Fault.{◌>>=◌}
use pinetd.Ps.Server.{Server, packet_length}
use pinetd.Ps.Client.{
  Client, write, close, handle_subscribe, handle_unsubscribe, handle_type, handle_packet,
  handle_packets, buffer, handle_buffer,
}

-- The packet's own length field covers it.
abbrev pub IsPacket : Bytes → Type 0
IsPacket p = (2 ≤ length p) × (packet_length p ≡ length p)

-- The beginning of a packet, perhaps empty.
abbrev pub IsPartial : Bytes → Type 0
IsPartial r = (length r < 2) ⊎ (length r < packet_length r)

abbrev pub concat : List Bytes → Bytes
concat [] = []
concat (p ∷ ps) = p ++ concat ps

-- The packets handled one after the other, in order.
abbrev pub handle_all : List Bytes → Server → Client → Option (Server × Client)
handle_all [] s x = some (s, x)
handle_all (p ∷ ps) s x = handle_packet p s x >>= λ q. handle_all ps q.0 q.1

abbrev pub with_buffer : Bytes → Option (Server × Client) → Option (Server × Client)
with_buffer b o = o >>= λ q. some (q.0, record (q.1) { buf_in = b })

-- A packet is handled without a look at the bytes behind it, which stay as they are.
handle_packet-buffer :
    (p b : Bytes) (s : Server) (x : Client)
    → handle_packet p s (record x { buf_in = b }) ≡ with_buffer b (handle_packet p s x)
unfolding handle_packet handle_type handle_subscribe handle_unsubscribe write close
handle_packet-buffer p b s x = ground arith

packet_length-append : (p r : Bytes) → 2 ≤ length p → packet_length (p ++ r) ≡ packet_length p
unfolding packet_length
packet_length-append p r h =
    rw (get_or-append p r 0 0 (omega arith), get_or-append p r 1 0 (omega arith))

-- One round of the loop takes the packet at the front.
handle_packets_step :
    (fuel : ℕ) (p tail : Bytes) (s : Server) (x : Client)
    → IsPacket p
    → handle_packets (suc fuel) s (record x { buf_in = p ++ tail })
      ≡ (handle_packet p s (record x { buf_in = tail }) >>= λ q. handle_packets fuel q.0 q.1)
unfolding handle_packets
handle_packets_step fuel p tail s x (two, len) =
    let size = length-append p tail in
    let same : packet_length (p ++ tail) ≡ length p = packet_length-append p tail two ∙ len in
    rw (
      same,
      take-append (length p) p tail refl,
      drop-append (length p) p tail refl,
      le→ltb (length (p ++ tail)) 2 (omega arith),
      le→ltb (length (p ++ tail)) (length p) (omega arith),
    )

handle_packets_partial :
    (fuel : ℕ) (s : Server) (x : Client)
    → IsPartial x.buf_in
    → handle_packets fuel s x ≡ some (s, x)
unfolding handle_packets
handle_packets_partial zero s x h = refl
handle_packets_partial (suc fuel) s x (inl h) = rw (lt→ltb (length x.buf_in) 2 h)
handle_packets_partial (suc fuel) s x (inr h) = elim (Bool-cases (ltb (length x.buf_in) 2)) [
  | inl e ↦ rw e
  | inr e ↦ rw (e, lt→ltb (length x.buf_in) (packet_length x.buf_in) h)
]

after_packet :
    (fuel : ℕ) (ps : List Bytes) (tail rest : Bytes) (o : Option (Server × Client))
    → ((s : Server) (x : Client)
        → handle_packets fuel s (record x { buf_in = tail }) ≡ with_buffer rest (handle_all ps s x))
    → (with_buffer tail o >>= λ q. handle_packets fuel q.0 q.1)
      ≡ with_buffer rest (o >>= λ q. handle_all ps q.0 q.1)
after_packet fuel ps tail rest none h = refl
after_packet fuel ps tail rest (some (s, x)) h = h s x

handle_packets-concat :
    (fuel : ℕ) (ps : List Bytes) (rest : Bytes) (s : Server) (x : Client)
    → All IsPacket ps
    → IsPartial rest
    → length (concat ps ++ rest) ≤ fuel
    → handle_packets fuel s (record x { buf_in = concat ps ++ rest })
      ≡ with_buffer rest (handle_all ps s x)
handle_packets-concat fuel [] rest s x h r f =
    handle_packets_partial fuel s (record x { buf_in = rest }) r
handle_packets-concat zero (p ∷ ps) rest s x h r f =
    absurd (omega (arith, h.0, length-append (p ++ concat ps) rest, length-append p (concat ps)))
handle_packets-concat (suc fuel) (p ∷ ps) rest s x h r f =
    let tail = concat ps ++ rest in
    let enough : length tail ≤ fuel = omega (
      arith,
      h.0,
      ap (λ (t : Bytes). length t) (append_assoc p (concat ps) rest),
      length-append p tail,
    ) in
    rw
      (
        append_assoc p (concat ps) rest,
        handle_packets_step fuel p tail s x h.0,
        handle_packet-buffer p tail s x,
      )
      (after_packet fuel ps tail rest (handle_packet p s x)
        (λ s' x'. handle_packets-concat fuel ps rest s' x' h.1 r enough))

-- However the bytes arrive, within the limit of 100 kB: if what was kept and what comes in are whole
-- packets and the beginning of another, each packet is handled once, in order, and the incomplete
-- one is kept.
pub handle_buffer-concat :
    (ps : List Bytes) (rest t : Bytes) (s : Server) (x : Client)
    → x.buf_in ++ t ≡ concat ps ++ rest
    → All IsPacket ps
    → IsPartial rest
    → length (concat ps ++ rest) ≤ 100 * 1024
    → handle_buffer t s x ≡ with_buffer rest (handle_all ps s x)
unfolding handle_buffer buffer close
handle_buffer-concat ps rest t s x e h r limit =
    simp (e, le→ltb (100 * 1024) (length (concat ps ++ rest)) limit)
      (handle_packets-concat (length (concat ps ++ rest)) ps rest s x h r (omega arith))
