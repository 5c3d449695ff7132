-- ===== src/Ps/Delivery.antt =====
-- ModPS::pushPacket: which datagrams are signalled to the clients, and with what.
use pinetd.Prelude.{
  ℕ, suc, ◌≤◌, ◌<◌, ◌≡◌, ◌⊎◌, inl, inr, refl, sym, ◌∙◌, ltb, ltb→lt, lt→ltb, le→ltb, ◌==◌, ==_iff,
  if◌then◌else◌, not, true, false, Option, none, some, Bytes, Bool-cases, arith, length, take,
  slice, get_or, get_or-take, length-take, take_all, has_key,
}
use pinetd.Ps.Server.{Server, Signal, packet_length, is_control, push_packet, push_packet_fuel}

-- A datagram with a whole data packet for a channel that a client subscribes to.
abbrev pub IsDeliverable : Server → Bytes → Type 0
IsDeliverable s dat =
    (17 ≤ packet_length dat)
    × (packet_length dat ≤ length dat)
    × (is_control (get_or (take (packet_length dat) dat) 2 0) ≡ false)
    × (has_key (slice 3 16 (take (packet_length dat) dat)) s.channel_refcount ≡ true)

-- The signal for the packet at the front of a datagram.
abbrev pub signal_of : Bytes → Signal
signal_of dat = record {
  packet = take (packet_length dat) dat;
  channel = slice 3 16 (take (packet_length dat) dat);
  type = get_or (take (packet_length dat) dat) 2 0;
}

packet_length-ge : (dat : Bytes) → 2 ≤ packet_length dat
unfolding packet_length
packet_length-ge dat = omega arith

packet_length-take :
    (dat : Bytes) → packet_length (take (packet_length dat) dat) ≡ packet_length dat
packet_length-take dat =
    let n = packet_length dat in
    let first = get_or-take n dat 0 0 (omega (arith, packet_length-ge dat)) in
    let second = get_or-take n dat 1 0 (omega (arith, packet_length-ge dat)) in
    unfold packet_length in omega (arith, first, second)

-- What is left to test of a packet whose size is right.
abbrev deliver : Server → Bytes → Option Signal
deliver s p =
    if get_or p 2 0 == 0x80
    then none
    else if is_control (get_or p 2 0)
    then none
    else if not (has_key (slice 3 16 p) s.channel_refcount)
    then none
    else some (record { packet = p; channel = slice 3 16 p; type = get_or p 2 0 })

push_whole :
    (fuel : ℕ) (s : Server) (p : Bytes)
    → packet_length p ≡ length p
    → 17 ≤ length p
    → push_packet_fuel (suc fuel) s p ≡ deliver s p
unfolding push_packet_fuel
push_whole fuel s p e h = rw (e, le→ltb (length p) 17 h, le→ltb (length p) (length p) (omega arith))

push_longer :
    (fuel : ℕ) (s : Server) (dat : Bytes)
    → 17 ≤ packet_length dat
    → packet_length dat < length dat
    → push_packet_fuel (suc fuel) s dat ≡ push_packet_fuel fuel s (take (packet_length dat) dat)
unfolding push_packet_fuel
push_longer fuel s dat h k = rw (
  le→ltb (packet_length dat) 17 h,
  le→ltb (length dat) (packet_length dat) (omega arith),
  lt→ltb (packet_length dat) (length dat) k,
)

push_deliver :
    (s : Server) (dat : Bytes)
    → 17 ≤ packet_length dat
    → packet_length dat ≤ length dat
    → push_packet s dat ≡ deliver s (take (packet_length dat) dat)
unfolding push_packet
push_deliver s dat h k =
    let n = packet_length dat in
    let size : length (take n dat) ≡ n = omega (arith, length-take n dat) in
    elim (Bool-cases (ltb n (length dat))) [
      | inl e ↦
          push_longer 1 s dat h (ltb→lt n (length dat) e)
          ∙ push_whole 0 s (take n dat) (packet_length-take dat ∙ sym size) (omega arith)
      | inr e ↦
          let all : length dat ≤ n = ground arith in
          rw (take_all n dat all) (push_whole 1 s dat (omega arith) (omega arith))
    ]

push_refused :
    (s : Server) (dat : Bytes)
    → (packet_length dat < 17) ⊎ (length dat < packet_length dat)
    → push_packet s dat ≡ none
unfolding push_packet push_packet_fuel
push_refused s dat (inl h) = rw (lt→ltb (packet_length dat) 17 h)
push_refused s dat (inr h) = elim (Bool-cases (ltb (packet_length dat) 17)) [
  | inl e ↦ rw e
  | inr e ↦ rw (e, lt→ltb (length dat) (packet_length dat) h)
]

deliver_cases :
    (s : Server) (p : Bytes)
    → ((is_control (get_or p 2 0) ≡ false)
        × (has_key (slice 3 16 p) s.channel_refcount ≡ true)
        × (deliver s p ≡ some (record { packet = p; channel = slice 3 16 p; type = get_or p 2 0 })))
      ⊎ (¬ (
            (is_control (get_or p 2 0) ≡ false)
            × (has_key (slice 3 16 p) s.channel_refcount ≡ true))
          × (deliver s p ≡ none))
deliver_cases s p =
    let control : is_control 0x80 ≡ true = refl in
    elim (Bool-cases (get_or p 2 0 == 0x80)) [
      | inl a ↦
          let pong : is_control (get_or p 2 0) ≡ true =
            rw ((==_iff (get_or p 2 0) 0x80).0 a) control in
          inr ((λ h. cc), rw a)
      | inr a ↦ elim (Bool-cases (is_control (get_or p 2 0))) [
        | inl b ↦ inr ((λ h. cc), rw (a, b))
        | inr b ↦ elim (Bool-cases (has_key (slice 3 16 p) s.channel_refcount)) [
          | inl c ↦ inl (b, c, rw (a, b, c))
          | inr c ↦ inr ((λ h. cc), rw (a, b, c))
        ]
      ]
    ]

-- A datagram gives a signal exactly if it starts with a whole data packet of 17 bytes or more, for
-- a channel that is counted; the signal carries that packet alone, its channel and its type, and
-- what stands behind the packet is dropped.
pub push_packet_cases :
    (s : Server) (dat : Bytes)
    → (IsDeliverable s dat × (push_packet s dat ≡ some (signal_of dat)))
      ⊎ (¬ IsDeliverable s dat × (push_packet s dat ≡ none))
push_packet_cases s dat = elim (Bool-cases (ltb (packet_length dat) 17)) [
  | inl a ↦
      let small = ltb→lt (packet_length dat) 17 a in
      inr ((λ h. omega arith), push_refused s dat (inl small))
  | inr a ↦ elim (Bool-cases (ltb (length dat) (packet_length dat))) [
    | inl b ↦
        let short = ltb→lt (length dat) (packet_length dat) b in
        inr ((λ h. omega arith), push_refused s dat (inr short))
    | inr b ↦
        let big : 17 ≤ packet_length dat = ground arith in
        let whole : packet_length dat ≤ length dat = ground arith in
        elim (deliver_cases s (take (packet_length dat) dat)) [
          | inl (c, k, e) ↦ inl ((big, whole, c, k), push_deliver s dat big whole ∙ e)
          | inr (f, e) ↦ inr ((λ h. f (h.2, h.3)), push_deliver s dat big whole ∙ e)
        ]
  ]
]
