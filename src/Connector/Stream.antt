-- ===== src/Connector/Stream.antt =====
-- The stream of packets of `sendPacket`, and the loop of `handleBuffer`.
use pinetd.Prelude.{
  ℕ, zero, suc, ◌+◌, ◌-◌, ◌%◌, ◌^◌, ◌≤◌, ◌<◌, ◌≡◌, ◌≢◌, refl, sym, ap, ◌∙◌, lt→ltb, le→ltb, List,
  [], ◌∷◌, ◌++◌, Bool, none, some, Bytes, bytes_eq_refl, length, take, drop, slice, replicate, All,
  append_assoc, length-append, length-take, length-replicate, take-append, drop-append, drop-drop,
  arith,
}
use pinetd.DataStream.{le_bytes}
use pinetd.Connector.{
  magic, packet_bytes, without_zeros, data_at, packet_size, waits, packet, checked, front, Peer,
  Slots, invoke, handle_front, handle_packets, handle_buffer,
}
use pinetd.Connector.Frames.{fields, front-fields, slice-name, slice-sum, drop-sum, length-fields}

pub record Message : Type 0 where
  pub type : Bytes
  pub content : Bytes

-- A type of 12 bytes at most without a zero, and content that an int can measure.
pub record IsMessage (m : Message) : Type 0 where
  pub nonzero : All (λ b. b ≢ 0) m.type
  pub type : length m.type ≤ 12
  pub content : length m.content < 2 ^ 31 - 24

-- The hash gives its four bytes at least, as SHA-256 does.
abbrev pub IsHash : (Bytes → Bytes) → Type 0
IsHash hash = (dat : Bytes) → 4 ≤ length (hash dat)

without_zeros-zeros : (n : ℕ) → without_zeros (replicate n 0) ≡ []
unfolding without_zeros
without_zeros-zeros zero = refl
without_zeros-zeros (suc n) = without_zeros-zeros n

without_zeros-padded :
    (bs : Bytes) (n : ℕ) → All (λ b. b ≢ 0) bs → without_zeros (bs ++ replicate n 0) ≡ bs
unfolding without_zeros
without_zeros-padded [] n h = without_zeros-zeros n
without_zeros-padded (b ∷ bs) n (h, hs) = ground (arith, h, without_zeros-padded bs n hs)

-- A packet is taken if it is there, up to its size, and its sum is right.
checked-packet :
    (hash : Bytes → Bytes) (len k : ℕ) (buf type dat rest : Bytes)
    → packet_size len ≡ k
    → k ≤ length buf
    → data_at len buf ≡ dat
    → slice 20 4 buf ≡ take 4 (hash dat)
    → without_zeros (slice 4 12 buf) ≡ type
    → drop k buf ≡ rest
    → checked hash len buf ≡ packet type dat rest
unfolding checked
checked-packet hash len k buf type dat rest size there inside sum name behind =
    rw
      (
        size,
        inside,
        le→ltb (length buf) k there,
        sum,
        bytes_eq_refl (take 4 (hash dat)),
        name,
        behind,
      )
      refl

-- Packets one after the other, and what the slots make of them.
abbrev pub sent : (Bytes → Bytes) → List Message → Bytes
sent hash [] = []
sent hash (m ∷ ms) = packet_bytes hash m.type m.content ++ sent hash ms

abbrev pub invoke_all : {S : Type 0} → Slots S → List Message → S → S
invoke_all slots [] x = x
invoke_all slots (m ∷ ms) x = invoke_all slots ms (invoke (slots m.type) m.content x)

module _ (hash : Bytes → Bytes) (is_hash : IsHash hash) where
  length-sum : (dat : Bytes) → length (take 4 (hash dat)) ≡ 4
  length-sum dat = omega (arith, length-take 4 (hash dat), is_hash dat)

  packet_shape :
      (m : Message) (rest : Bytes)
      → IsMessage m
      → packet_bytes hash m.type m.content ++ rest
        ≡ fields
            (m.type ++ replicate (12 - length m.type) 0)
            (length m.content)
            (take 4 (hash m.content))
            (m.content ++ rest)
  unfolding packet_bytes
  packet_shape m rest h =
      let name = m.type ++ replicate (12 - length m.type) 0 in
      let len = le_bytes 4 (length m.content) in
      let sum = take 4 (hash m.content) in
      let cut : length m.content % 2 ^ 32 ≡ length m.content = omega (arith, h.content) in
      rw cut (
        ap (λ (t : Bytes). magic ++ t)
          (append_assoc name (len ++ (sum ++ m.content)) rest
            ∙ ap (λ (t : Bytes). name ++ t)
                (append_assoc len (sum ++ m.content) rest
                  ∙ ap (λ (t : Bytes). len ++ t) (append_assoc sum m.content rest))))

  -- A packet at the front is read back, with what follows it.
  front-packet :
      (m : Message) (rest : Bytes)
      → IsMessage m
      → front hash (packet_bytes hash m.type m.content ++ rest) ≡ packet m.type m.content rest
  unfolding data_at packet_size
  front-packet m rest h =
      let name = m.type ++ replicate (12 - length m.type) 0 in
      let len = length m.content in
      let sum = take 4 (hash m.content) in
      let dat = m.content ++ rest in
      let n : length name ≡ 12 = omega (
        arith,
        length-append m.type (replicate (12 - length m.type) 0),
        length-replicate {A = ℕ} (12 - length m.type) 0,
        h.type,
      ) in
      let l : len < 2 ^ 32 = omega (arith, h.content) in
      let s = length-sum m.content in
      let size : (24 + len) % 2 ^ 32 ≡ 24 + len = omega (arith, h.content) in
      let there : 24 + len ≤ length (fields name len sum dat) =
        omega (arith, length-fields name len sum dat n l s, length-append m.content rest) in
      let behind : drop (24 + len) (fields name len sum dat) ≡ rest =
        sym (drop-drop 24 len (fields name len sum dat))
        ∙ ap (λ (t : Bytes). drop len t) (drop-sum name len sum dat n l s)
        ∙ drop-append len m.content rest refl in
      let inside : slice 24 len (fields name len sum dat) ≡ m.content =
        ap (λ (t : Bytes). take len t) (drop-sum name len sum dat n l s)
        ∙ take-append len m.content rest refl in
      rw (packet_shape m rest h) (
        front-fields name len sum dat n l s hash
        ∙ checked-packet hash len (24 + len) (fields name len sum dat) m.type m.content rest size
            there (rw (lt→ltb len (2 ^ 31) (omega (arith, h.content))) inside)
            (slice-sum name len sum dat n l s)
            (ap without_zeros (slice-name name len sum dat n l s)
              ∙ without_zeros-padded m.type (12 - length m.type) h.nonzero)
            behind)

  handle_packets-sent :
      {S : Type 0} (slots : Slots S) (ms : List Message) (rest : Bytes) (p : Peer S)
      → All IsMessage ms
      → front hash rest ≡ waits
      → handle_packets hash slots (suc (length ms)) (record p { in_buf = sent hash ms ++ rest })
        ≡ some (record p { in_buf = rest; state = invoke_all slots ms p.state })
  unfolding handle_packets handle_front
  handle_packets-sent slots [] rest p h w = rw w refl
  handle_packets-sent slots (m ∷ ms) rest p (h, hs) w =
      let e : front hash ((packet_bytes hash m.type m.content ++ sent hash ms) ++ rest)
          ≡ packet m.type m.content (sent hash ms ++ rest) =
        ap (λ (t : Bytes). front hash t)
          (append_assoc (packet_bytes hash m.type m.content) (sent hash ms) rest)
        ∙ front-packet m (sent hash ms ++ rest) h in
      rw e (
        handle_packets-sent slots ms rest
          (record p { state = invoke (slots m.type) m.content p.state }) hs w)

  -- However the bytes arrive: if what was kept and what comes in are packets in the form of `sendPacket`
  -- and the beginning of another, `handleBuffer` ends with fuel for each packet and one more, each
  -- packet's slot is called once with its content, in order, and the beginning is kept.
  pub handle_buffer-sent :
      {S : Type 0} (slots : Slots S) (ms : List Message) (rest dat : Bytes) (p : Peer S)
      → p.in_buf ++ dat ≡ sent hash ms ++ rest
      → All IsMessage ms
      → front hash rest ≡ waits
      → handle_buffer hash slots (suc (length ms)) dat p
        ≡ some (record p { in_buf = rest; state = invoke_all slots ms p.state })
  unfolding handle_buffer
  handle_buffer-sent slots ms rest dat p e h w = rw e (handle_packets-sent slots ms rest p h w)

  front-endless :
      (name dat : Bytes)
      → length name ≡ 12
      → (let buf = fields name (2 ^ 32 - 24) (take 4 (hash dat)) dat in
          front hash buf ≡ packet (without_zeros name) dat buf)
  unfolding data_at packet_size
  front-endless name dat n =
      let sum = take 4 (hash dat) in
      let l : 2 ^ 32 - 24 < 2 ^ 32 = omega arith in
      let s = length-sum dat in
      front-fields name (2 ^ 32 - 24) sum dat n l s hash
      ∙ checked-packet hash (2 ^ 32 - 24) 0 (fields name (2 ^ 32 - 24) sum dat) (without_zeros name)
          dat (fields name (2 ^ 32 - 24) sum dat) refl (omega arith)
          (drop-sum name (2 ^ 32 - 24) sum dat n l s) (slice-sum name (2 ^ 32 - 24) sum dat n l s)
          (ap without_zeros (slice-name name (2 ^ 32 - 24) sum dat n l s)) refl

  handle_packets-endless :
      {S : Type 0} (slots : Slots S) (fuel : ℕ) (name dat : Bytes) (closed : Bool) (x : S)
      → length name ≡ 12
      → handle_packets hash slots fuel (record {
        in_buf = fields name (2 ^ 32 - 24) (take 4 (hash dat)) dat;
        closed = closed;
        state = x;
      })
        ≡ none
  unfolding handle_packets handle_front
  handle_packets-endless slots zero name dat closed x n = refl
  handle_packets-endless slots (suc fuel) name dat closed x n = rw (front-endless name dat n) (
      handle_packets-endless slots fuel name dat closed (invoke (slots (without_zeros name)) dat x)
        n)

  -- A packet whose length field is 2^32 - 24, with a right checksum, hangs the daemon, whatever its type
  -- and content: 24 plus the length is 0 in 32 bits, so that the packet is taken for complete, its slot is called, nothing
  -- is removed, and the loop never ends.
  pub handle_buffer-endless :
      {S : Type 0} (slots : Slots S) (fuel : ℕ) (name dat : Bytes) (closed : Bool) (x : S)
      → length name ≡ 12
      → handle_buffer hash slots fuel
          (fields name (2 ^ 32 - 24) (take 4 (hash dat)) dat)
          (record { in_buf = []; closed = closed; state = x })
        ≡ none
  unfolding handle_buffer
  handle_buffer-endless slots fuel name dat closed x n =
      handle_packets-endless slots fuel name dat closed x n
