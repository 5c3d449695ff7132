-- ===== src/Ps/Refcount/OneClient.antt =====
-- The table of counts through what one ModPSClient is sent.
use pinetd.Prelude.{
  ℕ, zero, suc, ◌+◌, ◌*◌, ◌≤◌, ◌≡◌, inl, inr, ltb, ◌==◌, List, [], ◌∷◌, ◌++◌, Bytes, bytes_eq_iff,
  has, count, add, erase, has-count, count-add, count-erase, Bool-cases, arith, length, take, drop,
  slice, get_or, bit_and,
}
use pinetd.Prelude.Fault.{Returns, Returns-bind}
use pinetd.Ps.Server.{Server, packet_length, can_subscribe, channel_add_ref, channel_del_ref}
use pinetd.Ps.Client.{
  Client, handle_subscribe, handle_unsubscribe, handle_type, handle_packet, handle_packets, buffer,
  handle_buffer, release_channels, destroy,
}
use pinetd.Ps.Refcount.Counts.{Counts, channel_add_ref-Counts, channel_del_ref-Counts}

pub Counts-ext :
    (K K' : Bytes → ℕ) (s : Server) → Counts K s → ((c : Bytes) → K c ≡ K' c) → Counts K' s
Counts-ext K K' s h e = record { table = λ c. ground (arith, e c, h.table c); ready = h.ready }

-- A client's channels and N further subscriptions are what the table counts, and no channel is
-- twice in the client's set.
pub record Local (N : Bytes → ℕ) (p : Server × Client) : Type 0 where
  pub counts : Counts (λ c. count c (p.1).channels + N c) p.0
  pub unique : (c : Bytes) → count c (p.1).channels ≤ 1

module _ (N : Bytes → ℕ) where
  handle_subscribe-Local :
      (channel : Bytes) (s : Server) (x : Client)
      → Local N (s, x)
      → Returns (Local N) (handle_subscribe channel s x)
  unfolding handle_subscribe
  handle_subscribe-Local channel s x h = elim (Bool-cases (has channel x.channels)) [
    | inl e ↦ rw e h
    | inr e ↦ elim (Bool-cases (can_subscribe s channel)) [
      | inr q ↦ rw (e, q) (record { counts = h.counts; unique = h.unique })
      | inl q ↦
          rw (e, q)
            (Returns-bind (Counts (λ c. count c (add channel x.channels) + N c)) (Local N)
              (channel_add_ref s channel) _
              (channel_add_ref-Counts (λ c. count c x.channels + N c)
                (λ c. count c (add channel x.channels) + N c) s channel h.counts
                (λ c. omega (arith, count-add channel c x.channels e)))
              (λ s' k. record {
                counts = k;
                unique = λ c. ground (
                  arith,
                  count-add channel c x.channels e,
                  has-count channel x.channels,
                  bytes_eq_iff channel c,
                  h.unique c,
                );
              }))
    ]
  ]

  handle_unsubscribe-Local :
      (channel : Bytes) (s : Server) (x : Client)
      → Local N (s, x)
      → Returns (Local N) (handle_unsubscribe channel s x)
  unfolding handle_unsubscribe
  handle_unsubscribe-Local channel s x h = elim (Bool-cases (has channel x.channels)) [
    | inr e ↦ rw e h
    | inl e ↦ rw e (
        Returns-bind (Counts (λ c. count c (erase channel x.channels) + N c)) (Local N)
          (channel_del_ref s channel) _
          (channel_del_ref-Counts (λ c. count c x.channels + N c)
            (λ c. count c (erase channel x.channels) + N c) s channel h.counts
            (λ c. omega (arith, count-erase channel c x.channels e)))
          (λ s' k. record {
            counts = k;
            unique = λ c. omega (arith, count-erase channel c x.channels e, h.unique c);
          }))
  ]

  handle_type-Local :
      (type : ℕ) (packet : Bytes) (s : Server) (x : Client)
      → Local N (s, x)
      → Returns (Local N) (handle_type type packet s x)
  unfolding handle_type
  handle_type-Local type packet s x h = elim (Bool-cases (type == 0x80)) [
    | inl a ↦ rw a (record { counts = h.counts; unique = h.unique })
    | inr a ↦ elim (Bool-cases (type == 0x81)) [
      | inl b ↦ rw (a, b) (handle_subscribe-Local (slice 3 16 packet) s x h)
      | inr b ↦ elim (Bool-cases (type == 0x82)) [
        | inl c ↦ rw (a, b, c) (handle_unsubscribe-Local (slice 3 16 packet) s x h)
        | inr c ↦ rw (a, b, c) h
      ]
    ]
  ]

  handle_packet-Local :
      (packet : Bytes) (s : Server) (x : Client)
      → Local N (s, x)
      → Returns (Local N) (handle_packet packet s x)
  unfolding handle_packet
  handle_packet-Local packet s x h = elim (Bool-cases (bit_and (get_or packet 2 0) 0x80 == 0)) [
    | inl e ↦ rw e (record { counts = h.counts; unique = h.unique })
    | inr e ↦ rw e (handle_type-Local (get_or packet 2 0) packet s x h)
  ]

  handle_packets-Local :
      (fuel : ℕ) (s : Server) (x : Client)
      → Local N (s, x)
      → Returns (Local N) (handle_packets fuel s x)
  unfolding handle_packets
  handle_packets-Local zero s x h = h
  handle_packets-Local (suc fuel) s x h =
      let len = packet_length x.buf_in in
      let x' = record x { buf_in = drop len x.buf_in } in
      let go =
        Returns-bind (Local N) (Local N) (handle_packet (take len x.buf_in) s x')
          (λ p. handle_packets fuel p.0 p.1)
          (handle_packet-Local (take len x.buf_in) s x'
            (record { counts = h.counts; unique = h.unique }))
          (λ p k. handle_packets-Local fuel p.0 p.1 k) in
      elim (Bool-cases (ltb (length x.buf_in) 2)) [
        | inl a ↦ rw a h
        | inr a ↦ elim (Bool-cases (ltb (length x.buf_in) len)) [
          | inl b ↦ rw (a, b) h
          | inr b ↦ rw (a, b) go
        ]
      ]

  buffer-Local : (t : Bytes) (s : Server) (x : Client) → Local N (s, x) → Local N (s, buffer t x)
  unfolding buffer
  buffer-Local t s x h = elim (Bool-cases (ltb (100 * 1024) (length (x.buf_in ++ t)))) [
    | inl e ↦ rw e (record { counts = h.counts; unique = h.unique })
    | inr e ↦ rw e (record { counts = h.counts; unique = h.unique })
  ]

  -- The bytes that a client sends keep its channels counted.
  pub handle_buffer-Local :
      (t : Bytes) (s : Server) (x : Client)
      → Local N (s, x)
      → Returns (Local N) (handle_buffer t s x)
  unfolding handle_buffer
  handle_buffer-Local t s x h =
      handle_packets-Local (length (buffer t x).buf_in) s (buffer t x) (buffer-Local t s x h)

  release_channels-Counts :
      (cs : List Bytes) (s : Server)
      → Counts (λ c. count c cs + N c) s
      → Returns (Counts N) (release_channels cs s)
  unfolding release_channels
  release_channels-Counts [] s h = Counts-ext _ N s h (λ c. unfold count in omega arith)
  release_channels-Counts (b ∷ cs) s h =
      Returns-bind (Counts (λ c. count c cs + N c)) (Counts N) (channel_del_ref s b)
        (release_channels cs)
        (channel_del_ref-Counts (λ c. count c (b ∷ cs) + N c) (λ c. count c cs + N c) s b h
          (λ c. unfold count in omega arith))
        (release_channels-Counts cs)

  -- A destroyed client gives back each of its subscriptions, and none of another.
  pub destroy-Counts : (s : Server) (x : Client) → Local N (s, x) → Returns (Counts N) (destroy s x)
  unfolding destroy
  destroy-Counts s x h = release_channels-Counts x.channels s h.counts
