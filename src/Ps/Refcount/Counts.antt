-- ===== src/Ps/Refcount/Counts.antt =====
-- ModPS: `channelAddRef` and `channelDelRef` on the table of counts, and the writes to the masters.
use pinetd.Prelude.{
  ℕ, ◌+◌, ◌-◌, ◌<◌, ◌≡◌, inl, inr, leb, ◌==◌, if◌then◌else◌, [], ◌∷◌, true, false, Option, none,
  some, Bytes, find, has_key, put, remove, bytes_eq, bytes_eq_iff, bytes_eq_refl, find-put,
  find-remove, has_key-find, Dict, Bool-cases, arith,
}
use pinetd.Prelude.Fault.{Returns, Returns-bind}
use pinetd.Ps.Server.{
  Server, Master, write_all, write_master, do_subscribe, do_unsubscribe, refcount, channel_add_ref,
  channel_del_ref, subscribe_packet, unsubscribe_packet,
}

-- What the table holds for a channel with n subscriptions.
abbrev pub counted : ℕ → Option ℕ
counted n = if n == 0 then none else some n

-- 1 for the channel itself, 0 for the others.
abbrev pub one_at : Bytes → Bytes → ℕ
one_at channel c = if bytes_eq channel c then 1 else 0

-- Every master has its socket.
abbrev pub Ready : Dict (Option Master) → Type 0
Ready [] = Unit {0}
Ready ((k, none) ∷ ms) = ⊥
Ready ((k, some m) ∷ ms) = Ready ms

pub record Counts (K : Bytes → ℕ) (s : Server) : Type 0 where
  pub table : (c : Bytes) → find c s.channel_refcount ≡ counted (K c)
  pub ready : Ready s.masters

write_all-Ready :
    (packet : Bytes) (ms : Dict (Option Master)) → Ready ms → Returns Ready (write_all packet ms)
unfolding write_all
write_all-Ready packet [] h = tt
write_all-Ready packet ((k, none) ∷ ms) h = h
write_all-Ready packet ((k, some m) ∷ ms) h =
    Returns-bind Ready Ready (write_all packet ms)
      (λ ms'. some ((k, some (write_master packet m)) ∷ ms')) (write_all-Ready packet ms h)
      (λ ms' h'. h')

do_subscribe-Counts :
    (K : Bytes → ℕ) (s : Server) (channel : Bytes)
    → Counts K s
    → Returns (Counts K) (do_subscribe s channel)
unfolding do_subscribe
do_subscribe-Counts K s channel h =
    Returns-bind Ready (Counts K) (write_all (subscribe_packet channel) s.masters) _
      (write_all-Ready (subscribe_packet channel) s.masters h.ready)
      (λ ms r. record { table = h.table; ready = r })

do_unsubscribe-Counts :
    (K : Bytes → ℕ) (s : Server) (channel : Bytes)
    → Counts K s
    → Returns (Counts K) (do_unsubscribe s channel)
unfolding do_unsubscribe
do_unsubscribe-Counts K s channel h =
    Returns-bind Ready (Counts K) (write_all (unsubscribe_packet channel) s.masters) _
      (write_all-Ready (unsubscribe_packet channel) s.masters h.ready)
      (λ ms r. record { table = h.table; ready = r })

refcount-Counts :
    (K : Bytes → ℕ) (s : Server) (channel : Bytes) → Counts K s → refcount s channel ≡ K channel
unfolding refcount
refcount-Counts K s channel h = ground (arith, h.table channel)

has_key-Counts :
    (K : Bytes → ℕ) (s : Server) (channel : Bytes)
    → Counts K s
    → has_key channel s.channel_refcount ≡ (if K channel == 0 then false else true)
has_key-Counts K s channel h =
    ground (arith, h.table channel, has_key-find channel s.channel_refcount)

module _ (K K' : Bytes → ℕ) (s : Server) (channel : Bytes) (h : Counts K s) where
  -- A count that is stored is the new number of subscriptions.
  put-Counts :
      (n : ℕ)
      → n ≡ K' channel
      → 0 < n
      → ((c : Bytes) → bytes_eq channel c ≡ false → K' c ≡ K c)
      → Counts K' (record s { channel_refcount = put channel n s.channel_refcount })
  put-Counts n e p others = record {
    table = λ c. ground (
      arith,
      find-put channel c n s.channel_refcount,
      bytes_eq_iff channel c,
      others c,
      h.table c,
    );
    ready = h.ready;
  }

  remove-Counts :
      K' channel ≡ 0
      → ((c : Bytes) → bytes_eq channel c ≡ false → K' c ≡ K c)
      → Counts K' (record s { channel_refcount = remove channel s.channel_refcount })
  remove-Counts e others = record {
    table = λ c. ground (
      arith,
      find-remove channel c s.channel_refcount,
      bytes_eq_iff channel c,
      others c,
      h.table c,
    );
    ready = h.ready;
  }

-- `channelAddRef` counts one subscription more, and does not fault.
pub channel_add_ref-Counts :
    (K K' : Bytes → ℕ) (s : Server) (channel : Bytes)
    → Counts K s
    → ((c : Bytes) → K' c ≡ one_at channel c + K c)
    → Returns (Counts K') (channel_add_ref s channel)
unfolding channel_add_ref
channel_add_ref-Counts K K' s channel h more =
    let known = has_key-Counts K s channel h in
    let count = refcount-Counts K s channel h in
    let self = bytes_eq_refl channel in
    elim (Bool-cases (has_key channel s.channel_refcount)) [
      | inl e ↦ rw e (
          put-Counts K K' s channel h (refcount s channel + 1) (ground (arith, more channel))
            (omega arith) (λ c q. ground (arith, more c)))
      | inr e ↦ rw e (
          do_subscribe-Counts K' _ channel (
            put-Counts K K' s channel h 1 (ground (arith, more channel)) (omega arith)
              (λ c q. ground (arith, more c))))
    ]

-- `channelDelRef` of a channel that has a subscription counts one less, and does not fault.
pub channel_del_ref-Counts :
    (K K' : Bytes → ℕ) (s : Server) (channel : Bytes)
    → Counts K s
    → ((c : Bytes) → K c ≡ one_at channel c + K' c)
    → Returns (Counts K') (channel_del_ref s channel)
unfolding channel_del_ref
channel_del_ref-Counts K K' s channel h less =
    let count = refcount-Counts K s channel h in
    let self = bytes_eq_refl channel in
    let known : has_key channel s.channel_refcount ≡ true =
      ground (arith, has_key-Counts K s channel h, less channel) in
    rw known (elim (Bool-cases (leb (refcount s channel) 1)) [
      | inl e ↦ rw e (
          do_unsubscribe-Counts K' _ channel (
            remove-Counts K K' s channel h (ground (arith, less channel))
              (λ c q. ground (arith, less c))))
      | inr e ↦ rw e (
          put-Counts K K' s channel h (refcount s channel - 1) (ground (arith, less channel))
            (ground (arith, less channel)) (λ c q. ground (arith, less c)))
    ])
