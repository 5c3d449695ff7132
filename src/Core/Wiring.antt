-- ===== src/Core/Wiring.antt =====
-- CoreTcp, CoreUdp, CoreUdg: sequences of calls on a port, and its connections to its receiver.
use pinetd.Prelude.{
  ℕ, ◌≡◌, refl, ap, ==_iff, if◌then◌else◌, ◌∙◌, List, [], ◌∷◌, true, Option, none, some, Bytes, map,
  Bool-cases, inl, inr, arith,
}
use pinetd.Core.Port.{
  Port, new_port, same_receiver, disconnect, detach, attach, set_target, target_destroyed, deliver,
  main_entry,
}
use pinetd.Core.Tcp.{Incoming, closed, moved, incoming_to, incoming_connection}
use mathlib.Core.Path.{ap₂}
use pinetd.Core.Udp.{receive_datagram, datagram}

pub data Call : Type 0 where
  retargets : Option ℕ → Bytes → Call
  destroys : ℕ → Call

unfoldable pub perform : Call → Port → Port
perform (retargets target entry) p = set_target target entry p
perform (destroys o) p = target_destroyed o p

unfoldable pub run : List Call → Port → Port
run [] p = p
run (k ∷ ks) p = run ks (perform k p)

-- The list of the one receiver, or of none.
abbrev pub only : Option ℕ → List ℕ
only none = []
only (some r) = r ∷ []

pub record IsWired (p : Port) : Type 0 where
  pub outgoing : p.outgoing ≡ only p.receiver
  pub watched : p.watched ≡ only p.receiver

disconnect_only : (r : ℕ) → disconnect r (r ∷ []) ≡ []
unfolding disconnect
disconnect_only r = ground arith

detach-outgoing : (o : Option ℕ) (p : Port) → p.outgoing ≡ only o → (detach o p).outgoing ≡ []
unfolding detach
detach-outgoing none p h = h
detach-outgoing (some r) p h = rw h (disconnect_only r)

detach-watched : (o : Option ℕ) (p : Port) → p.watched ≡ only o → (detach o p).watched ≡ []
unfolding detach
detach-watched none p h = h
detach-watched (some r) p h = rw h (disconnect_only r)

attach-IsWired :
    (target : Option ℕ) (p : Port)
    → p.receiver ≡ target
    → p.outgoing ≡ []
    → p.watched ≡ []
    → IsWired (attach target p)
unfolding attach
attach-IsWired none p e o w = record { outgoing = rw (o, e); watched = rw (w, e) }
attach-IsWired (some r) p e o w = record { outgoing = rw (o, e); watched = rw (w, e) }

pub set_target-IsWired :
    (target : Option ℕ) (entry : Bytes) (p : Port) → IsWired p → IsWired (set_target target entry p)
unfolding set_target
set_target-IsWired target entry p h = elim (Bool-cases (same_receiver p.receiver target)) [
  | inl e ↦ rw e (record { outgoing = h.outgoing; watched = h.watched })
  | inr e ↦ rw e (
      attach-IsWired target _ refl (detach-outgoing p.receiver p h.outgoing)
        (detach-watched p.receiver p h.watched))
]

target_destroyed-IsWired : (o : ℕ) (p : Port) → IsWired p → IsWired (target_destroyed o p)
unfolding target_destroyed
target_destroyed-IsWired o p h = elim (Bool-cases (same_receiver p.receiver (some o))) [
  | inl e ↦ rw e (set_target-IsWired none main_entry p h)
  | inr e ↦ rw e h
]

perform-IsWired : (k : Call) (p : Port) → IsWired p → IsWired (perform k p)
unfolding perform
perform-IsWired (retargets target entry) p h = set_target-IsWired target entry p h
perform-IsWired (destroys o) p h = target_destroyed-IsWired o p h

run-IsWired : (ks : List Call) (p : Port) → IsWired p → IsWired (run ks p)
unfolding run
run-IsWired [] p h = h
run-IsWired (k ∷ ks) p h = run-IsWired ks (perform k p) (perform-IsWired k p h)

-- A port with any history of `setTarget` and `targetDestroyed`.
abbrev pub after : List Call → Port
after ks = run ks new_port

pub new_port-IsWired : IsWired new_port
unfolding new_port
new_port-IsWired = record { outgoing = refl; watched = refl }

after-IsWired : (ks : List Call) → IsWired (after ks)
after-IsWired ks = run-IsWired ks new_port new_port-IsWired

same_receiver-eq : (a b : Option ℕ) → same_receiver a b ≡ true → a ≡ b
unfolding same_receiver
same_receiver-eq none none h = refl
same_receiver-eq none (some b) h = absurd (ground arith)
same_receiver-eq (some a) none h = absurd (ground arith)
same_receiver-eq (some a) (some b) h = ap (λ x. some x) ((==_iff a b).0 h)

attach_keeps :
    (o : Option ℕ) (p : Port)
    → ((attach o p).receiver ≡ p.receiver) × ((attach o p).entry ≡ p.entry)
unfolding attach
attach_keeps none p = (refl, refl)
attach_keeps (some r) p = (refl, refl)

pub set_target-receiver :
    (target : Option ℕ) (entry : Bytes) (p : Port)
    → ((set_target target entry p).receiver ≡ target) × ((set_target target entry p).entry ≡ entry)
unfolding set_target
set_target-receiver target entry p = elim (Bool-cases (same_receiver p.receiver target)) [
  | inl e ↦ rw e (same_receiver-eq p.receiver target e, refl)
  | inr e ↦ rw e (attach_keeps target _)
]

-- One connection, to the receiver's `incomingTcp` with the entry's name, once.
abbrev pub routed : Option ℕ → Bytes → Incoming
routed none entry = closed
routed (some r) entry = moved r ((r, entry) ∷ [])

incoming_to-routed :
    (o : Option ℕ) (entry : Bytes) (p : Port)
    → p.outgoing ≡ only o
    → p.entry ≡ entry
    → incoming_to o p ≡ routed o entry
unfolding incoming_to deliver
incoming_to-routed none entry p h e = refl
incoming_to-routed (some r) entry p h e = rw (h, e)

pub incoming-routed : (p : Port) → IsWired p → incoming_connection p ≡ routed p.receiver p.entry
unfolding incoming_connection
incoming-routed p h = incoming_to-routed p.receiver p.entry p h.outgoing refl

-- Whatever happened to the port before, after `setTarget` a new connection is handed to the target
-- under the entry, by exactly one call; without a target it is closed.
pub incoming_connection-set_target :
    (ks : List Call) (target : Option ℕ) (entry : Bytes)
    → incoming_connection (set_target target entry (after ks)) ≡ routed target entry
incoming_connection-set_target ks target entry =
    let p = set_target target entry (after ks) in
    let (r, e) = set_target-receiver target entry (after ks) in
    incoming-routed p (set_target-IsWired target entry (after ks) (after-IsWired ks))
    ∙ ap₂ routed r e

-- When an object is destroyed, connections are closed if it was the port's target, and go where
-- they went before if it was not.
pub incoming_connection-target_destroyed :
    (ks : List Call) (o : ℕ)
    → incoming_connection (target_destroyed o (after ks)) ≡ (
        if same_receiver (after ks).receiver (some o)
        then closed
        else incoming_connection (after ks))
unfolding target_destroyed set_target
incoming_connection-target_destroyed ks o =
    elim (Bool-cases (same_receiver (after ks).receiver (some o))) [
      | inl e ↦ rw (e, target_destroyed) (incoming_connection-set_target ks none main_entry)
      | inr e ↦ rw (e, target_destroyed)
    ]

-- Every datagram that is pending reaches the receiver of the port once, in order.
pub receive_datagram-after :
    (ks : List Call) (r : ℕ) (ds : List (Option Bytes))
    → (after ks).receiver ≡ some r
    → receive_datagram ds (after ks) ≡ map (λ d. (r, datagram d)) ds
unfolding receive_datagram deliver
receive_datagram-after ks r [] h = refl
receive_datagram-after ks r (d ∷ ds) h =
    let one : (after ks).outgoing ≡ r ∷ [] = (after-IsWired ks).outgoing ∙ ap only h in
    rw (receive_datagram-after ks r ds h, one)
