-- ===== src/Core/Port.antt =====
-- What mod/core/CoreTcp.cpp, CoreUdp.cpp and CoreUdg.cpp share: a listening port and the daemon that
-- it feeds. Qt's signal connections are lists with one entry per `connect`; `disconnect` removes
-- all entries of its receiver. The text of `setTarget` is CoreTcp's.
use pinetd.Prelude.{
  ℕ, ◌==◌, if◌then◌else◌, List, [], ◌∷◌, Bool, true, false, Option, none, some, Bytes, map,
}

-- Objects go by numbers. `outgoing` are the connections of the port's signal to the receivers'
-- slots, and `watched` those of the receivers' `destroyed` to `targetDestroyed`.
pub record Port : Type 0 where
  pub entry : Bytes
  pub receiver : Option ℕ
  pub outgoing : List ℕ
  pub watched : List ℕ

-- The constructors: no receiver yet.
unfoldable pub new_port : Port
new_port = record { entry = []; receiver = none; outgoing = []; watched = [] }

unfoldable pub same_receiver : Option ℕ → Option ℕ → Bool
same_receiver none none = true
same_receiver (some a) (some b) = a == b
same_receiver _ _ = false

unfoldable pub disconnect : ℕ → List ℕ → List ℕ
disconnect r [] = []
disconnect r (x ∷ xs) = let rest = disconnect r xs in if x == r then rest else x ∷ rest

abbrev pub main_entry : Bytes
main_entry = 109 ∷ 97 ∷ 105 ∷ 110 ∷ []

-- The `if (receiver != NULL)` of `setTarget`.
unfoldable pub detach : Option ℕ → Port → Port
unfolding disconnect
detach none p = p
detach (some r) p = record p {
  receiver = none;
  outgoing = disconnect r p.outgoing;
  watched = disconnect r p.watched;
}

-- The connections behind `if (receiver == NULL) return`.
unfoldable pub attach : Option ℕ → Port → Port
attach none p = p
attach (some r) p = record p { outgoing = r ∷ p.outgoing; watched = r ∷ p.watched }

-- `CoreTcp::setTarget`
unfoldable pub set_target : Option ℕ → Bytes → Port → Port
unfolding same_receiver detach attach
set_target target entry p =
    if same_receiver p.receiver target
    then record p { entry = entry }
    else attach target (record (detach p.receiver p) { receiver = target; entry = entry })

-- `CoreTcp::targetDestroyed`
unfoldable pub target_destroyed : ℕ → Port → Port
unfolding set_target
target_destroyed o p = if same_receiver p.receiver (some o) then set_target none main_entry p else p

-- A signal calls one slot for each connection.
unfoldable pub deliver : {A : Type 0} → A → Port → List (ℕ × A)
deliver a p = map (λ r. (r, a)) p.outgoing
