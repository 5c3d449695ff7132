-- ===== src/Chargen/Same.antt =====
-- mod/daemon/chargensame: one generator whose lines go to every client that is there.
use pinetd.Prelude.{
  ℕ, zero, suc, ◌+◌, ◌%◌, ◌==◌, ◌≡◌, refl, ap, ◌∙◌, if◌then◌else◌, List, [], ◌∷◌, ◌++◌, map, Bytes,
  Bool-cases, inl, inr, arith,
}
use pinetd.Chargen.{next_buf}
use pinetd.Chargen.Lines.{line, next_buf-line, line_mod}

-- `ModChargenClient`: an object, and what was written to its socket.
abbrev pub Client : Type 0
Client = ℕ × Bytes

-- `ModChargen`, with the clients that its signal is connected to.
pub record Daemon : Type 0 where
  pub pos : ℕ
  pub clients : List Client

unfoldable pub new_daemon : Daemon
new_daemon = record { pos = 1; clients = [] }

-- `incomingTcp`
unfoldable pub incoming_tcp : ℕ → Daemon → Daemon
incoming_tcp c d = record d { clients = (c, []) ∷ d.clients }

-- `ModChargenClient::nextLine`
unfoldable pub next_line : Bytes → Client → Client
next_line buf (c, sent) = (c, sent ++ buf)

-- The signal `nextLine`, which every client's slot takes.
unfoldable pub emit : Bytes → List Client → List Client
unfolding next_line
emit buf cs = map (next_line buf) cs

-- `makeNextLine`
unfoldable pub make_next_line : Daemon → Daemon
unfolding next_buf emit
make_next_line d = record { pos = (d.pos + 1) % 95; clients = emit (next_buf d.pos) d.clients }

-- The connections of a client that is destroyed are taken away.
unfoldable pub disconnect : ℕ → List Client → List Client
disconnect c [] = []
disconnect c ((i, sent) ∷ cs) =
    let rest = disconnect c cs in if i == c then rest else (i, sent) ∷ rest

-- The timer, a new client, and one that is destroyed.
pub data Event : Type 0 where
  shot : Event
  comes : ℕ → Event
  goes : ℕ → Event

unfoldable pub step : Event → Daemon → Daemon
unfolding make_next_line incoming_tcp disconnect
step shot d = make_next_line d
step (comes c) d = incoming_tcp c d
step (goes c) d = record d { clients = disconnect c d.clients }

unfoldable pub run : List Event → Daemon → Daemon
unfolding step
run [] d = d
run (e ∷ es) d = run es (step e d)

-- Who is there, with the number of shots since it came.
abbrev pub Present : Type 0
Present = List (ℕ × ℕ)

abbrev pub leave : ℕ → Present → Present
leave c [] = []
leave c ((i, k) ∷ ps) = if i == c then leave c ps else (i, k) ∷ leave c ps

abbrev pub later : ℕ × ℕ → ℕ × ℕ
later (i, k) = (i, suc k)

abbrev pub present : List Event → Present → Present
present [] ps = ps
present (shot ∷ es) ps = present es (map later ps)
present (comes c ∷ es) ps = present es ((c, 0) ∷ ps)
present (goes c ∷ es) ps = present es (leave c ps)

abbrev pub shots : List Event → ℕ
shots [] = 0
shots (shot ∷ es) = suc (shots es)
shots (comes c ∷ es) = shots es
shots (goes c ∷ es) = shots es

-- The last k of the lines before the n-th, in order.
abbrev pub last_lines : ℕ → ℕ → Bytes
last_lines zero n = []
last_lines (suc k) zero = []
last_lines (suc k) (suc n) = last_lines k n ++ line n

abbrev pub served : ℕ → ℕ × ℕ → Client
served n (i, k) = (i, last_lines k n)

emit-served :
    (n pos : ℕ) (ps : Present)
    → pos ≡ n % 95
    → emit (next_buf pos) (map (served n) ps) ≡ map (served (suc n)) (map later ps)
unfolding emit next_line
emit-served n pos [] e = refl
emit-served n pos ((i, k) ∷ ps) e =
    ap (λ (t : Bytes). (i, last_lines k n ++ t) ∷ emit (next_buf pos) (map (served n) ps))
      (next_buf-line pos ∙ line_mod pos n (omega (arith, e)))
    ∙ ap (λ (t : List Client). (i, last_lines k n ++ line n) ∷ t) (emit-served n pos ps e)

disconnect-served :
    (n c : ℕ) (ps : Present) → disconnect c (map (served n) ps) ≡ map (served n) (leave c ps)
unfolding disconnect
disconnect-served n c [] = refl
disconnect-served n c ((i, k) ∷ ps) = elim (Bool-cases (i == c)) [
  | inl e ↦ rw e (disconnect-served n c ps)
  | inr e ↦ rw e (ap (λ (t : List Client). (i, last_lines k n) ∷ t) (disconnect-served n c ps))
]

run-served :
    (es : List Event) (n : ℕ) (d : Daemon) (ps : Present)
    → d.pos ≡ n % 95
    → d.clients ≡ map (served n) ps
    → (run es d).clients ≡ map (served (n + shots es)) (present es ps)
unfolding run step make_next_line incoming_tcp
run-served [] n d ps e f = f ∙ ap (λ m. map (served m) ps) (omega arith)
run-served (shot ∷ es) n d ps e f =
    run-served es (suc n) (make_next_line d) (map later ps) (omega (arith, e))
      (ap (emit (next_buf d.pos)) f ∙ emit-served n d.pos ps e)
    ∙ ap (λ m. map (served m) (present es (map later ps))) (omega arith)
run-served (comes c ∷ es) n d ps e f =
    run-served es n (incoming_tcp c d) ((c, 0) ∷ ps) e (ap (λ (cs : List Client). (c, []) ∷ cs) f)
run-served (goes c ∷ es) n d ps e f =
    run-served es n (record d { clients = disconnect c d.clients }) (leave c ps) e
      (ap (disconnect c) f ∙ disconnect-served n c ps)

-- Whoever comes and goes, every client that is there has been sent a line for each shot of the timer since it came,
-- and all get the same lines, those of one generator that has run from the start.
pub run-clients :
    (es : List Event) → (run es new_daemon).clients ≡ map (served (1 + shots es)) (present es [])
unfolding new_daemon
run-clients es = run-served es 1 new_daemon [] refl refl
