-- ===== src/Tests/Chargen.antt =====
-- Runs of mod/daemon/chargen and mod/daemon/chargensame.
use pinetd.Prelude.{◌≡◌, ◌++◌, [], ◌∷◌}
use pinetd.Chargen.{next_lines, new_generator}
use pinetd.Chargen.Lines.{line, lines, next_lines-new}
use pinetd.Chargen.Same.{shot, comes, goes, run, new_daemon, run-clients}

next_lines-new_example : (next_lines 3 new_generator).sent ≡ lines 3 1
next_lines-new_example = next_lines-new 3

-- The second client comes after the first line, and the third leaves.
run-clients_example :
    (run (comes 5 ∷ shot ∷ comes 7 ∷ comes 9 ∷ shot ∷ goes 9 ∷ shot ∷ []) new_daemon).clients
    ≡ (7, ([] ++ line 2) ++ line 3) ∷ (5, (([] ++ line 1) ++ line 2) ++ line 3) ∷ []
run-clients_example = run-clients (comes 5 ∷ shot ∷ comes 7 ∷ comes 9 ∷ shot ∷ goes 9 ∷ shot ∷ [])
