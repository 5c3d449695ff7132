-- ===== src/Tests/Line.antt =====
-- Runs of mod/ext/tcpline and mod/daemon/broadcast.
use pinetd.Prelude.{
  zero, suc, ◌<◌, length-replicate, ℕ, ◌≡◌, refl, List, [], ◌∷◌, ◌++◌, true, false, Bytes, length,
  replicate, arith, map, All, ◌≢◌,
}
use pinetd.Line.{line_limit, ClientTcpLine, handle_buffer, trimmed}
use pinetd.Line.Lines.{handle_buffer-joined, handle_buffer-overlong}
use pinetd.Line.Broadcast.{Member, feed, outputs, sent_for, feed-outputs}

abbrev half : ClientTcpLine
half = record { read_buffer = 97 ∷ []; lines = []; closed = false }

handle_buffer-joined_example :
    handle_buffer (98 ∷ 13 ∷ 10 ∷ 99 ∷ []) half
    ≡ record half { read_buffer = 99 ∷ []; lines = trimmed (97 ∷ 98 ∷ 13 ∷ []) ∷ [] }
handle_buffer-joined_example =
    handle_buffer-joined ((97 ∷ 98 ∷ 13 ∷ []) ∷ []) (99 ∷ []) (98 ∷ 13 ∷ 10 ∷ 99 ∷ []) half refl
      (omega arith) (omega arith)

no_newline : (n : ℕ) → All {A = ℕ} (λ b. b ≢ 10) (replicate n 97)
no_newline zero = tt
no_newline (suc n) = ((λ e. omega arith), no_newline n)

abbrev flood : Bytes
flood = replicate 4097 97

length-flood : line_limit < length flood
length-flood = let e : length flood ≡ 4097 = length-replicate {A = ℕ} 4097 97 in omega arith

handle_buffer-overlong_example : handle_buffer (98 ∷ 10 ∷ flood) half ≡ record {
  read_buffer = [];
  lines = half.lines ++ map trimmed ((97 ∷ 98 ∷ []) ∷ []);
  closed = true;
}
handle_buffer-overlong_example =
    handle_buffer-overlong ((97 ∷ 98 ∷ []) ∷ []) flood [] (98 ∷ 10 ∷ flood) half refl
      ((((λ e. omega arith), ((λ e. omega arith), tt)), omega arith), tt) (no_newline 4097)
      length-flood tt

abbrev two_members : List Member
two_members =
    record { line = half; sent = [] }
    ∷ record { line = record half { read_buffer = [] }; sent = 33 ∷ [] }
    ∷ []

feed-outputs_example :
    outputs (feed 0 (98 ∷ 10 ∷ []) two_members)
    ≡ map (λ s. s ++ sent_for (map trimmed ((97 ∷ 98 ∷ []) ∷ []))) (outputs two_members)
feed-outputs_example =
    feed-outputs 0 (98 ∷ 10 ∷ []) [] ((97 ∷ 98 ∷ []) ∷ []) (record { line = half; sent = [] })
      two_members refl refl ((((λ e. omega arith), ((λ e. omega arith), tt)), omega arith), tt)
      (tt, omega arith)
