-- ===== src/Tests/Irc.antt =====
-- Runs of mod/daemon/kumoircd.
use pinetd.Prelude.{◌≡◌, ◌↔◌, refl, [], ◌∷◌, ◌++◌, true, none, some, codes, length, bytes_eq, arith}
use pinetd.Irc.{IrcClient, words, reply_params, handle_line, starts_with_colon, to_lower}
use pinetd.Irc.Messages.{words-reply_params, complaint, handle_line-unknown, handle_line-fault_iff}

abbrev client : IrcClient
client = record { sent = [] }

words-reply_params_example :
    (let text = reply_params true (codes "M" ∷ (codes "a" ∷ []) ++ (codes "b :c" ∷ [])) in
      words (length text) true text)
    ≡ codes "M" ∷ codes "a" ∷ codes "b :c" ∷ []
unfolding starts_with_colon
words-reply_params_example =
    words-reply_params (codes "M") (codes "a" ∷ []) (codes "b :c")
      (((λ e. omega arith), tt), omega arith) (((((λ e. omega arith), tt), omega arith), refl), tt)

handle_line-unknown_example :
    (handle_line (codes "JOIN #c") client ≡ some (record { sent = complaint (codes "JOIN") }))
    × (handle_line (codes ":x JOIN #c") client ≡ some (record { sent = complaint (codes "JOIN") }))
unfolding bytes_eq to_lower starts_with_colon reply_params
handle_line-unknown_example =
    handle_line-unknown (codes ":x") (codes "JOIN") (codes "#c" ∷ []) none client
      (((λ e. omega arith), ((λ e. omega arith), tt)), omega arith) refl
      (
        (
          (
            (λ e. omega arith),
            ((λ e. omega arith), ((λ e. omega arith), ((λ e. omega arith), tt))),
          ),
          omega arith,
        ),
        refl,
      )
      (((((λ e. omega arith), ((λ e. omega arith), tt)), omega arith), refl), tt) refl

handle_line-fault_iff_example :
    (handle_line (codes ":x") client ≡ none) ↔ (starts_with_colon (codes ":x") ≡ true)
handle_line-fault_iff_example =
    handle_line-fault_iff (codes ":x") client ((λ e. omega arith), ((λ e. omega arith), tt))
