-- ===== src/Irc.antt =====
-- mod/daemon/kumoircd/ModKumoIRCdClient.cpp: lines of IRC messages, and the replies. The timer is
-- never connected to a slot, and has no effect.
pub mod Words
pub mod Messages
pub mod Raw
use pinetd.Prelude.{
  number, ℕ, zero, suc, ◌+◌, ◌-◌, ◌/◌, ◌%◌, ltb, leb, ◌==◌, if◌then◌else◌, ◌&&◌, not, List, [], ◌∷◌,
  ◌++◌, Bool, true, false, Option, none, some, Bytes, codes, bytes_eq, length, take, drop,
  replicate, map,
}
use pinetd.Irc.Raw.{IrcRaw, err_unknowncommand, err_erroneusnickname, err_nonicknamegiven, code}
use Prim.Native.String.{String}

-- `indexOf(b)`; `none` is -1.
unfoldable pub index_of : ℕ → Bytes → Option ℕ
index_of b [] = none
index_of b (x ∷ xs) =
    let later : Option ℕ = elim (index_of b xs) [ none ↦ none | some p ↦ some (p + 1) ] in
    if x == b then some 0 else later

-- `while(line[pos] == ' ') pos++`, up to the end of the line.
unfoldable pub skip_blanks : Bytes → Bytes
skip_blanks [] = []
skip_blanks (b ∷ bs) = if b == 32 then skip_blanks bs else b ∷ bs

-- One word up to a blank, and then the others; without a blank the rest is the last word.
unfoldable pub cut_word : (Bytes → List Bytes) → Bytes → Option ℕ → List Bytes
unfolding skip_blanks
cut_word next text none = text ∷ []
cut_word next text (some p) = take p text ∷ next (skip_blanks (drop (p + 1) text))

-- The loop of `handleLine` on the text from `pos` on, on fuel; `start` says whether `pos` is 0. A word
-- that starts with a colon, but for the first, takes all that is left.
unfoldable pub words : ℕ → Bool → Bytes → List Bytes
unfolding cut_word index_of
words fuel start [] = []
words zero start (c ∷ cs) = []
words (suc fuel) start (c ∷ cs) =
    if c == 58 && not start
    then cs ∷ []
    else cut_word (words fuel false) (c ∷ cs) (index_of 32 (c ∷ cs))

-- `ModKumoIRCdClient`, with what was written to its socket.
pub record IrcClient : Type 0 where
  pub sent : Bytes

-- `rightJustified(3, '0')`
unfoldable pub justified : Bytes → Bytes
justified s = replicate (3 - length s) 48 ++ s

-- The parameters behind the first in `sendReply`.
unfoldable pub reply_tail : Bool → List Bytes → Bytes
reply_tail spaced [] = []
reply_tail spaced (p ∷ []) = if spaced then 32 ∷ 58 ∷ p else 32 ∷ p
reply_tail spaced (p ∷ q ∷ ps) = (32 ∷ p) ++ reply_tail spaced (q ∷ ps)

unfoldable pub reply_params : Bool → List Bytes → Bytes
unfolding reply_tail
reply_params spaced [] = []
reply_params spaced (p ∷ ps) = p ++ reply_tail spaced ps

unfoldable pub reply_prefix : Bytes → Bytes
reply_prefix [] = []
reply_prefix (b ∷ bs) = (b ∷ bs) ++ (32 ∷ [])

-- `sendReply`
unfoldable pub send_reply : List Bytes → Bytes → Bool → IrcClient → IrcClient
unfolding reply_prefix reply_params
send_reply params prefix spaced x = record x {
  sent = x.sent ++ ((reply_prefix prefix ++ reply_params spaced params) ++ (13 ∷ 10 ∷ []));
}

abbrev pub server_name : Bytes
server_name = codes "localhost"

-- `rawReply` with three arguments, and with two.
unfoldable pub raw_reply_last : IrcRaw → List Bytes → Bool → IrcClient → IrcClient
unfolding send_reply number justified code
raw_reply_last raw reply spaced x =
    send_reply (justified (number (code raw) (code raw)) ∷ reply) (58 ∷ server_name) spaced x

unfoldable pub raw_reply : IrcRaw → List Bytes → IrcClient → IrcClient
unfolding raw_reply_last code
raw_reply raw reply x =
    if code raw == code err_unknowncommand
    then raw_reply_last raw (reply ++ (codes "Unknown command" ∷ [])) true x
    else if code raw == code err_erroneusnickname
    then raw_reply_last raw (reply ++ (codes "Erroneus nickname" ∷ [])) true x
    else if code raw == code err_nonicknamegiven
    then raw_reply_last raw (codes "No nickname given" ∷ []) true x
    else x

unfoldable pub to_lower : Bytes → Bytes
to_lower cmd = map (λ b. if leb 65 b && leb b 90 then b + 32 else b) cmd

-- `handleIrcCommand`: the one slot irc_cmd_nick does nothing. `cmd.at(0)` of no words is a fault.
unfoldable pub handle_irc_command : List Bytes → IrcClient → Option IrcClient
unfolding raw_reply to_lower
handle_irc_command [] x = none
handle_irc_command (cmd ∷ args) x =
    if bytes_eq (to_lower cmd) (codes "nick")
    then some x
    else some (raw_reply err_unknowncommand (cmd ∷ []) x)

unfoldable pub starts_with_colon : Bytes → Bool
starts_with_colon [] = false
starts_with_colon (b ∷ bs) = b == 58

-- The words of a line that is not empty: the first is a prefix if it starts with a colon.
unfoldable pub handle_words : List Bytes → IrcClient → Option IrcClient
handle_words [] x = none
handle_words (w ∷ ws) x =
    if starts_with_colon w then handle_irc_command ws x else handle_irc_command (w ∷ ws) x

-- `handleLine`
unfoldable pub handle_line : Bytes → IrcClient → Option IrcClient
unfolding words
handle_line [] x = some x
handle_line (c ∷ cs) x = handle_words (words (length (c ∷ cs)) true (c ∷ cs)) x
