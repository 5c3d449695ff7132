-- ===== src/Irc/Messages.antt =====
-- IRC messages: the parser of `handleLine` against the format that `sendReply` writes, the reply to an
-- unknown command, and the lines that are a fault.
use pinetd.Prelude.{
  number, ℕ, suc, ◌≡◌, ◌≢◌, ◌↔◌, sym, ap, ◌∙◌, List, [], ◌∷◌, ◌++◌, true, false, Option, none, some,
  Bytes, codes, bytes_eq, length, All, append_assoc, append-nil, arith,
}
use pinetd.Irc.Words.{IsWord, IsMiddle, index_of-none, reply_tail-text, first_words, words-plain}
use pinetd.Irc.Raw.{code}
use pinetd.Irc.{
  cut_word, words, IrcClient, reply_tail, reply_params, raw_reply, to_lower, handle_irc_command,
  raw_reply_last, send_reply, reply_prefix, justified, starts_with_colon, handle_words, handle_line,
}

-- The parser of `handleLine` gives back the parameters of every message in the form of `sendReply`
-- with a last parameter after a colon: the first is a word, those between are words that do not start
-- with a colon, and the last is anything.
pub words-reply_params :
    (p : Bytes) (ps : List Bytes) (last : Bytes)
    → IsWord p
    → All IsMiddle ps
    → (let text = reply_params true (p ∷ (ps ++ (last ∷ []))) in words (length text) true text)
      ≡ p ∷ (ps ++ (last ∷ []))
unfolding reply_params
words-reply_params p ps last w h =
    rw (reply_tail-text ps last) (first_words p ps last _ w h (omega arith))

-- A message of words, and of a last parameter after a colon, if there is one.
abbrev pub message : List Bytes → Option Bytes → Bytes
message ws none = reply_params false ws
message ws (some last) = reply_params true (ws ++ (last ∷ []))

abbrev parameters : Option Bytes → List Bytes
parameters none = []
parameters (some last) = last ∷ []

words-message :
    (p : Bytes) (ps : List Bytes) (last : Option Bytes)
    → IsWord p
    → All IsMiddle ps
    → (let text = message (p ∷ ps) last in words (length text) true text)
      ≡ p ∷ (ps ++ parameters last)
unfolding reply_params
words-message p ps none w h =
    words-plain p ps (length (p ++ reply_tail false ps)) true w (ground arith) h (omega arith)
    ∙ ap (λ (t : List Bytes). p ∷ t) (sym (append-nil ps))
words-message p ps (some last) w h = words-reply_params p ps last w h

line_words :
    (p : Bytes) (ps : List Bytes) (last : Option Bytes) (x : IrcClient)
    → IsWord p
    → All IsMiddle ps
    → handle_line (message (p ∷ ps) last) x ≡ handle_words (p ∷ (ps ++ parameters last)) x
unfolding handle_line reply_params
line_words [] ps last x (h, n) hs = absurd (omega arith)
line_words (c ∷ cs) ps none x w hs =
    ap (λ t. handle_words t x) (words-message (c ∷ cs) ps none w hs)
line_words (c ∷ cs) ps (some last) x w hs =
    ap (λ t. handle_words t x) (words-message (c ∷ cs) ps (some last) w hs)

-- What a client is sent for a command that is not known.
abbrev pub complaint : Bytes → Bytes
complaint cmd = codes ":localhost 421 " ++ (cmd ++ (codes " :Unknown command" ++ (13 ∷ 10 ∷ [])))

unknown_reply :
    (cmd : Bytes) (args : List Bytes) (x : IrcClient)
    → bytes_eq (to_lower cmd) (codes "nick") ≡ false
    → handle_irc_command (cmd ∷ args) x ≡ some (record x { sent = x.sent ++ complaint cmd })
unfolding handle_irc_command raw_reply raw_reply_last send_reply reply_prefix reply_params
    reply_tail number justified code
unknown_reply cmd args x h = rw h (
    ap (λ (t : Bytes). some (record x { sent = x.sent ++ (codes ":localhost 421 " ++ t) }))
      (append_assoc cmd (codes " :Unknown command") (13 ∷ 10 ∷ [])))

-- A message with a command other than NICK, with a prefix or without, is answered by the complaint
-- about that command, whatever its parameters: any number of words, which one blank each parts and which do not
-- start with a colon, and then a last parameter after a colon, if there is one.
pub handle_line-unknown :
    (prefix cmd : Bytes) (ps : List Bytes) (last : Option Bytes) (x : IrcClient)
    → IsWord prefix
    → starts_with_colon prefix ≡ true
    → IsMiddle cmd
    → All IsMiddle ps
    → bytes_eq (to_lower cmd) (codes "nick") ≡ false
    → (handle_line (message (cmd ∷ ps) last) x ≡ some (record x { sent = x.sent ++ complaint cmd }))
      × (handle_line (message (prefix ∷ cmd ∷ ps) last) x
          ≡ some (record x { sent = x.sent ++ complaint cmd }))
unfolding handle_words
handle_line-unknown prefix cmd ps last x w colon (v, plain) hs h = (
  line_words cmd ps last x v hs ∙ rw plain (unknown_reply cmd (ps ++ parameters last) x h),
  line_words prefix (cmd ∷ ps) last x w ((v, plain), hs)
      ∙ rw colon (unknown_reply cmd (ps ++ parameters last) x h),
)

one_word :
    (fuel c : ℕ) (cs : Bytes)
    → All (λ b. b ≢ 32) (c ∷ cs)
    → words (suc fuel) true (c ∷ cs) ≡ (c ∷ cs) ∷ []
unfolding words cut_word
one_word fuel c cs h = rw (index_of-none (c ∷ cs) h) (ground arith)

-- A line of one word is a fault, a read of the first of no words, exactly if it starts with a colon.
pub handle_line-fault_iff :
    (line : Bytes) (x : IrcClient)
    → All (λ b. b ≢ 32) line
    → (handle_line line x ≡ none) ↔ (starts_with_colon line ≡ true)
unfolding handle_line handle_words handle_irc_command
handle_line-fault_iff [] x h = unfold starts_with_colon in ground arith
handle_line-fault_iff (c ∷ cs) x h = rw (one_word (length cs) c cs h) (ground arith)
