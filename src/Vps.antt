-- ===== src/Vps.antt =====
-- mod/daemon/vps/ModVps.cpp: a daemon that connects to a queue once its settings name one.
use pinetd.Prelude.{◌≡◌, Option, none, some, List, [], ◌∷◌, ◌++◌, Bytes, codes, Dict, find, ap}
use pinetd.Prelude.Files.{content}
use pinetd.Amqp.{Call, open_client, create_queue, declare_queue, set_qos, consume, ack}

-- `ModVps`: the address that its client was opened with, and the calls that it made.
pub record Vps : Type 0 where
  pub mq_client : Option Bytes
  pub calls : List Call

unfoldable pub construct : Vps
construct = record { mq_client = none; calls = [] }

-- `reload` without a client, by the setting "mq".
unfoldable pub open_mq : Option Bytes → Dict Bytes → Vps → Vps
unfolding content
open_mq none conf v = v
open_mq (some url) conf v = record {
  mq_client = some url;
  calls =
      v.calls
      ++ (open_client url ∷ create_queue ∷ declare_queue (content (codes "mq_queue") conf) ∷ []);
}

-- `reload`, with the settings of the daemon.
unfoldable pub reload_with : Option Bytes → Dict Bytes → Vps → Vps
unfolding open_mq find
reload_with (some url) conf v = v
reload_with none conf v = open_mq (find (codes "mq") conf) conf v

unfoldable pub reload : Dict Bytes → Vps → Vps
unfolding reload_with
reload conf v = reload_with v.mq_client conf v

unfoldable pub call : Call → Vps → Vps
call c v = record v { calls = v.calls ++ (c ∷ []) }

-- `mq_declared`
unfoldable pub mq_declared : Vps → Vps
unfolding call
mq_declared v = call consume (call (set_qos 0 1) v)

-- `mq_messageReceived`: the message is only logged.
unfoldable pub mq_message_received : Bytes → Vps → Vps
unfolding call
mq_message_received payload v = call (ack payload) v

-- Once a client is open, loading the settings opens nothing more, whatever they say.
pub reload_open :
    (conf : Dict Bytes) (url : Bytes) (v : Vps) → v.mq_client ≡ some url → reload conf v ≡ v
unfolding reload reload_with
reload_open conf url v e = ap (λ (o : Option Bytes). reload_with o conf v) e
