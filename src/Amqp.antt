-- ===== src/Amqp.antt =====
-- The calls that the daemons make of the AMQP library, mod/ext/qamqp, which is not modelled itself.
use pinetd.Prelude.{ℕ, Bytes}

pub data Call : Type 0 where
  open_client : Bytes → Call
  create_queue : Call
  declare_queue : Bytes → Call
  create_exchange : Bytes → Call
  set_qos : ℕ → ℕ → Call
  consume : Call
  declare_exchange : Bytes → Call
  bind_queue : Call
  ack : Bytes → Call
