-- ===== src/Tests/Daemons.antt =====
-- Runs of the small daemons.
use pinetd.Prelude.{
  ℕ, ◌≡◌, refl, some, List, [], ◌∷◌, ◌++◌, true, false, Bytes, codes, put, has_key, bytes_eq, All,
  arith,
}
use pinetd.Prelude.Files.{content}
use pinetd.Netflow.{spool_name}
use pinetd.Netflow.Records.{Arrival, receive, read_records, read_records-receive}
use pinetd.Midas.{Midas, mq_message_received, construct, data_name, checkpoint}
use pinetd.Midas.Switches.{ending}
use pinetd.Midas.Segments.{Event, message, next_file, run, run-segment}
use pinetd.VServ.{VServ, first_args, last_args, device_key, cmd_line, read_device, put_all}
use pinetd.VServ.{construct as new_server}
use pinetd.VServ.Devices.{Present, args_from, cmd_line-devices}
use pinetd.VServ.Fields.{IsField, read_device-device_text}

-- Three datagrams in two minutes, one of which meets a file that cannot be opened.
abbrev arrivals : List Arrival
arrivals =
    record { now = 60000; opens = true; datagram = 1 ∷ 2 ∷ [] }
    ∷ record { now = 60001; opens = false; datagram = 3 ∷ [] }
    ∷ record { now = 119999; opens = true; datagram = 4 ∷ [] }
    ∷ record { now = 120000; opens = true; datagram = 5 ∷ [] }
    ∷ []

read_records-receive_example :
    read_records 2 (content (codes "/var/spool/netflow/nf_1.raw") (receive arrivals []))
    ≡ (1 ∷ 2 ∷ []) ∷ (4 ∷ []) ∷ []
unfolding spool_name bytes_eq
read_records-receive_example =
    read_records-receive arrivals (codes "/var/spool/netflow/nf_1.raw") 2
      (omega arith, (omega arith, tt)) (omega arith)

-- A daemon that was started, and got a message.
abbrev midas : Midas
midas = run (message (1 ∷ []) ∷ []) (construct (codes "1") true true [])

abbrev events : List Event
events = message (5 ∷ []) ∷ message (6 ∷ []) ∷ next_file (codes "3") ∷ message (7 ∷ []) ∷ []

run-segment_example :
    (content (data_name (codes "2")) (run (next_file (codes "2") ∷ events) midas).files
      ≡ 5 ∷ 6 ∷ ending (codes "3"))
    × (content checkpoint (run (next_file (codes "2") ∷ events) midas).files ≡ ending (codes "3"))
unfolding data_name bytes_eq mq_message_received construct
run-segment_example = run-segment events (codes "1") (codes "2") midas refl refl (refl, tt)

abbrev vserv : VServ
vserv = record (new_server (codes "t") (codes "u")) {
  config = (codes "device0", codes "a|bus=b") ∷ (codes "device2", codes "c") ∷ [];
}

cmd_line-devices_example :
    (n : ℕ) × Present n vserv.config
    × (has_key (device_key n) vserv.config ≡ false)
    × (cmd_line vserv ≡ some (first_args vserv ++ (args_from n 0 vserv.config ++ last_args vserv)))
cmd_line-devices_example = cmd_line-devices vserv

abbrev fields : List (Bytes × Bytes)
fields = (codes "bus", codes "pci.0") ∷ (codes "id", codes "x=y") ∷ []

fields-IsField : All IsField fields
fields-IsField = (
  record { key_bar = ground arith; key_equals = ground arith; value_bar = ground arith },
  (record { key_bar = ground arith; key_equals = ground arith; value_bar = ground arith }, tt),
)

read_device-device_text_example :
    read_device (codes "disk|bus=pci.0|id=x=y") ≡ (codes "disk", fields)
unfolding put_all put bytes_eq
read_device-device_text_example =
    read_device-device_text (codes "disk") fields (ground arith) fields-IsField
