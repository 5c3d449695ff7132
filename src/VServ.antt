-- ===== src/VServ.antt =====
-- mod/daemon/vserv/VServ.cpp: the configuration of a virtual machine as the arguments of QEMU.
pub mod Devices
pub mod Fields
use pinetd.Prelude.{
  ℕ, zero, suc, ◌+◌, ◌==◌, ◌&&◌, if◌then◌else◌, Option, none, some, List, [], ◌∷◌, ◌++◌, Bool, true,
  false, Bytes, codes, length, split, Dict, find, has_key, put,
}
use pinetd.Prelude.Fault.{◌>>=◌}
use pinetd.Prelude.Decimal.{decimal}
use pinetd.Prelude.Files.{content}

-- `VServ`, with the programs that its process was started with, and where its socket was connected to.
pub record VServ : Type 0 where
  pub config : Dict Bytes
  pub qemu_exe : Bytes
  pub name : Bytes
  pub bpath : Bytes
  pub running : Bool
  pub started : List (Bytes × List Bytes)
  pub connected : List Bytes

-- `value(k)` of a QMap of texts: the empty text on a missing key.
abbrev pub setting : Bytes → Dict Bytes → Bytes
setting k config = content k config

unfoldable pub put_all : List (Bytes × Bytes) → Dict Bytes → Dict Bytes
unfolding put
put_all [] m = m
put_all ((k, v) ∷ kvs) m = put_all kvs (put k v m)

-- The constructor, with the text of a new UUID.
unfoldable pub construct : Bytes → Bytes → VServ
unfolding put_all
construct name uuid = record {
  config =
      put_all
        ((codes "model", codes "pc-1.0")
          ∷ (codes "cpu", codes "Nehalem")
          ∷ (codes "memory", codes "512")
          ∷ (codes "smp_count", codes "1")
          ∷ (codes "smp_max", codes "32")
          ∷ (codes "system_name", name)
          ∷ (codes "system_uuid", uuid)
          ∷ (codes "rtc_base", codes "utc")
          ∷ (codes "vga", codes "cirrus")
          ∷ (codes "net_mac", codes "52:05:99:00:00:01")
          ∷ (codes "net_if", name ++ codes "0")
          ∷ (
            codes "device0",
            codes
                  "virtio-blk-pci|bus=pci.0|addr=0x4|drive=drive-device0|id=device0|bootindex=2|file="
                ++ (uuid ++ codes ".bin|format=raw"),
          )
          ∷ (
            codes "device1",
            codes
                "ide-drive|bus=ide.1|unit=0|drive=drive-device1|id=ide0-1-0|bootindex=1|media=cdrom|readonly=on|format=raw",
          )
          ∷ [])
        [];
  qemu_exe = codes "/usr/bin/qemu-system-x86_64";
  name = name;
  bpath = codes "/tmp/";
  running = false;
  started = [];
  connected = [];
}

-- `left(k)` and `mid(k + 1)` at the first "=", if there is one.
unfoldable pub cut_at_equals : Bytes → Option (Bytes × Bytes)
cut_at_equals [] = none
cut_at_equals (b ∷ bs) =
    let rest = cut_at_equals bs in
    if b == 61 then some ([], bs) else (elim rest [ none ↦ none | some (k, v) ↦ some (b ∷ k, v) ])

-- The loop over the parts of a device's text behind the first.
unfoldable pub put_field : Option (Bytes × Bytes) → Dict Bytes → Dict Bytes
unfolding put
put_field none info = info
put_field (some (k, v)) info = put k v info

unfoldable pub read_fields : List Bytes → Dict Bytes → Dict Bytes
unfolding cut_at_equals put_field
read_fields [] info = info
read_fields (p ∷ ps) info = read_fields ps (put_field (cut_at_equals p) info)

-- The type of a device, and its fields. (There is always a first part.)
unfoldable pub read_parts : List Bytes → Bytes × Dict Bytes
unfolding read_fields
read_parts [] = ([], [])
read_parts (type ∷ parts) = (type, read_fields parts [])

unfoldable pub read_device : Bytes → Bytes × Dict Bytes
unfolding split read_parts
read_device text = read_parts (split 124 text)

-- ",key=value" of a field that is there.
unfoldable pub option : Bytes → Dict Bytes → Bytes
unfolding has_key content
option k info = if has_key k info then codes "," ++ (k ++ (codes "=" ++ setting k info)) else []

-- The round of the loop for a device.
unfoldable pub device_args : Bytes × Dict Bytes → List Bytes
unfolding option has_key content
device_args (type, info) =
    let devtype =
      type
      ++ (option (codes "bus") info
          ++ (option (codes "unit") info
              ++ (option (codes "addr") info
                  ++ (option (codes "drive") info
                      ++ (option (codes "id") info ++ option (codes "bootindex") info))))) in
    let driveinfo =
      codes "id="
      ++ (setting (codes "drive") info
          ++ (codes ",if=none"
              ++ (option (codes "file") info
                  ++ (option (codes "format") info
                      ++ (option (codes "media") info ++ option (codes "readonly") info))))) in
    (if has_key (codes "drive") info then codes "-drive" ∷ driveinfo ∷ [] else [])
    ++ (codes "-device" ∷ devtype ∷ [])

unfoldable pub device_key : ℕ → Bytes
unfolding decimal
device_key i = codes "device" ++ decimal i

-- The loop over the devices, on fuel.
unfoldable pub device_loop : ℕ → ℕ → Dict Bytes → Option (List Bytes)
unfolding device_key device_args read_device has_key content
device_loop zero i config = none
device_loop (suc fuel) i config =
    let rest = device_loop fuel (suc i) config in
    if has_key (device_key i) config
    then (do args ← rest; some (device_args (read_device (setting (device_key i) config)) ++ args))
    else some []

-- The arguments before the devices, and those behind them.
unfoldable pub first_args : VServ → List Bytes
unfolding has_key content
first_args v =
    let c = v.config in
    (codes "-S"
      ∷ codes "-M"
      ∷ setting (codes "model") c
      ∷ codes "-cpu"
      ∷ setting (codes "cpu") c
      ∷ codes "-enable-kvm"
      ∷ codes "-m"
      ∷ setting (codes "memory") c
      ∷ codes "-smp"
      ∷ (setting (codes "smp_count") c ++ (codes ",maxcpus=" ++ setting (codes "smp_max") c))
      ∷ codes "-name"
      ∷ setting (codes "system_name") c
      ∷ codes "-uuid"
      ∷ setting (codes "system_uuid") c
      ∷ [])
    ++ ((if has_key (codes "net_mac") c && has_key (codes "net_if") c
          then codes "-net"
            ∷ (codes "nic,macaddr=" ++ (setting (codes "net_mac") c ++ codes ",model=virtio"))
            ∷ codes "-net"
            ∷ (codes "tap,name=" ++ setting (codes "net_if") c)
            ∷ []
          else [])
        ++ ((codes "-nodefconfig"
              ∷ codes "-nodefaults"
              ∷ codes "-chardev"
              ∷ (codes "socket,id=charmonitor,path="
                  ++ (v.bpath ++ (setting (codes "system_uuid") c ++ codes ".monitor,server")))
              ∷ codes "-mon"
              ∷ codes "chardev=charmonitor,id=monitor,mode=control"
              ∷ [])
            ++ (if has_key (codes "rtc_base") c
                then codes "-rtc" ∷ (codes "base=" ++ setting (codes "rtc_base") c) ∷ []
                else [])))

unfoldable pub last_args : VServ → List Bytes
unfolding content
last_args v =
    codes "-usb"
    ∷ codes "-device"
    ∷ codes "usb-tablet,id=input0"
    ∷ codes "-vnc"
    ∷ (codes "unix:" ++ (v.bpath ++ (setting (codes "system_uuid") v.config ++ codes ".vnc")))
    ∷ codes "-vga"
    ∷ setting (codes "vga") v.config
    ∷ codes "-device"
    ∷ codes "virtio-balloon-pci,id=balloon0,bus=pci.0,addr=0x5"
    ∷ []

-- `cmdLine`, with fuel for one round more than there are settings.
unfoldable pub cmd_line : VServ → Option (List Bytes)
unfolding first_args last_args device_loop
cmd_line v = do
  devices ← device_loop (suc (length v.config)) 0 v.config
  some (first_args v ++ (devices ++ last_args v))

-- `start`, which does nothing while the process runs.
unfoldable pub start : VServ → Option VServ
unfolding cmd_line
start v = if v.running then some v else do
  args ← cmd_line v
  some (record v { running = true; started = v.started ++ ((v.qemu_exe, args) ∷ []) })

-- `processStarted`
unfoldable pub process_started : VServ → VServ
unfolding content
process_started v = record v {
  connected =
      v.connected
      ++ ((v.bpath ++ (setting (codes "system_uuid") v.config ++ codes ".monitor")) ∷ []);
}
