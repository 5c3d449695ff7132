-- ===== src/Netflow.antt =====
-- mod/daemon/netflow/ModNetflow.cpp: datagrams are appended to one file for each minute. The files are
-- a map of their contents.
pub mod Records
use pinetd.Prelude.{
  ℕ, ◌/◌, if◌then◌else◌, Option, none, some, List, [], ◌∷◌, ◌++◌, Bool, Bytes, codes, length, Dict,
  find, put,
}
use pinetd.Prelude.Decimal.{decimal}
use pinetd.Prelude.Files.{content}
use pinetd.DataStream.{be_bytes}

-- The name of the minute's file, for a time in milliseconds.
unfoldable pub spool_name : ℕ → Bytes
unfolding decimal
spool_name now = codes "/var/spool/netflow/nf_" ++ (decimal (now / 1000 / 60) ++ codes ".raw")

-- `QDataStream::writeBytes`
unfoldable pub write_bytes : Bytes → Bytes
write_bytes dat = be_bytes 4 (length dat) ++ dat

-- `incomingDatagram`, with the time, and whether the file could be opened: if not, the stream writes nothing.
unfoldable pub incoming_datagram : ℕ → Bool → Bytes → Dict Bytes → Dict Bytes
unfolding content spool_name write_bytes put
incoming_datagram now opens dat files =
    if opens
    then put (spool_name now) (content (spool_name now) files ++ write_bytes dat) files
    else files
