-- ===== src/Tests/RConnect.antt =====
-- Runs of mod/daemon/rconnect.
use pinetd.Prelude.{◌≡◌, refl, [], ◌∷◌, ◌++◌, replicate, find, bytes_eq, arith}
use pinetd.RConnect.{RConnectClient, Table, handle_buffer, keep, write_to, frame_length}
use pinetd.DataStream.{be_bytes, le_bytes}
use pinetd.RConnect
use pinetd.RConnect.Frames.{Frame, encode}
use pinetd.RConnect.Forward.{deliver_all, handle_buffer-frames, handle_buffer-unknown}

abbrev alice : RConnectClient
alice = record { raw_id = replicate 16 1; buf_in = replicate 16 2; sent = [] }

abbrev bob : RConnectClient
bob = record { raw_id = replicate 16 2; buf_in = []; sent = [] }

abbrev table : Table
table = (replicate 16 1, alice) ∷ (replicate 16 2, bob) ∷ []

abbrev hello : Frame
hello = record { target = replicate 16 2; payload = 104 ∷ 105 ∷ [] }

abbrev lost : Frame
lost = record { target = replicate 16 9; payload = 63 ∷ [] }

-- The target came first; now the rest of the frame, and the beginning of the next.
handle_buffer-frames_example :
    handle_buffer (0 ∷ 2 ∷ 104 ∷ 105 ∷ 7 ∷ 7 ∷ []) (replicate 16 1) table ≡ (
      let t' = deliver_all (replicate 16 1) (hello ∷ []) table in
      keep (replicate 16 1) (7 ∷ 7 ∷ []) (find (replicate 16 1) t') t')
unfolding find bytes_eq frame_length RConnect.header RConnect.complete be_bytes le_bytes
handle_buffer-frames_example =
    handle_buffer-frames (hello ∷ []) (0 ∷ 2 ∷ 104 ∷ 105 ∷ 7 ∷ 7 ∷ []) (7 ∷ 7 ∷ []) (replicate 16 1)
      alice table refl refl ((record { target = refl; payload = omega arith }, (bob, refl)), tt)
      refl

-- A frame for nobody, and behind it a complete one that waits.
handle_buffer-unknown_example :
    handle_buffer (encode lost ++ (encode hello ++ [])) (replicate 16 2) table ≡ (
      let t' = deliver_all (replicate 16 2) [] table in
      keep (replicate 16 2) (encode hello ++ []) (find (replicate 16 2) t') t')
unfolding find bytes_eq
handle_buffer-unknown_example =
    handle_buffer-unknown [] lost (encode lost ++ (encode hello ++ [])) (encode hello ++ [])
      (replicate 16 2) bob table refl refl tt (record { target = refl; payload = omega arith }) refl
