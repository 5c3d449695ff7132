-- ===== src/RConnect/Forward.antt =====
-- RConnect: which frames are passed on, however the bytes arrive.
use pinetd.Prelude.{
  ℕ, zero, suc, ◌+◌, ◌≤◌, ◌≡◌, refl, sym, ap, ◌∙◌, if◌then◌else◌, Bool, List, [], ◌∷◌, ◌++◌, Option,
  none, some, Bytes, length, take, drop, find, find-put, All, append_assoc, length-append,
  take-append, drop-append, bytes_cases, inl, inr, arith,
}
use pinetd.RConnect.{
  RConnectClient, Table, frame_length, write_to, forward_to, forward_frame, forward, keep, receive,
  handle_buffer,
}
use pinetd.RConnect.Frames.{Frame, encode, encode_length, IsFrame, frame_length-encode}

abbrev pub concat : List Frame → Bytes
concat [] = []
concat (f ∷ fs) = encode f ++ concat fs

-- What the target of a frame is sent: the sender's id in place of its own, and the rest of the frame.
abbrev pub passed_on : Bytes → Frame → Bytes
passed_on raw_id f = raw_id ++ (encode_length (length f.payload) ++ f.payload)

abbrev pub delivered_to : Bytes → Frame → Option RConnectClient → Table → Table
delivered_to raw_id f none t = t
delivered_to raw_id f (some c) t = write_to f.target (passed_on raw_id f) c t

-- Frames sent on one after the other, in order.
abbrev pub deliver_all : Bytes → List Frame → Table → Table
deliver_all raw_id [] t = t
deliver_all raw_id (f ∷ fs) t = deliver_all raw_id fs (delivered_to raw_id f (find f.target t) t)

-- A frame that is well formed and whose target is in the table.
abbrev pub IsKnown : Table → Frame → Type 0
IsKnown t f = IsFrame f × ((c : RConnectClient) × (find f.target t ≡ some c))

front-encode : (f : Frame) (rest : Bytes) → IsFrame f → take 16 (encode f ++ rest) ≡ f.target
front-encode f rest h =
    ap (λ (t : Bytes). take 16 t) (append_assoc f.target _ rest)
    ∙ take-append 16 f.target _ h.target

back-encode :
    (f : Frame) (rest : Bytes)
    → IsFrame f
    → drop 16 (take (length (encode f)) (encode f ++ rest))
      ≡ encode_length (length f.payload) ++ f.payload
back-encode f rest h =
    ap (λ (t : Bytes). drop 16 t) (take-append (length (encode f)) (encode f) rest refl)
    ∙ drop-append 16 f.target _ h.target

-- A round of the loop with a frame at the front.
forward_round :
    (fuel : ℕ) (raw_id rest : Bytes) (f : Frame) (t : Table)
    → IsFrame f
    → forward (suc fuel) raw_id t (encode f ++ rest)
      ≡ forward_to
          (forward fuel raw_id)
          raw_id
          t
          (encode f ++ rest)
          (length (encode f))
          (find f.target t)
unfolding forward forward_frame
forward_round fuel raw_id rest f t h = rw (frame_length-encode f rest h) (
    ap
      (λ (k : Bytes).
        forward_to (forward fuel raw_id) raw_id t (encode f ++ rest) (length (encode f)) (find k t))
      (front-encode f rest h))

forward_known :
    (fuel : ℕ) (raw_id rest : Bytes) (f : Frame) (c : RConnectClient) (t : Table)
    → IsFrame f
    → find f.target t ≡ some c
    → forward (suc fuel) raw_id t (encode f ++ rest)
      ≡ forward fuel raw_id (write_to f.target (passed_on raw_id f) c t) rest
unfolding forward_to
forward_known fuel raw_id rest f c t h e =
    forward_round fuel raw_id rest f t h
    ∙ rw
        (
          e,
          front-encode f rest h,
          back-encode f rest h,
          drop-append (length (encode f)) (encode f) rest refl,
        )
        refl

forward_unknown :
    (fuel : ℕ) (raw_id rest : Bytes) (f : Frame) (t : Table)
    → IsFrame f
    → find f.target t ≡ none
    → forward (suc fuel) raw_id t (encode f ++ rest) ≡ (t, rest)
unfolding forward_to
forward_unknown fuel raw_id rest f t h e =
    forward_round fuel raw_id rest f t h
    ∙ rw (e, drop-append (length (encode f)) (encode f) rest refl) refl

forward_partial :
    (fuel : ℕ) (raw_id rest : Bytes) (t : Table)
    → frame_length rest ≡ none
    → forward fuel raw_id t rest ≡ (t, rest)
unfolding forward forward_frame
forward_partial zero raw_id rest t h = refl
forward_partial (suc fuel) raw_id rest t h = rw h refl

-- Writing to a client leaves every known target known.
write_to-IsKnown :
    (tgt dat : Bytes) (c : RConnectClient) (t : Table) (f : Frame)
    → IsKnown t f
    → IsKnown (write_to tgt dat c t) f
unfolding write_to
write_to-IsKnown tgt dat c t f (h, (d, e)) =
    let c' : RConnectClient = record c { sent = c.sent ++ (dat ∷ []) } in
    elim (bytes_cases tgt f.target) [
      | inl (p, q) ↦ (
        h,
        (
          c',
          find-put tgt f.target c' t ∙ ap (λ (b : Bool). if b then some c' else find f.target t) q,
        ),
      )
      | inr (p, q) ↦ (
        h,
        (
          d,
          find-put tgt f.target c' t
              ∙ ap (λ (b : Bool). if b then some c' else find f.target t) q
              ∙ e,
        ),
      )
    ]

write_to-All :
    (tgt dat : Bytes) (c : RConnectClient) (t : Table) (fs : List Frame)
    → All (IsKnown t) fs
    → All (IsKnown (write_to tgt dat c t)) fs
write_to-All tgt dat c t [] h = tt
write_to-All tgt dat c t (f ∷ fs) (h, hs) =
    (write_to-IsKnown tgt dat c t f h, write_to-All tgt dat c t fs hs)

forward-concat :
    (fs : List Frame) (fuel : ℕ) (raw_id rest : Bytes) (t : Table)
    → All (IsKnown t) fs
    → length (concat fs ++ rest) ≤ fuel
    → (fuel' : ℕ) × (length rest ≤ fuel')
      × (forward fuel raw_id t (concat fs ++ rest)
          ≡ forward fuel' raw_id (deliver_all raw_id fs t) rest)
forward-concat [] fuel raw_id rest t h n = (fuel, n, refl)
forward-concat (f ∷ fs) zero raw_id rest t ((w, k), hs) n = absurd (
    omega (
      arith,
      length-append (encode f ++ concat fs) rest,
      length-append (encode f) (concat fs),
      length-append f.target (encode_length (length f.payload) ++ f.payload),
      w.target,
    ))
forward-concat (f ∷ fs) (suc fuel) raw_id rest t ((w, (c, e)), hs) n =
    let t' = write_to f.target (passed_on raw_id f) c t in
    let shape = append_assoc (encode f) (concat fs) rest in
    let size : length ((encode f ++ concat fs) ++ rest)
        ≡ length (encode f) + length (concat fs ++ rest) =
      ap (λ (b : Bytes). length b) shape ∙ length-append (encode f) (concat fs ++ rest) in
    let known = write_to-All f.target (passed_on raw_id f) c t fs hs in
    let shorter : length (concat fs ++ rest) ≤ fuel = omega (
      arith,
      n,
      size,
      length-append f.target (encode_length (length f.payload) ++ f.payload),
      w.target,
    ) in
    let (fuel', m, later) = forward-concat fs fuel raw_id rest t' known shorter in
    (
      fuel',
      m,
      ap (λ (b : Bytes). forward (suc fuel) raw_id t b) shape
          ∙ forward_known fuel raw_id (concat fs ++ rest) f c t w e
          ∙ later
          ∙ ap (λ o. forward fuel' raw_id (deliver_all raw_id fs (delivered_to raw_id f o t)) rest)
              (sym e),
    )

-- However the bytes arrive: if what a client's buffer and the new bytes hold are frames to clients of
-- the table and an unfinished frame, each frame is written to its target once, in order, under the
-- sender's id, and the unfinished one is kept.
pub handle_buffer-frames :
    (fs : List Frame) (buf rest raw_id : Bytes) (c : RConnectClient) (t : Table)
    → find raw_id t ≡ some c
    → c.buf_in ++ buf ≡ concat fs ++ rest
    → All (IsKnown t) fs
    → frame_length rest ≡ none
    → handle_buffer buf raw_id t
      ≡ (let t' = deliver_all c.raw_id fs t in keep c.raw_id rest (find c.raw_id t') t')
unfolding handle_buffer receive
handle_buffer-frames fs buf rest raw_id c t e b h p =
    let (fuel', m, run) =
      forward-concat fs (length (concat fs ++ rest)) c.raw_id rest t h (omega arith) in
    rw (e, b, run ∙ forward_partial fuel' c.raw_id rest (deliver_all c.raw_id fs t) p) refl

-- A frame for nobody is dropped, and `handleBuffer` returns there: whatever stands behind it, complete
-- frames to known clients included, stays in the buffer until more bytes come.
pub handle_buffer-unknown :
    (fs : List Frame) (f : Frame) (buf rest raw_id : Bytes) (c : RConnectClient) (t : Table)
    → find raw_id t ≡ some c
    → c.buf_in ++ buf ≡ concat fs ++ (encode f ++ rest)
    → All (IsKnown t) fs
    → IsFrame f
    → find f.target (deliver_all c.raw_id fs t) ≡ none
    → handle_buffer buf raw_id t
      ≡ (let t' = deliver_all c.raw_id fs t in keep c.raw_id rest (find c.raw_id t') t')
unfolding handle_buffer receive
handle_buffer-unknown fs f buf rest raw_id c t e b h w u =
    let (fuel', m, run) =
      forward-concat fs (length (concat fs ++ (encode f ++ rest))) c.raw_id (encode f ++ rest) t h
        (omega arith) in
    rw (e, b, run ∙ stop fuel' m) refl
  where
    stop :
        (n : ℕ)
        → length (encode f ++ rest) ≤ n
        → forward n c.raw_id (deliver_all c.raw_id fs t) (encode f ++ rest)
          ≡ (deliver_all c.raw_id fs t, rest)
    stop zero m = absurd (
        omega (
          arith,
          m,
          length-append (encode f) rest,
          length-append f.target (encode_length (length f.payload) ++ f.payload),
          w.target,
        ))
    stop (suc n) m = forward_unknown n c.raw_id rest f (deliver_all c.raw_id fs t) w u
