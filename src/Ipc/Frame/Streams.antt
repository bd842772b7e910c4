-- ===== src/Ipc/Frame/Streams.antt =====
-- What is written comes back: frames on a stream, one behind the other.
use ferrosonic.Prelude.{
  ℕ, zero, suc, ◌≤◌, ◌≡◌, refl, ap, inl, inr, arith, List, [], ◌∷◌, ◌++◌, map, length,
  length-append, take-length_append, drop-length_append, append_assoc, ◌∙◌,
}
use ferrosonic.Prelude.Results.{Result, ok, and_then, Result-cases}
use ferrosonic.Ipc.Frame.{
  Json, Reader, Frame, FrameError, max_frame_bytes, to_le_bytes, encode, read_frame,
  read_frame_body, read_frame_body_with_cap, read_rest, json_err, io_err,
}
use ferrosonic.Ipc.Frame.Bytes.{length-to_le_bytes, from_le_bytes-to_le_bytes}
use ferrosonic.Ipc.Frame.Reading.{IsReader}

module _ {E J Q P V R : Type 0} (json : Json E J (Frame Q P V)) (rd : Reader R) where
  -- What serde makes of the text that it wrote for a frame.
  unfoldable pub reread : Frame Q P V → Result (FrameError E) (Frame Q P V)
  reread f = json_err (and_then (json.to_vec f) json.from_slice)

  -- The next `n` frames, read one after the other.
  unfoldable pub read_frames : ℕ → R → List (Result (FrameError E) (Frame Q P V)) × R
  read_frames zero r = ([], r)
  read_frames (suc n) r =
      let now = read_frame json rd r in
      let later = read_frames n now.1 in (now.0 ∷ later.0, later.1)

  -- Reading as many bytes as a first part has gives that part.
  read_exact-part :
      (n : ℕ) (r : R) (part rest : List ℕ)
      → IsReader rd
      → length part ≡ n
      → rd.pending r ≡ part ++ rest
      → ((rd.read_exact n r).0 ≡ ok part) × (rd.pending (rd.read_exact n r).1 ≡ rest)
  read_exact-part n r part rest law size h = ground (
    arith,
    law.reads n r,
    law.leaves n r,
    length-append part rest,
    take-length_append part rest,
    drop-length_append part rest,
  )

  read_rest-framed :
      (r : R) (body rest : List ℕ)
      → IsReader rd
      → length body ≤ max_frame_bytes
      → rd.pending r ≡ body ++ rest
      → ((read_rest {E = E} rd max_frame_bytes (length body) r).0 ≡ ok body)
        × (rd.pending (read_rest {E = E} rd max_frame_bytes (length body) r).1 ≡ rest)
  unfolding read_rest io_err
  read_rest-framed r body rest law small h =
      ground (arith, read_exact-part (length body) r body rest law refl h)

  read_body-framed :
      (r : R) (body rest : List ℕ)
      → IsReader rd
      → length body ≤ max_frame_bytes
      → rd.pending r ≡ to_le_bytes (length body) ++ (body ++ rest)
      → ((read_frame_body {E = E} rd r).0 ≡ ok body)
        × (rd.pending (read_frame_body {E = E} rd r).1 ≡ rest)
  unfolding read_frame_body read_frame_body_with_cap
  read_body-framed r body rest law small h =
      let (got, left) =
        read_exact-part 4 r (to_le_bytes (length body)) (body ++ rest) law
          (length-to_le_bytes (length body)) h in
      rw
        (
          got,
          from_le_bytes-to_le_bytes (length body) (omega arith),
          read_frame_body,
          read_frame_body_with_cap,
        )
        (read_rest-framed (rd.read_exact 4 r).1 body rest law small left)

  encode-ok :
      (f : Frame Q P V) (buf : List ℕ)
      → encode json f ≡ ok buf
      → (body : List ℕ) × ((json.to_vec f ≡ ok body)
          × ((length body ≤ max_frame_bytes) × (buf ≡ to_le_bytes (length body) ++ body)))
  unfolding encode json_err
  encode-ok f buf h = elim (Result-cases (json.to_vec f)) [
    | inl (body, made) ↦ (body, (made, ground arith))
    | inr (e, failed) ↦ absurd (ground arith)
  ]

  read_frame-written :
      (f : Frame Q P V) (buf rest : List ℕ) (r : R)
      → IsReader rd
      → encode json f ≡ ok buf
      → rd.pending r ≡ buf ++ rest
      → ((read_frame json rd r).0 ≡ reread f) × (rd.pending (read_frame json rd r).1 ≡ rest)
  unfolding read_frame json_err reread
  read_frame-written f buf rest r law h p =
      let (body, (made, (small, eq))) = encode-ok f buf h in
      let framed : rd.pending r ≡ to_le_bytes (length body) ++ (body ++ rest) =
        p ∙ ap (λ b. b ++ rest) eq ∙ append_assoc (to_le_bytes (length body)) body rest in
      let (got, left) = read_body-framed r body rest law small framed in
      ground (arith, got, left, made)

  -- The frames of a list, encoded one behind the other.
  unfoldable pub encode_all : List (Frame Q P V) → Result (FrameError E) (List ℕ)
  encode_all [] = ok []
  encode_all (f ∷ fs) =
      and_then (encode json f) (λ buf. and_then (encode_all fs) (λ later. ok (buf ++ later)))

  encode_all-ok :
      (f : Frame Q P V) (fs : List (Frame Q P V)) (bytes : List ℕ)
      → encode_all (f ∷ fs) ≡ ok bytes
      → (buf later : List ℕ) × ((encode json f ≡ ok buf)
          × ((encode_all fs ≡ ok later) × (bytes ≡ buf ++ later)))
  unfolding encode_all
  encode_all-ok f fs bytes h = elim (Result-cases (encode json f)) [
    | inr (e, failed) ↦ absurd (ground (arith, failed))
    | inl (buf, made) ↦ elim (Result-cases (encode_all fs)) [
      | inl (later, more) ↦ (buf, later, (made, (more, ground (arith, made, more))))
      | inr (e, failed) ↦ absurd (ground (arith, made, failed))
    ]
  ]

  -- Frames that are written one behind the other are read back one by one and in the same order:
  -- each read gives what serde makes of the text it wrote for that frame, which is the frame itself
  -- wherever serde reads it back, and what follows the frames on the stream is left.
  pub read_frames-encode_all :
      (fs : List (Frame Q P V)) (bytes rest : List ℕ) (r : R)
      → IsReader rd
      → encode_all fs ≡ ok bytes
      → rd.pending r ≡ bytes ++ rest
      → ((read_frames (length fs) r).0 ≡ map reread fs)
        × (rd.pending (read_frames (length fs) r).1 ≡ rest)
  unfolding read_frames encode_all
  read_frames-encode_all [] bytes rest r law h p = ground arith
  read_frames-encode_all (f ∷ fs) bytes rest r law h p =
      let (buf, later, (made, (more, eq))) = encode_all-ok f fs bytes h in
      let at_front : rd.pending r ≡ buf ++ (later ++ rest) =
        p ∙ ap (λ b. b ++ rest) eq ∙ append_assoc buf later rest in
      let (first, left) = read_frame-written f buf (later ++ rest) r law made at_front in
      let ih = read_frames-encode_all fs later rest (read_frame json rd r).1 law more left in
      ground (arith, first, ih)
