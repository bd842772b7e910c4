-- ===== src/Ipc/Frame/Reading.antt =====
-- What a reader gets from the bytes that have arrived.
use ferrosonic.Prelude.{
  ℕ, ◌+◌, ◌<◌, ◌≤◌, ◌≡◌, inl, inr, arith, List, length, take, drop, ltb, if◌then◌else◌, length-drop,
  Bool-cases, ltb→lt,
}
use ferrosonic.Prelude.Results.{Result, ok, err}
use ferrosonic.Ipc.Frame.{
  Reader, FrameError, unexpected_eof, io, too_large, closed, from_le_bytes, read_rest,
  read_frame_body_with_cap, io_err, length_error,
}

-- The documented behaviour of `read_exact` on a connection on which nothing more arrives: it takes
-- as many bytes as asked, or reports the end.
pub record IsReader {R : Type 0} (rd : Reader R) : Type 0 where
  pub reads :
      (n : ℕ) (r : R)
      → n ≤ length (rd.pending r)
      → (rd.read_exact n r).0 ≡ ok (take n (rd.pending r))
  pub leaves :
      (n : ℕ) (r : R)
      → n ≤ length (rd.pending r)
      → rd.pending (rd.read_exact n r).1 ≡ drop n (rd.pending r)
  pub ends :
      (n : ℕ) (r : R) → length (rd.pending r) < n → (rd.read_exact n r).0 ≡ err unexpected_eof

-- What the bytes mean, by the wire format.
unfoldable pub body_of : {E : Type 0} → ℕ → List ℕ → Result (FrameError E) (List ℕ)
body_of cap bytes =
    let len = from_le_bytes (take 4 bytes) in
    if ltb (length bytes) 4
    then err closed
    else if ltb cap len
    then err (too_large len)
    else if ltb (length bytes) (4 + len)
    then err (io unexpected_eof)
    else ok (take len (drop 4 bytes))

module _ {E R : Type 0} (rd : Reader R) where
  pub read_rest-of :
      (cap len : ℕ) (r : R) (later : List ℕ)
      → IsReader rd
      → rd.pending r ≡ later
      → (read_rest {E = E} rd cap len r).0 ≡ (
          if ltb cap len
          then err (too_large len)
          else if ltb (length later) len
          then err (io unexpected_eof)
          else ok (take len later))
  unfolding read_rest io_err
  read_rest-of cap len r later law h = elim (Bool-cases (ltb (length later) len)) [
    | inl short ↦ ground (arith, ltb→lt (length later) len, law.ends len r)
    | inr enough ↦ ground (arith, law.reads len r)
  ]

  -- Reading a body gives what the wire format makes of the arrived bytes: `closed` for fewer than
  -- four, also where one to three have arrived, `too_large` beyond the cap, an I/O error for a body cut short, and the body else.
  pub read_body-body_of :
      (cap : ℕ) (r : R)
      → IsReader rd
      → (read_frame_body_with_cap {E = E} rd cap r).0 ≡ body_of cap (rd.pending r)
  unfolding read_frame_body_with_cap body_of length_error
  read_body-body_of cap r law = elim (Bool-cases (ltb (length (rd.pending r)) 4)) [
    | inl short ↦ ground (arith, law.ends 4 r)
    | inr enough ↦ ground (
      arith,
      law.reads 4 r,
      length-drop 4 (rd.pending r),
      read_rest-of cap (from_le_bytes (take 4 (rd.pending r))) (rd.read_exact 4 r).1
          (drop 4 (rd.pending r)) law (law.leaves 4 r (ground arith)),
    )
  ]
