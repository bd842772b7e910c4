-- ===== src/Tests/Wire.antt =====
-- The examples of the properties on frames: a JSON of two numbers
-- that masks what an event holds, and a stream that is a list.
use ferrosonic.Prelude.{
  ℕ, ◌≡◌, ◌↔◌, refl, arith, none, List, [], ◌∷◌, ◌++◌, length, take, drop, leb, if◌then◌else◌,
}
use ferrosonic.Prelude.Results.{Result, ok, err}
use ferrosonic.Ipc.Frame.{
  Json, Reader, Frame, request, event, unexpected_eof, parsed, encode, to_le_bytes, json_err,
  read_frame, read_frame_lenient, read_frame_body_with_cap,
}
use ferrosonic.Ipc.Frame.Reading.{IsReader, body_of, read_body-body_of}
use ferrosonic.Ipc.Frame.Lenient.{read_frame_lenient_iff}
use ferrosonic.Ipc.Frame.Streams.{read_frames, reread, encode_all, read_frames-encode_all}

abbrev to_pair : Frame ℕ ℕ ℕ → Result ℕ (List ℕ)
to_pair (request id req) = ok (id ∷ req ∷ [])
to_pair (event v) = ok (v ∷ [])
to_pair _ = err 1

abbrev of_pair : List ℕ → Result ℕ (Frame ℕ ℕ ℕ)
of_pair (id ∷ req ∷ []) = ok (request id req)
of_pair (v ∷ []) = ok (event 0)
of_pair _ = err 2

abbrev json : Json ℕ ℕ (Frame ℕ ℕ ℕ)
json = record {
  to_vec = to_pair;
  from_slice = of_pair;
  value = λ bytes. ok 0;
  get = λ v key. none;
  as_u64 = λ v. none;
  to_string = λ v. "0";
}

abbrev stream : Reader (List ℕ)
stream = record {
  read_exact = λ n bytes.
      if leb n (length bytes) then (ok (take n bytes), drop n bytes) else (err unexpected_eof, []);
  pending = λ bytes. bytes;
}

stream-IsReader : IsReader stream
stream-IsReader = record {
  reads = λ n r h. ground arith;
  leaves = λ n r h. ground arith;
  ends = λ n r h. ground arith;
}

abbrev frames : List (Frame ℕ ℕ ℕ)
frames = request 7 1 ∷ event 5 ∷ []

abbrev wire : List ℕ
wire = 2 ∷ 0 ∷ 0 ∷ 0 ∷ 7 ∷ 1 ∷ 1 ∷ 0 ∷ 0 ∷ 0 ∷ 5 ∷ []

on_wire : encode_all json stream frames ≡ ok wire
unfolding encode_all encode json_err to_le_bytes
on_wire = refl

read_frames-encode_all_example :
    ((read_frames json stream 2 (wire ++ 9 ∷ [])).0 ≡ ok (request 7 1) ∷ ok (event 0) ∷ [])
    × ((read_frames json stream 2 (wire ++ 9 ∷ [])).1 ≡ 9 ∷ [])
unfolding reread json_err
read_frames-encode_all_example =
    read_frames-encode_all json stream frames wire (9 ∷ []) (wire ++ 9 ∷ []) stream-IsReader on_wire
      refl

read_body-body_of_example : (read_frame_body_with_cap {E = ℕ} stream 1 wire).0 ≡ body_of 1 wire
read_body-body_of_example = read_body-body_of stream 1 wire stream-IsReader

read_frame_lenient_iff_example :
    ((read_frame_lenient json stream wire).1 ≡ (read_frame json stream wire).1)
    × ((read_frame_lenient json stream wire).0 ≡ ok (parsed (request 7 1))
        ↔ (read_frame json stream wire).0 ≡ ok (request 7 1))
read_frame_lenient_iff_example = read_frame_lenient_iff json stream wire (request 7 1)
