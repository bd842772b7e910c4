-- ===== src/Ipc/Frame.antt =====
-- ipc/frame.rs: the wire format, a length of four bytes in front of a JSON body. Bytes are numbers
-- below 256; requests, replies and events are the types `Q`, `P` and `V`.
pub mod Bytes
pub mod Reading
pub mod Lenient
pub mod Streams
use ferrosonic.Prelude.{
  ℕ, ◌+◌, ◌*◌, ◌/◌, ◌%◌, Bool, true, false, String, Option, none, some, List, [], ◌∷◌, ◌++◌, ltb,
  length, if◌then◌else◌,
}
use ferrosonic.Prelude.Results.{Result, ok, err, and_then, ok_or}

-- 16 MiB, and 1 MiB for what the daemon takes in.
abbrev pub max_frame_bytes : ℕ
max_frame_bytes = 16777216

abbrev pub max_request_frame_bytes : ℕ
max_request_frame_bytes = 1048576

pub data Frame (Q P V : Type 0) : Type 0 where
  request : (id : ℕ) → (req : Q) → Frame Q P V
  response : (id : ℕ) → (payload : Result String P) → Frame Q P V
  event : V → Frame Q P V

pub data FrameRead (Q P V : Type 0) : Type 0 where
  parsed : Frame Q P V → FrameRead Q P V
  unknown_request : (id : ℕ) → (body : String) → FrameRead Q P V
  unknown_response : (id : ℕ) → (body : String) → FrameRead Q P V
  unknown_event : (body : String) → FrameRead Q P V

-- `std::io::ErrorKind`, as far as the reader tells the kinds apart.
pub data IoError : Type 0 where
  unexpected_eof : IoError
  other : ℕ → IoError

pub data FrameError (E : Type 0) : Type 0 where
  io : IoError → FrameError E
  too_large : ℕ → FrameError E
  serialize : E → FrameError E
  closed : FrameError E

-- serde_json with its errors `E` and its values `J`.
pub record Json (E J F : Type 0) : Type 0 where
  pub to_vec : F → Result E (List ℕ)
  pub from_slice : List ℕ → Result E F
  pub value : List ℕ → Result E J
  pub get : J → String → Option J
  pub as_u64 : J → Option ℕ
  pub to_string : J → String

-- tokio's `AsyncReadExt` on a reader `R`, and what has arrived on it and is not yet read.
pub record Reader (R : Type 0) : Type 0 where
  pub read_exact : ℕ → R → Result IoError (List ℕ) × R
  pub pending : R → List ℕ

-- tokio's `AsyncWriteExt` on a writer `W`: what `write_all` and `flush` report.
pub record Writer (W : Type 0) : Type 0 where
  pub write_all : List ℕ → W → Result IoError (Unit {0}) × W
  pub flush : W → Result IoError (Unit {0}) × W

-- `u32::to_le_bytes` after the cast `as u32`, and `u32::from_le_bytes`.
unfoldable pub to_le_bytes : ℕ → List ℕ
to_le_bytes n = n % 256 ∷ n / 256 % 256 ∷ n / 65536 % 256 ∷ n / 16777216 % 256 ∷ []

unfoldable pub from_le_bytes : List ℕ → ℕ
from_le_bytes [] = 0
from_le_bytes (b ∷ bs) = b + 256 * from_le_bytes bs

-- `From<std::io::Error>` and `From<serde_json::Error>`, which `?` applies.
unfoldable pub io_err : {E A : Type 0} → Result IoError A → Result (FrameError E) A
io_err (ok a) = ok a
io_err (err e) = err (io e)

unfoldable pub json_err : {E A : Type 0} → Result E A → Result (FrameError E) A
json_err (ok a) = ok a
json_err (err e) = err (serialize e)

module _ {E R : Type 0} (rd : Reader R) where
  unfoldable pub length_error : IoError → FrameError E
  length_error unexpected_eof = closed
  length_error (other k) = io (other k)

  -- The body, once the length is read.
  unfoldable pub read_rest : ℕ → ℕ → R → Result (FrameError E) (List ℕ) × R
  unfolding io_err
  read_rest cap len r =
      let got = rd.read_exact len r in
      if ltb cap len then (err (too_large len), r) else (io_err got.0, got.1)

  unfoldable pub read_frame_body_with_cap : ℕ → R → Result (FrameError E) (List ℕ) × R
  unfolding read_rest from_le_bytes length_error
  read_frame_body_with_cap cap r =
      let got = rd.read_exact 4 r in
      elim got.0 [
        | ok len_buf ↦ read_rest cap (from_le_bytes len_buf) got.1
        | err e ↦ (err (length_error e), got.1)
      ]

  unfoldable pub read_frame_body : R → Result (FrameError E) (List ℕ) × R
  unfolding read_frame_body_with_cap
  read_frame_body r = read_frame_body_with_cap max_frame_bytes r

module _ {E J Q P V : Type 0} (json : Json E J (Frame Q P V)) where
  -- The text of a member, or the placeholder.
  unfoldable pub member_text : J → String → String
  member_text v key = elim (json.get v key) [
    | some inner ↦ json.to_string inner
    | none ↦ "<missing>"
  ]

  -- The `id` of an envelope that stands under a key.
  unfoldable pub envelope_id : J → String → Option (ℕ × J)
  envelope_id raw key = elim (json.get raw key) [
    | none ↦ none
    | some v ↦ elim (json.get v "id") [
      | none ↦ none
      | some i ↦ elim (json.as_u64 i) [ none ↦ none | some id ↦ some (id, v) ]
    ]
  ]

  -- The envelopes in the order in which they are tried; the typed error is kept for the last.
  unfoldable pub recover : E → J → Result (FrameError E) (FrameRead Q P V)
  unfolding envelope_id member_text
  recover typed_err raw = elim (envelope_id raw "Request") [
    | some (id, req) ↦ ok (unknown_request id (member_text req "req"))
    | none ↦ elim (envelope_id raw "Response") [
      | some (id, resp) ↦ ok (unknown_response id (member_text resp "payload"))
      | none ↦ elim (json.get raw "Event") [
        | some ev ↦ ok (unknown_event (json.to_string ev))
        | none ↦ err (serialize typed_err)
      ]
    ]
  ]

  -- The parse of a body that is read.
  unfoldable pub read_lenient : List ℕ → Result (FrameError E) (FrameRead Q P V)
  unfolding recover json_err
  read_lenient body = elim (json.from_slice body) [
    | ok frame ↦ ok (parsed frame)
    | err e ↦ and_then (json_err (json.value body)) (recover e)
  ]

  -- What `write_frame` hands to the writer.
  unfoldable pub encode : Frame Q P V → Result (FrameError E) (List ℕ)
  unfolding json_err to_le_bytes
  encode frame = and_then (json_err (json.to_vec frame)) (λ body.
      if ltb max_frame_bytes (length body)
      then err (too_large (length body))
      else ok (to_le_bytes (length body) ++ body))

  module _ {R : Type 0} (rd : Reader R) where
    unfoldable pub read_frame : R → Result (FrameError E) (Frame Q P V) × R
    unfolding read_frame_body json_err
    read_frame r =
        let got = read_frame_body rd r in
        (and_then got.0 (λ body. json_err (json.from_slice body)), got.1)

    unfoldable pub read_frame_lenient_with_cap : ℕ → R → Result (FrameError E) (FrameRead Q P V) × R
    unfolding read_frame_body_with_cap read_lenient
    read_frame_lenient_with_cap cap r =
        let got = read_frame_body_with_cap rd cap r in (and_then got.0 read_lenient, got.1)

    unfoldable pub read_frame_lenient : R → Result (FrameError E) (FrameRead Q P V) × R
    unfolding read_frame_lenient_with_cap
    read_frame_lenient r = read_frame_lenient_with_cap max_frame_bytes r

  module _ {W : Type 0} (wr : Writer W) where
    -- The one write of a frame and the flush after it.
    unfoldable pub send : List ℕ → W → Result (FrameError E) (Unit {0}) × W
    unfolding io_err
    send buf w =
        let sent = wr.write_all buf w in
        let flushed = wr.flush sent.1 in
        elim sent.0 [ ok u ↦ (io_err flushed.0, flushed.1) | err e ↦ (err (io e), sent.1) ]

    unfoldable pub write_frame : Frame Q P V → W → Result (FrameError E) (Unit {0}) × W
    unfolding encode send
    write_frame frame w = elim (encode frame) [ ok buf ↦ send buf w | err e ↦ (err e, w) ]
