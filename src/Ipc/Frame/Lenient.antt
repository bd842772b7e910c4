-- ===== src/Ipc/Frame/Lenient.antt =====
-- The tolerant reader beside the strict one.
use ferrosonic.Prelude.{◌≡◌, ◌↔◌, inl, inr, arith, List, ℕ, Option-cases}
use ferrosonic.Prelude.Results.{ok, Result-cases}
use ferrosonic.Ipc.Frame.{
  Json, Reader, Frame, parsed, read_frame, read_frame_lenient, read_frame_lenient_with_cap,
  read_frame_body, read_frame_body_with_cap, read_lenient, recover, json_err, envelope_id,
  max_frame_bytes,
}

module _ {E J Q P V : Type 0} (json : Json E J (Frame Q P V)) where
  recover-not_parsed : (e : E) (raw : J) (f : Frame Q P V) → recover json e raw ≡ ok (parsed f) → ⊥
  unfolding recover
  recover-not_parsed e raw f h = elim (Option-cases (envelope_id json raw "Request")) [
    | inr (a, q) ↦ ground (arith, q)
    | inl n ↦ elim (Option-cases (envelope_id json raw "Response")) [
      | inr (a, q) ↦ ground (arith, n, q)
      | inl m ↦ elim (Option-cases (json.get raw "Event")) [
        | inr (a, q) ↦ ground (arith, n, m, q)
        | inl o ↦ ground (arith, n, m, o)
      ]
    ]
  ]

  read_lenient_iff :
      (body : List ℕ) (f : Frame Q P V)
      → read_lenient json body ≡ ok (parsed f) ↔ json.from_slice body ≡ ok f
  unfolding read_lenient json_err
  read_lenient_iff body f = elim (Result-cases (json.from_slice body)) [
    | inl (g, q) ↦ ground (arith, q)
    | inr (e, q) ↦ elim (Result-cases (json.value body)) [
      | inl (raw, v) ↦ ground (arith, q, v, recover-not_parsed e raw f)
      | inr (x, v) ↦ ground (arith, q, v)
    ]
  ]

  -- The tolerant reader takes as much off the stream as the strict one, whatever the frame holds, and
  -- gives a frame exactly where the strict reader gives it.
  pub read_frame_lenient_iff :
      {R : Type 0} (rd : Reader R) (r : R) (f : Frame Q P V)
      → ((read_frame_lenient json rd r).1 ≡ (read_frame json rd r).1)
        × ((read_frame_lenient json rd r).0 ≡ ok (parsed f) ↔ (read_frame json rd r).0 ≡ ok f)
  unfolding read_frame read_frame_lenient read_frame_lenient_with_cap json_err read_frame_body
  read_frame_lenient_iff rd r f =
      elim (Result-cases (read_frame_body_with_cap {E = E} rd max_frame_bytes r).0) [
        | inr (e, q) ↦ ground (arith, q)
        | inl (body, q) ↦ elim (Result-cases (json.from_slice body)) [
          | inl (g, s) ↦ ground (arith, q, s, read_lenient_iff body f)
          | inr (e, s) ↦ ground (arith, q, s, read_lenient_iff body f)
        ]
      ]
