-- ===== src/Daemon/Scrobble/Counting.antt =====
-- How often a play is submitted.
use ferrosonic.Prelude.{
  ℕ, suc, ◌+◌, ◌≡◌, true, ◌&&◌, String, none, some, List, [], ◌∷◌, ◌++◌, arith, if◌then◌else◌,
}
use ferrosonic.Float.{Float}
use ferrosonic.Daemon.Scrobble.{
  ScrobbleState, ScrobbleInputs, ScrobbleHttp, now_playing, submission, report, finalize, announce,
  transition, submit, switches, continue, scrobble_tick,
}

unfoldable pub submissions : List ScrobbleHttp → ℕ
submissions [] = 0
submissions (submission id ∷ hs) = suc (submissions hs)
submissions (now_playing id ∷ hs) = submissions hs
submissions (report id p s ∷ hs) = submissions hs

submissions-append :
    (xs ys : List ScrobbleHttp) → submissions (xs ++ ys) ≡ submissions xs + submissions ys
unfolding submissions
submissions-append [] ys = omega arith
submissions-append (submission id ∷ xs) ys = omega (arith, submissions-append xs ys)
submissions-append (now_playing id ∷ xs) ys = submissions-append xs ys
submissions-append (report id p s ∷ xs) ys = submissions-append xs ys

module _ {F : Type 0} ⦃f : Float F⦄ where
  -- A tracked play that was not submitted yet can still be.
  unfoldable pub open_plays : ScrobbleState F → ℕ
  open_plays t = elim t.song_id [ none ↦ 0 | some id ↦ if t.submitted then 0 else 1 ]

  -- Whether the tick begins to track another play.
  unfoldable pub begun : ScrobbleInputs F → ScrobbleState F → ℕ
  begun i t = if i.enabled && switches i t then 1 else 0

  unfoldable pub run :
      List (ScrobbleInputs F) → ScrobbleState F → List ScrobbleHttp × ScrobbleState F
  run [] t = ([], t)
  run (i ∷ is) t =
      let (first, t1) = scrobble_tick i t in let (rest, t2) = run is t1 in (first ++ rest, t2)

  unfoldable pub plays_begun : List (ScrobbleInputs F) → ScrobbleState F → ℕ
  plays_begun [] t = 0
  plays_begun (i ∷ is) t = begun i t + plays_begun is (scrobble_tick i t).1

  announce-none : (i : ScrobbleInputs F) → submissions (announce i) ≡ 0
  unfolding announce submissions
  announce-none i = ground arith

  transition-keeps :
      (nid : String) (i : ScrobbleInputs F) (t : ScrobbleState F)
      → (submissions (transition nid i t).0 ≡ 0)
        × (open_plays (transition nid i t).1 ≡ open_plays t)
        × ((transition nid i t).1.song_id ≡ t.song_id)
  unfolding transition submissions open_plays
  transition-keeps nid i t = ground arith

  -- A tick on the modern path submits nothing, whatever was tracked before.
  pub scrobble_tick-modern :
      (i : ScrobbleInputs F) (t : ScrobbleState F)
      → i.modern ≡ true
      → submissions (scrobble_tick i t).0 ≡ 0
  unfolding scrobble_tick finalize continue submit submissions
  scrobble_tick-modern i t m = grind (arith, submissions-append, announce-none i, transition-keeps)
