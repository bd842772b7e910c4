-- ===== src/Daemon/Scrobble.antt =====
-- daemon/scrobble.rs: the reports of what is played. `spawn_scrobble`, which sends them, is left out.
pub mod Counting
use ferrosonic.Prelude.{
  ℕ, Bool, true, false, not, ◌&&◌, ◌||◌, String, str_eq, Option, none, some, List, [], ◌∷◌, ◌++◌,
  ◌==◌, if◌then◌else◌,
}
use ferrosonic.Float.{Float, milli, lt_f, le_f}
use ferrosonic.Daemon.State.{PlaybackState, stopped, playing, paused}

pub record ScrobbleState (F : Type 0) : Type 0 where
  pub song_id : Option String
  pub instance_id : ℕ
  pub duration : F
  pub last_position : F
  pub last_state : PlaybackState
  pub submitted : Bool
  pub now_playing_sent : Bool

pub data ScrobbleHttp : Type 0 where
  now_playing submission : (id : String) → ScrobbleHttp
  report : (id : String) (position_ms : ℕ) (state : String) → ScrobbleHttp

-- What a tick reads before it takes the scrobble lock.
pub record ScrobbleInputs (F : Type 0) : Type 0 where
  pub enabled : Bool
  pub id : Option String
  pub state : PlaybackState
  pub position : F
  pub duration : F
  pub modern : Bool
  pub instance_id : ℕ

unfoldable pub same_id : Option String → Option String → Bool
same_id none none = true
same_id (some a) (some b) = str_eq a b
same_id none (some b) = false
same_id (some a) none = false

unfoldable pub same_state : PlaybackState → PlaybackState → Bool
same_state stopped stopped = true
same_state playing playing = true
same_state paused paused = true
same_state _ _ = false

unfoldable pub plays : PlaybackState → Bool
plays playing = true
plays stopped = false
plays paused = false

has_id : Option String → Bool
has_id none = false
has_id (some id) = true

state_label : PlaybackState → String
state_label playing = "playing"
state_label paused = "paused"
state_label stopped = "stopped"

module _ {F : Type 0} ⦃f : Float F⦄ where
  unfoldable pub classic_reached : F → F → Bool
  classic_reached position duration =
      if lt_f (milli 0) duration && le_f duration (milli 30000)
      then false
      else le_f
          (if lt_f (milli 0) duration
            then f.min (f.mul duration (milli 500)) (milli 240000)
            else milli 240000)
          position

  unfoldable pub position_ms : F → ℕ
  position_ms position = f.to_u64 (f.mul (f.max position (milli 0)) (milli 1000000))

  -- `ScrobbleState::default()`
  abbrev pub cleared : ScrobbleState F
  cleared = record {
    song_id = none;
    instance_id = 0;
    duration = milli 0;
    last_position = milli 0;
    last_state = stopped;
    submitted = false;
    now_playing_sent = false;
  }

  -- The track that was on before is finalized.
  unfoldable pub finalize : Bool → ScrobbleState F → List ScrobbleHttp
  finalize modern t = elim t.song_id [
    | none ↦ []
    | some prev ↦
        if modern
        then report prev (position_ms t.last_position) "stopped" ∷ []
        else if not t.submitted && classic_reached t.last_position t.duration
        then submission prev ∷ []
        else []
  ]

  -- The first reports of a new track.
  unfoldable pub announce : ScrobbleInputs F → List ScrobbleHttp
  announce i = elim i.id [
    | none ↦ []
    | some nid ↦
        if i.modern
        then report nid (position_ms i.position) "starting"
          ∷ (if plays i.state then report nid (position_ms i.position) "playing" ∷ [] else [])
        else if plays i.state
        then now_playing nid ∷ []
        else []
  ]

  unfoldable pub begin : ScrobbleInputs F → ScrobbleState F
  unfolding has_id
  begin i = record {
    song_id = i.id;
    instance_id = i.instance_id;
    duration = i.duration;
    last_position = i.position;
    last_state = i.state;
    submitted = classic_reached i.position i.duration;
    now_playing_sent = has_id i.id && plays i.state;
  }

  -- A change of the status within the track.
  unfoldable pub transition :
      String → ScrobbleInputs F → ScrobbleState F → List ScrobbleHttp × ScrobbleState F
  unfolding state_label
  transition nid i t =
      if same_state i.state t.last_state
      then ([], t)
      else if i.modern
      then (
        report nid (position_ms i.position) (state_label i.state) ∷ [],
        record t { last_state = i.state },
      )
      else if plays i.state && not t.now_playing_sent
      then (now_playing nid ∷ [], record t { last_state = i.state; now_playing_sent = true })
      else ([], record t { last_state = i.state })

  -- The submission of a play that counts.
  unfoldable pub submit :
      String → ScrobbleInputs F → ScrobbleState F → List ScrobbleHttp × ScrobbleState F
  submit nid i t =
      if not i.modern
        && (plays i.state && (not t.submitted && classic_reached i.position i.duration))
      then (submission nid ∷ [], record t { submitted = true })
      else ([], t)

  unfoldable pub follow : ScrobbleInputs F → ScrobbleState F → ScrobbleState F
  follow i t = record t {
    last_position = i.position;
    duration = if lt_f (milli 0) i.duration then i.duration else t.duration;
  }

  -- Another track, or the same in another play instance.
  unfoldable pub switches : ScrobbleInputs F → ScrobbleState F → Bool
  switches i t = not (same_id t.song_id i.id) || not (t.instance_id == i.instance_id)

  unfoldable pub continue : ScrobbleInputs F → ScrobbleState F → List ScrobbleHttp × ScrobbleState F
  unfolding transition submit follow
  continue i t = elim i.id [
    | none ↦ ([], t)
    | some nid ↦
        let (first, t1) = transition nid i t in
        let (second, t2) = submit nid i t1 in (first ++ second, follow i t2)
  ]

  -- `scrobble_tick` under the scrobble lock: the reports in order, and the new state.
  unfoldable pub scrobble_tick :
      ScrobbleInputs F → ScrobbleState F → List ScrobbleHttp × ScrobbleState F
  unfolding finalize announce begin continue switches
  scrobble_tick i t =
      if not i.enabled
      then ([], cleared)
      else if switches i t
      then (finalize i.modern t ++ announce i, begin i)
      else continue i t
