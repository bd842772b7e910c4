-- ===== src/Daemon/Mpv.antt =====
-- audio/mpv.rs: the commands of `MpvController`. An error of the transport is `false` or `none`; the
-- log lines are left out.
use Prim.Native.String.{◌++◌ as str_append}
use text.Mathlib.Text.{find?}
use ferrosonic.Prelude.{
  ℕ, zero, suc, ◌-◌, ◌/◌, ◌%◌, ◌^◌, Bool, true, false, ◌||◌, String, Option, none, some, List, [],
  ◌∷◌, leb, ltb, ◌==◌, if◌then◌else◌,
}
use ferrosonic.Prelude.Int.{ℤ, pos, negsuc}
use ferrosonic.Float.{Float, milli}
use ferrosonic.Daemon.World.{World, Value, bool, int, float, str}

-- `u32_sat` of num.rs, on a `u64`.
abbrev pub u32_sat : ℕ → ℕ
u32_sat n = if leb n (2 ^ 32 - 1) then n else 2 ^ 32 - 1

-- `n.to_string()`, with fuel for the digits; `suc n` is enough for `n`.
digit : ℕ → String
digit n =
    if n == 0
    then "0"
    else if n == 1
    then "1"
    else if n == 2
    then "2"
    else if n == 3
    then "3"
    else if n == 4
    then "4"
    else if n == 5
    then "5"
    else if n == 6
    then "6"
    else if n == 7
    then "7"
    else if n == 8
    then "8"
    else "9"

decimal : ℕ → ℕ → String
decimal zero n = ""
decimal (suc fuel) n =
    let front = decimal fuel (n / 10) in
    if ltb n 10 then digit n else str_append front (digit (n % 10))

module _ {F : Type 0} where
  abbrev pub as_bool : Option (Value F) → Option Bool
  as_bool (some (bool b)) = some b
  as_bool _ = none

  abbrev pub as_i64 : Option (Value F) → Option ℤ
  as_i64 (some (int n)) = some n
  as_i64 _ = none

  abbrev pub as_u64 : Option (Value F) → Option ℕ
  as_u64 (some (int (pos n))) = some n
  as_u64 _ = none

  abbrev pub as_str : Option (Value F) → Option String
  as_str (some (str s)) = some s
  as_str _ = none

abbrev pub unwrap_or {ℓ} : {A : Type ℓ} → A → Option A → A
unwrap_or d none = d
unwrap_or d (some a) = a

abbrev pub map_option {ℓ κ} : {A : Type ℓ} {B : Type κ} → (A → B) → Option A → Option B
map_option f none = none
map_option f (some a) = some (f a)

-- `result.ok().flatten()`
abbrev pub flatten_option {ℓ} : {A : Type ℓ} → Option (Option A) → Option A
flatten_option (some o) = o
flatten_option none = none

-- `str::contains`.
abbrev str_contains : String → String → Bool
str_contains s t = elim (find? s t) [ none ↦ false | some _ ↦ true ]

-- The bit depth that an audio format string names.
pub depth_of : String → Option ℕ
depth_of f =
    if str_contains f "32" || str_contains f "float"
    then some 32
    else if str_contains f "24"
    then some 24
    else if str_contains f "16"
    then some 16
    else if str_contains f "8"
    then some 8
    else none

pub channel_label : ℕ → String
unfolding decimal digit
channel_label c =
    if c == 1 then "Mono" else if c == 2 then "Stereo" else str_append (decimal (suc c) c) "ch"

-- `self.mpv_version.is_none_or(|v| v >= (0, 38))`, the order of pairs being lexicographic.
pub supports_loadfile_index : Option (ℕ × ℕ) → Bool
supports_loadfile_index none = true
supports_loadfile_index (some (major, minor)) = ltb 0 major || leb 38 minor

module _ {F W : Type 0} ⦃f : Float F⦄ (ext : World F W) where
  open ext use {send_command}

  -- A command whose answer is dropped: whether it was sent and answered.
  unfoldable pub run : List (Value F) → W → Bool × W
  run args w = let (r, w') = send_command args w in (elim r [ none ↦ false | some _ ↦ true ], w')

  -- Two commands joined by `?`: the second is sent only after the first has succeeded.
  unfoldable pub run_both : List (Value F) → List (Value F) → W → Bool × W
  unfolding run
  run_both a b w = let (ok, w') = run a w in elim ok [ true ↦ run b w' | false ↦ (false, w') ]

  -- `get_property` with a conversion of its value.
  unfoldable pub query {ℓ} : {A : Type ℓ} → String → (Option (Value F) → A) → W → Option A × W
  query name read w =
      let (r, w') = send_command (str "get_property" ∷ str name ∷ []) w in (map_option read r, w')

  abbrev set_pause : Bool → List (Value F)
  set_pause b = str "set_property" ∷ str "pause" ∷ bool b ∷ []

  abbrev load_replace : String → List (Value F)
  load_replace path = str "loadfile" ∷ str path ∷ str "replace" ∷ []

  pub loadfile : String → W → Bool × W
  loadfile path = run_both (set_pause false) (load_replace path)

  unfoldable pub loadfile_paused : String → W → Bool × W
  loadfile_paused path = run_both (set_pause true) (load_replace path)

  pub loadfile_at_paused : String → F → W → Bool × W
  loadfile_at_paused path start_secs = run_both (set_pause true) (
      str "loadfile"
      ∷ str path
      ∷ str "replace"
      ∷ int (negsuc 0)
      ∷ str (str_append "start=" (ext.show_f start_secs))
      ∷ [])

  pub loadfile_append : String → W → Bool × W
  loadfile_append path = run (str "loadfile" ∷ str path ∷ str "append" ∷ [])

  pub playlist_remove : ℕ → W → Bool × W
  playlist_remove index = run (str "playlist-remove" ∷ int (pos index) ∷ [])

  pub resume : W → Bool × W
  resume = run (set_pause false)

  pub is_paused : W → Option Bool × W
  is_paused = query "pause" (λ v. unwrap_or false (as_bool v))

  pub stop : W → Bool × W
  stop = run (str "stop" ∷ [])

  pub seek : F → W → Bool × W
  seek position = run (str "seek" ∷ float position ∷ str "absolute" ∷ [])

  pub seek_relative : F → W → Bool × W
  seek_relative offset = run (str "seek" ∷ float offset ∷ str "relative" ∷ [])

  unfoldable pub get_playlist_pos : W → Option (Option ℤ) × W
  get_playlist_pos = query "playlist-pos" as_i64

  unfoldable pub get_playlist_count : W → Option ℕ × W
  get_playlist_count = query "playlist-count" (λ v. unwrap_or 0 (as_u64 v))

  read_f64 : Option (Value F) → F
  read_f64 none = milli 0
  read_f64 (some v) = unwrap_or (milli 0) (ext.as_f64 v)

  pub get_time_pos : W → Option F × W
  get_time_pos = query "time-pos" read_f64

  pub get_duration : W → Option F × W
  get_duration = query "duration" read_f64

  pub set_volume : ℕ → W → Bool × W
  set_volume volume = run (str "set_property" ∷ str "volume" ∷ int (pos volume) ∷ [])

  pub get_sample_rate : W → Option (Option ℕ) × W
  get_sample_rate = query "audio-params/samplerate" (λ v. map_option u32_sat (as_u64 v))

  bit_depth : Option (Value F) → Option ℕ
  bit_depth v = elim (as_str v) [ none ↦ none | some s ↦ depth_of s ]

  pub get_bit_depth : W → Option (Option ℕ) × W
  get_bit_depth = query "audio-params/format" bit_depth

  pub get_audio_format : W → Option (Option String) × W
  get_audio_format = query "audio-params/format" as_str

  pub get_channels : W → Option (Option String) × W
  get_channels =
      query "audio-params/channel-count"
        (λ v. map_option channel_label (map_option u32_sat (as_u64 v)))

  unfoldable pub is_idle : W → Option Bool × W
  is_idle = query "idle-active" (λ v. unwrap_or true (as_bool v))
