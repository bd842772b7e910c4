-- ===== src/Config/MacosAudio.antt =====
-- config/mod.rs: `MacosAudioMode`.
use ferrosonic.Prelude.{Bool, true, false, Option, none, some, String}

pub data MacosAudioMode : Type 0 where
  off physical_format exclusive : MacosAudioMode

unfoldable pub is_off : MacosAudioMode → Bool
is_off off = true
is_off physical_format = false
is_off exclusive = false

unfoldable pub mpv_arg : MacosAudioMode → Option String
mpv_arg off = none
mpv_arg physical_format = some "--coreaudio-change-physical-format=yes"
mpv_arg exclusive = some "--audio-exclusive=yes"
