-- ===== src/Tests/Policies.antt =====
-- The examples of the repeat modes', the filters' and the reports' properties.
use ferrosonic.Prelude.{ℕ, ◌≡◌, refl, true, false, some, List, [], ◌∷◌}
use ferrosonic.Float.{millis}
use ferrosonic.Config.Repeat.{one, all, next_manual, prev_wrap}
use ferrosonic.Daemon.State.{playing}
use ferrosonic.Daemon.Scrobble.{ScrobbleInputs}
use ferrosonic.Daemon.Scrobble.Counting
use ferrosonic.Daemon.Scrobble.Counting.{scrobble_tick-modern}

wraps : next_manual all 3 4 ≡ some 0
unfolding next_manual
wraps = refl

goes_back : prev_wrap one 4 ≡ some 3
unfolding prev_wrap
goes_back = refl

-- A tick that sees the song after the given milliseconds.
abbrev seen_at : ℕ → ScrobbleInputs ℕ
seen_at position = record {
  enabled = true;
  id = some "a";
  state = playing;
  position = position;
  duration = 180000;
  modern = false;
  instance_id = 1;
}

abbrev ticks : List (ScrobbleInputs ℕ)
ticks = seen_at 0 ∷ seen_at 89000 ∷ seen_at 91000 ∷ seen_at 120000 ∷ []
