-- ===== src/Ipc/Frame/Bytes.antt =====
-- The length prefix of a frame.
use ferrosonic.Prelude.{ℕ, ◌<◌, ◌≡◌, refl, arith, length}
use ferrosonic.Ipc.Frame.{to_le_bytes, from_le_bytes}

pub length-to_le_bytes : (n : ℕ) → length (to_le_bytes n) ≡ 4
unfolding to_le_bytes
length-to_le_bytes n = refl

pub from_le_bytes-to_le_bytes : (n : ℕ) → n < 4294967296 → from_le_bytes (to_le_bytes n) ≡ n
unfolding to_le_bytes from_le_bytes
from_le_bytes-to_le_bytes n h = omega arith
