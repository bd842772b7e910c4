-- ===== src/Subsonic.antt =====
-- subsonic/models.rs: the song record that queue and library hold.
use ferrosonic.Prelude.{ℕ, Bool, String, Option}
use ferrosonic.Prelude.Int.{ℤ}

-- `struct Child`; the integers are `i32`, `i64` and `u8` in the source.
pub record Child : Type 0 where
  pub id : String
  pub parent : Option String
  pub is_dir : Bool
  pub title : String
  pub album : Option String
  pub artist : Option String
  pub artist_id : Option String
  pub album_id : Option String
  pub track : Option ℤ
  pub year : Option ℤ
  pub genre : Option String
  pub cover_art : Option String
  pub size : Option ℤ
  pub content_type : Option String
  pub suffix : Option String
  pub duration : Option ℤ
  pub bit_rate : Option ℤ
  pub path : Option String
  pub disc_number : Option ℤ
  pub starred : Option String
  pub user_rating : Option ℕ
