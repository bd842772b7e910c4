-- ===== src/Daemon/TrackCache.antt =====
-- daemon/track_cache.rs: the index of downloaded tracks. What goes to the file system is returned
-- beside the new cache; opening the cache, which reads the index file, is left out.
pub mod Eviction
pub mod Remainder
pub mod Downloads
use Prim.Native.Char.{Char, code}
use Prim.Native.String.{◌++◌ as str_append}
use ferrosonic.Prelude.{
  ℕ, zero, suc, ◌+◌, ◌-◌, ◌/◌, ◌%◌, ◌^◌, Bool, true, false, ◌&&◌, ◌||◌, String, Option, none, some,
  List, [], ◌∷◌, get_elem?, leb, ◌==◌, if◌then◌else◌,
}
use ferrosonic.Prelude.Assoc.{lookup, contains_key, contains, without, insert, remove}

pub record CacheEntry : Type 0 where
  pub file : String
  pub size : ℕ
  pub last_used : ℕ

pub record TrackCache : Type 0 where
  pub dir : String
  pub entries : List (String × CacheEntry)
  pub in_flight : List String
  pub total_bytes : ℕ

-- `saturating_add` and `saturating_sub` on `u64`.
abbrev pub u64_max : ℕ
u64_max = 2 ^ 64 - 1

abbrev pub saturating_add : ℕ → ℕ → ℕ
saturating_add a b = if leb (a + b) u64_max then a + b else u64_max

-- `dir.join(file)`, for a file name that is not absolute.
abbrev pub join : String → String → String
join dir file = str_append dir (str_append "/" file)

-- The answer, the new cache: an indexed track whose file is there is touched.
unfoldable pub path_for : (String → Bool) → ℕ → String → TrackCache → Option String × TrackCache
path_for is_file now song_id c = elim (lookup song_id c.entries) [
  | none ↦ (none, c)
  | some entry ↦
      let path = join c.dir entry.file in
      if is_file path
      then (
        some path,
        record c { entries = insert song_id (record entry { last_used = now }) c.entries },
      )
      else (none, c)
]

unfoldable pub is_cached : String → TrackCache → Bool
is_cached song_id c = contains_key song_id c.entries

-- A Unicode scalar value that may stand in a file name: an ASCII letter or digit, `-` or `_`.
unfoldable pub is_safe : ℕ → Bool
is_safe c =
    (leb b'a' c && leb c b'z')
    || ((leb b'A' c && leb c b'Z') || ((leb b'0' c && leb c b'9') || ((c == b'-') || (c == b'_'))))

-- At most `n` characters, each unsafe one replaced.
unfoldable pub safe_prefix : ℕ → String → String
unfolding is_safe
safe_prefix zero text = ""
safe_prefix (suc n) String.[] = ""
safe_prefix (suc n) (String.◌∷◌ c text) =
    let rest = safe_prefix n text in
    if is_safe (code c) then String.◌∷◌ c rest else String.◌∷◌ "_" rest

hex_digit : ℕ → String
hex_digit d = elim (get_elem? digits d) [ none ↦ "" | some x ↦ x ]
  where
    digits : List String
    digits =
        "0" ∷ "1" ∷ "2" ∷ "3" ∷ "4" ∷ "5" ∷ "6" ∷ "7" ∷ "8" ∷ "9" ∷ "a" ∷ "b" ∷ "c" ∷ "d" ∷ "e"
        ∷ "f" ∷ []

-- The last `n` hexadecimal digits, with leading zeros.
unfoldable pub hex : ℕ → ℕ → String
unfolding hex_digit
hex zero v = ""
hex (suc n) v = str_append (hex n (v / 16)) (hex_digit (v % 16))

-- `hash` is the standard library's `DefaultHasher`, on 64 bits.
unfoldable pub file_name_for : (String → ℕ) → String → String
unfolding safe_prefix hex
file_name_for hash song_id =
    str_append (safe_prefix 64 song_id)
      (str_append "-" (str_append (hex 16 (hash song_id)) ".audio"))

-- The paths of the part file and of the file, and the file's name, for a download that may begin.
unfoldable pub begin :
    (String → ℕ) → String → TrackCache → Option (String × String × String) × TrackCache
begin hash song_id c =
    let file = file_name_for hash song_id in
    if contains_key song_id c.entries || contains c.in_flight song_id then (none, c) else (
      some (join c.dir (str_append file ".part"), join c.dir file, file),
      record c { in_flight = song_id ∷ c.in_flight },
    )

-- A finished download enters the index, which is then written.
unfoldable pub commit : ℕ → String → String → ℕ → TrackCache → TrackCache
commit now song_id file size c = record c {
  in_flight = without c.in_flight song_id;
  total_bytes = saturating_add c.total_bytes size;
  entries = insert song_id (record { file = file; size = size; last_used = now }) c.entries;
}

unfoldable pub abandon : String → TrackCache → TrackCache
abandon song_id c = record c { in_flight = without c.in_flight song_id }

-- `sort_by_key` on the time of the last use: stable, the oldest first.
unfoldable pub by_age_insert :
    String × CacheEntry → List (String × CacheEntry) → List (String × CacheEntry)
by_age_insert e [] = e ∷ []
by_age_insert e (x ∷ xs) =
    let rest = by_age_insert e xs in
    if leb e.1.last_used x.1.last_used then e ∷ x ∷ xs else x ∷ rest

unfoldable pub by_age : List (String × CacheEntry) → List (String × CacheEntry)
by_age [] = []
by_age (e ∷ es) = by_age_insert e (by_age es)

-- The loop of `evict_to`: the files that go, and the new cache.
unfoldable pub evict_oldest : ℕ → List (String × CacheEntry) → TrackCache → List String × TrackCache
evict_oldest max_bytes [] c = ([], c)
evict_oldest max_bytes ((id, entry) ∷ rest) c =
    let (files, c') =
      evict_oldest max_bytes rest
        (record c { entries = remove id c.entries; total_bytes = c.total_bytes - entry.size }) in
    if leb c.total_bytes max_bytes then ([], c) else (join c.dir entry.file ∷ files, c')

unfoldable pub evict_to : ℕ → TrackCache → List String × TrackCache
evict_to max_bytes c =
    let evicted = evict_oldest max_bytes (by_age c.entries) c in
    if leb c.total_bytes max_bytes then ([], c) else evicted
