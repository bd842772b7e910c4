-- ===== src/Daemon/Library.antt =====
-- daemon/library.rs: the LRU cache. `order` goes from the least to the most recently used key.
pub mod Laws
pub mod Recency
use Prim.Native.Nat.{ℕ, zero, suc}
use ferrosonic.Prelude.{
  Bool, true, false, String, str_eq, Option, none, some, List, [], ◌∷◌, ◌++◌, length, leb,
  if◌then◌else◌,
}
use ferrosonic.Prelude.Assoc
use ferrosonic.Prelude.Assoc.{lookup, contains_key}

pub record LruCache {ℓ} (V : Type ℓ) : Type ℓ where
  pub map : List (String × V)
  pub order : List String

-- `order.iter().position(|k| k == key)` and `order.remove(pos)`: the first occurrence goes.
unfoldable pub remove_first : String → List String → List String
remove_first key [] = []
remove_first key (k ∷ ks) = if str_eq k key then ks else k ∷ remove_first key ks

-- The removed key, if there was one, goes to the back.
unfoldable pub touch : String → List String → List String
unfolding remove_first
touch key order = if Assoc.contains order key then remove_first key order ++ key ∷ [] else order

module _ {ℓ} {V : Type ℓ} where
  abbrev pub empty : LruCache V
  empty = record { map = []; order = [] }

  unfoldable pub clear : LruCache V → LruCache V
  clear c = empty

  unfoldable pub get : String → LruCache V → Option V × LruCache V
  unfolding touch
  get key c =
      if contains_key key c.map
      then (lookup key c.map, record c { order = touch key c.order })
      else (none, c)

  -- The loop of `insert`: while the map is full, the oldest key goes; it ends with `order` at last.
  unfoldable pub evict : ℕ → List (String × V) → List String → LruCache V
  evict cap map [] = record { map = map; order = [] }
  evict cap map (oldest ∷ order) =
      let rest = evict cap (Assoc.remove oldest map) order in
      if leb cap (length map) then rest else record { map = map; order = oldest ∷ order }

  unfoldable pub insert : String → V → ℕ → LruCache V → LruCache V
  unfolding touch evict
  insert key val cap c =
      let room = evict cap c.map c.order in
      if contains_key key c.map
      then record { map = Assoc.insert key val c.map; order = touch key c.order }
      else record { map = Assoc.insert key val room.map; order = room.order ++ key ∷ [] }
