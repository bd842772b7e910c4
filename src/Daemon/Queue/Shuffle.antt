-- ===== src/Daemon/Queue/Shuffle.antt =====
-- What `shuffle_queue` does to the queue; `slice::shuffle` is taken to permute.
use mathlib.Core.List.{Perm, Permᴰ}
use mathlib.Core.List.Perm
use mathlib.Core.Logic.{∥∥₁_elim}
use ferrosonic.Prelude.{
  ℕ, ◌<◌, ◌≡◌, refl, ◌∙◌, Option, none, some, List, arith, length, get_elem?, get_elem?_lt,
  get_elem?-some, erase_idx, length-erase_idx, length-insert_idx, get_elem?-insert_idx_self,
}
use ferrosonic.Float.{Float}
use ferrosonic.Subsonic.{Child}
use ferrosonic.Daemon.World.{World}
use ferrosonic.Daemon.Core.{Core, emit_queue}
use ferrosonic.Daemon.Core.Keeps.{resync-state}
use ferrosonic.Daemon.Queue.Moves.{perm-erase_idx, perm-insert_idx}
use ferrosonic.Daemon.Queue.Requests.{shuffle_around, shuffled_queue, shuffle_queue}

pub length-Perm : {A : Type 0} {xs ys : List A} → Perm xs ys → length xs ≡ length ys
length-Perm p = ∥∥₁_elim p (hlevel) go
  where
    go : {A : Type 0} {xs ys : List A} → Permᴰ xs ys → length xs ≡ length ys
    go Permᴰ.nil = refl
    go (Permᴰ.cons e d) = omega (arith, go d)
    go (Permᴰ.swap e e') = refl
    go (Permᴰ.trans d d') = go d ∙ go d'

module _ {F W : Type 0} ⦃f : Float F⦄ (ext : World F W)
    (permutes : (xs : List Child) (w : W) → Perm (ext.shuffle xs w).0 xs) where
  length-shuffled_around :
      (q : List Child) (o : Option Child) (cur : ℕ) (w : W)
      → get_elem? q cur ≡ o
      → length (shuffle_around ext q o cur w).0 ≡ length q
  unfolding shuffle_around
  length-shuffled_around q none cur w e = length-Perm (permutes q w)
  length-shuffled_around q (some song) cur w e = omega (
    arith,
    length-insert_idx (ext.shuffle (erase_idx q cur) w).0 cur song,
    length-Perm (permutes (erase_idx q cur) w),
    length-erase_idx q cur (get_elem?_lt q cur e),
  )

  pub length-shuffled :
      (q : List Child) (p : Option ℕ) (w : W) → length (shuffled_queue ext q p w).0 ≡ length q
  unfolding shuffled_queue
  length-shuffled q none w = length-Perm (permutes q w)
  length-shuffled q (some cur) w = length-shuffled_around q (get_elem? q cur) cur w refl

  perm-shuffled_around :
      (q : List Child) (o : Option Child) (cur : ℕ) (w : W)
      → get_elem? q cur ≡ o
      → Perm (shuffle_around ext q o cur w).0 q
  unfolding shuffle_around
  perm-shuffled_around q none cur w e = permutes q w
  perm-shuffled_around q (some song) cur w e =
      Perm.trans (perm-insert_idx (ext.shuffle (erase_idx q cur) w).0 cur song)
        (Perm.trans (Perm.cons song (permutes (erase_idx q cur) w)) (perm-erase_idx q cur e))

  perm-shuffled : (q : List Child) (p : Option ℕ) (w : W) → Perm (shuffled_queue ext q p w).0 q
  unfolding shuffled_queue
  perm-shuffled q none w = permutes q w
  perm-shuffled q (some cur) w = perm-shuffled_around q (get_elem? q cur) cur w refl

  current_shuffled :
      (q : List Child) (o : Option Child) (cur : ℕ) (w : W)
      → get_elem? q cur ≡ o
      → cur < length q
      → get_elem? (shuffle_around ext q o cur w).0 cur ≡ o
  unfolding shuffle_around
  current_shuffled q none cur w e h = absurd (ground (arith, get_elem?-some q cur h))
  current_shuffled q (some song) cur w e h =
      get_elem?-insert_idx_self (ext.shuffle (erase_idx q cur) w).0 cur song
        (omega (arith, length-Perm (permutes (erase_idx q cur) w), length-erase_idx q cur h))

  shuffle_queue-state :
      (c : Core F W)
      → 0 < length c.state.queue
      → (shuffle_queue ext c).state ≡ record c.state {
        queue = (shuffled_queue ext c.state.queue c.state.queue_position c.world).0;
      }
  unfolding shuffle_queue emit_queue
  shuffle_queue-state c h = grind (arith, resync-state)

  -- A shuffle permutes the queue, and an entry that plays keeps its place.
  pub shuffle_queue-keeps_current :
      (c : Core F W) (cur : ℕ)
      → c.state.queue_position ≡ some cur
      → cur < length c.state.queue
      → Perm (shuffle_queue ext c).state.queue c.state.queue
        × ((shuffle_queue ext c).state.queue_position ≡ some cur)
        × (get_elem? (shuffle_queue ext c).state.queue cur ≡ get_elem? c.state.queue cur)
  unfolding shuffled_queue
  shuffle_queue-keeps_current c cur e h =
      let s = shuffle_queue-state c (omega (arith, h)) in
      (
        rw s (perm-shuffled c.state.queue c.state.queue_position c.world),
        rw s e,
        ground (
          arith,
          s,
          current_shuffled c.state.queue (get_elem? c.state.queue cur) cur c.world refl h,
        ),
      )
