-- ===== src/Daemon/Queue/Moves.antt =====
-- What `move_queue_item` does to the queue and to the playing entry.
use mathlib.Core.List.{Perm}
use mathlib.Core.List.Perm
use ferrosonic.Prelude.{
  ℕ, zero, suc, ◌+◌, ◌-◌, ◌≤◌, ◌<◌, ◌≡◌, refl, ◌∙◌, ap, Option, none, some, List, [], ◌∷◌, arith,
  inl, inr, false, length, get_elem?, erase_idx, insert_idx, ltb, ◌==◌, if◌then◌else◌,
  get_elem?-some, length-erase_idx, length-insert_idx, get_elem?_lt, get_elem?-erase_idx_lt,
  get_elem?-erase_idx_le, get_elem?-insert_idx_lt, get_elem?-insert_idx_self,
  get_elem?-insert_idx_le, Option-cases,
}
use ferrosonic.Subsonic.{Child}
use ferrosonic.Daemon.State.{DaemonState, entry_at, current_song}
use ferrosonic.Daemon.Queue.{
  moved_position, next_maybe_changed, move_entry, map_position, move_state,
}

module _ {ℓ} {A : Type ℓ} where
  pub perm-erase_idx :
      (xs : List A) (i : ℕ) {x : A} → get_elem? xs i ≡ some x → Perm (x ∷ erase_idx xs i) xs
  perm-erase_idx [] i h = cc
  perm-erase_idx (y ∷ xs) zero h = Perm.cons' (ground arith) Perm.rfl
  perm-erase_idx (y ∷ xs) (suc i) {x} h =
      Perm.trans (Perm.swap y x _) (Perm.cons y (perm-erase_idx xs i h))

  pub perm-insert_idx : (xs : List A) (i : ℕ) (v : A) → Perm (insert_idx xs i v) (v ∷ xs)
  perm-insert_idx xs zero v = Perm.rfl
  perm-insert_idx [] (suc i) v = Perm.rfl
  perm-insert_idx (x ∷ xs) (suc i) v =
      Perm.trans (Perm.cons x (perm-insert_idx xs i v)) (Perm.swap v x _)

-- The entry that stands at `j` after a move stood at this index before.
abbrev origin : ℕ → ℕ → ℕ → ℕ
origin from to j =
    if j == to
    then from
    else let k = if ltb j to then j else j - 1 in if ltb k from then k else k + 1

erase_at :
    {A : Type 0} (q : List A) (i k : ℕ)
    → get_elem? (erase_idx q i) k ≡ get_elem? q (if ltb k i then k else k + 1)
erase_at q i k = ground (arith, get_elem?-erase_idx_lt q i k, get_elem?-erase_idx_le q i k)

insert_at :
    {A : Type 0} (q : List A) (i j : ℕ) (v : A)
    → i ≤ length q
    → get_elem? (insert_idx q i v) j
      ≡ (if j == i then some v else get_elem? q (if ltb j i then j else j - 1))
insert_at q i zero v h =
    ground (arith, get_elem?-insert_idx_lt q i zero v, get_elem?-insert_idx_self q i v)
insert_at q i (suc j) v h = ground (
  arith,
  get_elem?-insert_idx_lt q i (suc j) v,
  get_elem?-insert_idx_self q i v,
  get_elem?-insert_idx_le q i j v,
)

pub length-move_entry : (q : List Child) (from to : ℕ) → length (move_entry q from to) ≡ length q
unfolding move_entry
length-move_entry q from to = elim (Option-cases (get_elem? q from)) [
  | inl e ↦ rw (e, move_entry) refl
  | inr (song, e) ↦
      rw (e, move_entry)
        (omega (
          arith,
          length-insert_idx (erase_idx q from) to song,
          length-erase_idx q from (get_elem?_lt q from e),
        ))
]

pub move_entry_at :
    (q : List Child) (from to j : ℕ)
    → from < length q
    → to < length q
    → get_elem? (move_entry q from to) j ≡ get_elem? q (origin from to j)
unfolding move_entry
move_entry_at q from to j hf ht =
    let (song, e) = get_elem?-some q from hf in
    ground (
      arith,
      e,
      insert_at (erase_idx q from) to j song,
      length-erase_idx q from hf,
      erase_at q from j,
      erase_at q from (j - 1),
    )

origin-moved : (from to cur : ℕ) → origin from to (moved_position from to cur) ≡ cur
unfolding moved_position
origin-moved from to cur = ground arith

origin-next :
    (from to cur : ℕ)
    → next_maybe_changed from to (some cur) ≡ false
    → origin from to (moved_position from to cur + 1) ≡ cur + 1
unfolding moved_position next_maybe_changed
origin-next from to cur h = ground arith

module _ {F : Type 0} (s : DaemonState F) (from to : ℕ) where
  module _ (hf : from < length s.queue) (ht : to < length s.queue) where
    pub entry_moved :
        (cur : ℕ)
        → get_elem? (move_entry s.queue from to) (moved_position from to cur)
          ≡ get_elem? s.queue cur
    entry_moved cur =
        move_entry_at s.queue from to (moved_position from to cur) hf ht
        ∙ ap (get_elem? s.queue) (origin-moved from to cur)

    pub entry_next :
        (cur : ℕ)
        → next_maybe_changed from to (some cur) ≡ false
        → get_elem? (move_entry s.queue from to) (moved_position from to cur + 1)
          ≡ get_elem? s.queue (cur + 1)
    entry_next cur h =
        move_entry_at s.queue from to (moved_position from to cur + 1) hf ht
        ∙ ap (get_elem? s.queue) (origin-next from to cur h)

    current_moved :
        (p : Option ℕ)
        → entry_at (move_entry s.queue from to) (map_position (moved_position from to) p)
          ≡ entry_at s.queue p
    current_moved none = refl
    current_moved (some cur) = entry_moved cur

  moved_perm : Perm (move_entry s.queue from to) s.queue
  unfolding move_entry
  moved_perm = elim (Option-cases (get_elem? s.queue from)) [
    | inl e ↦ rw (e, move_entry) Perm.rfl
    | inr (song, e) ↦
        rw (e, move_entry)
          (Perm.trans (perm-insert_idx (erase_idx s.queue from) to song)
            (perm-erase_idx s.queue from e))
  ]

-- Moving an entry inside the queue loses and adds none, and the position pointer stays on the song
-- that is playing.
pub move_state-keeps_current :
    {F : Type 0} (s : DaemonState F) (from to : ℕ)
    → from < length s.queue
    → to < length s.queue
    → Perm (move_state from to s).queue s.queue
      × (current_song (move_state from to s) ≡ current_song s)
unfolding move_state current_song
move_state-keeps_current s from to hf ht =
    (moved_perm s from to, current_moved s from to hf ht s.queue_position)

-- Where a move does not ask for the preload to be renewed, the entry right after the playing one is
-- the one that was there before.
pub move_state-keeps_next :
    {F : Type 0} (s : DaemonState F) (from to cur : ℕ)
    → from < length s.queue
    → to < length s.queue
    → s.queue_position ≡ some cur
    → next_maybe_changed from to (some cur) ≡ false
    → (cur' : ℕ) × ((move_state from to s).queue_position ≡ some cur')
      × (get_elem? (move_state from to s).queue (cur' + 1) ≡ get_elem? s.queue (cur + 1))
unfolding move_state
move_state-keeps_next s from to cur hf ht e h =
    (moved_position from to cur, rw e, entry_next s from to hf ht cur h)
