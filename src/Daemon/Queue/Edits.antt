-- ===== src/Daemon/Queue/Edits.antt =====
-- What removing, inserting and clearing the history do to the queue and to the playing entry.
use ferrosonic.Prelude.{
  ℕ, zero, suc, ◌+◌, ◌-◌, ◌≤◌, ◌<◌, ◌≡◌, refl, ◌∙◌, ap, ◌≢◌, some, List, [], ◌∷◌, ◌++◌, arith,
  length, get_elem?, take, drop, insert_idx, leb, ltb, if◌then◌else◌, get_elem?-erase_idx_lt,
  get_elem?-erase_idx_le, get_elem?-drop, length-drop,
}
use ferrosonic.Float.{Float}
use ferrosonic.Subsonic.{Child}
use ferrosonic.Daemon.State.{DaemonState}
use ferrosonic.Daemon.Queue.{
  remove_state, insert_all, insert_point, insert_state, clear_history_state,
}

-- Removing an entry other than the playing one keeps the pointer on the playing song.
pub remove_state-keeps_current :
    {F : Type 0} ⦃f : Float F⦄ (s : DaemonState F) (pos cur : ℕ)
    → s.queue_position ≡ some cur
    → pos ≢ cur
    → (cur' : ℕ) × ((remove_state pos s).queue_position ≡ some cur')
      × (get_elem? (remove_state pos s).queue cur' ≡ get_elem? s.queue cur)
unfolding remove_state
remove_state-keeps_current s pos cur e h = (
  if ltb pos cur then cur - 1 else cur,
  ground arith,
  ground
      (arith, get_elem?-erase_idx_lt s.queue pos cur, get_elem?-erase_idx_le s.queue pos (cur - 1)),
)

-- Removing neither the playing entry nor the one right behind it keeps the entry that follows the
-- playing one.
pub remove_state-keeps_next :
    {F : Type 0} ⦃f : Float F⦄ (s : DaemonState F) (pos cur : ℕ)
    → s.queue_position ≡ some cur
    → pos ≢ cur
    → pos ≢ cur + 1
    → (cur' : ℕ) × ((remove_state pos s).queue_position ≡ some cur')
      × (get_elem? (remove_state pos s).queue (cur' + 1) ≡ get_elem? s.queue (cur + 1))
unfolding remove_state
remove_state-keeps_next s pos cur e h n = (
  if ltb pos cur then cur - 1 else cur,
  ground arith,
  ground (
    arith,
    get_elem?-erase_idx_lt s.queue pos (cur + 1),
    get_elem?-erase_idx_le s.queue pos (cur - 1 + 1),
  ),
)

insert_all-cons :
    (x : Child) (q : List Child) (i : ℕ) (songs : List Child)
    → insert_all (x ∷ q) (suc i) songs ≡ x ∷ insert_all q i songs
unfolding insert_all
insert_all-cons x q i [] = refl
insert_all-cons x q i (s ∷ songs) =
    ap (λ k. insert_all (x ∷ insert_idx q i s) k songs) (omega arith)
    ∙ insert_all-cons x (insert_idx q i s) (i + 1) songs

-- From a point inside the queue or at its end, the loop of insertions splices the songs in, in
-- order, at that point.
pub insert_all-splice :
    (q : List Child) (i : ℕ) (songs : List Child)
    → i ≤ length q
    → insert_all q i songs ≡ take i q ++ songs ++ drop i q
unfolding insert_all
insert_all-splice q zero [] h = refl
insert_all-splice q zero (s ∷ songs) h =
    insert_all-cons s q 0 songs ∙ ap (λ l. s ∷ l) (insert_all-splice q 0 songs h)
insert_all-splice [] (suc i) songs h = absurd (omega arith)
insert_all-splice (x ∷ q) (suc i) songs h =
    insert_all-cons x q i songs ∙ ap (λ l. x ∷ l) (insert_all-splice q i songs (omega arith))

get_elem?-past :
    (q : List Child) (j : ℕ) (songs : List Child)
    → get_elem? (insert_all q 0 songs) (j + length songs) ≡ get_elem? q j
unfolding insert_all
get_elem?-past q j [] = ap (get_elem? q) (omega arith)
get_elem?-past q j (s ∷ songs) =
    ap (λ k. get_elem? (insert_all (s ∷ q) 1 songs) k) (towards j (length songs))
    ∙ ap (λ l. get_elem? l (suc (j + length songs))) (insert_all-cons s q 0 songs)
    ∙ get_elem?-past q j songs
  where
    towards : (j n : ℕ) → j + suc n ≡ suc (j + n)
    towards j n = omega arith

get_elem?-before :
    (q : List Child) (i j : ℕ) (songs : List Child)
    → j < i
    → i ≤ length q
    → get_elem? (insert_all q i songs) j ≡ get_elem? q j
get_elem?-before q zero j songs h b = absurd (omega arith)
get_elem?-before [] (suc i) j songs h b = absurd (omega arith)
get_elem?-before (x ∷ q) (suc i) zero songs h b =
    ap (λ l. get_elem? l 0) (insert_all-cons x q i songs)
get_elem?-before (x ∷ q) (suc i) (suc j) songs h b =
    ap (λ l. get_elem? l (suc j)) (insert_all-cons x q i songs)
    ∙ get_elem?-before q i j songs (omega arith) (omega arith)

get_elem?-behind :
    (q : List Child) (i j : ℕ) (songs : List Child)
    → i ≤ j
    → i ≤ length q
    → get_elem? (insert_all q i songs) (j + length songs) ≡ get_elem? q j
get_elem?-behind q zero j songs h b = get_elem?-past q j songs
get_elem?-behind [] (suc i) j songs h b = absurd (omega arith)
get_elem?-behind (x ∷ q) (suc i) zero songs h b = absurd (omega arith)
get_elem?-behind (x ∷ q) (suc i) (suc j) songs h b =
    ap (get_elem? (insert_all (x ∷ q) (suc i) songs)) (towards j (length songs))
    ∙ ap (λ l. get_elem? l (suc (j + length songs))) (insert_all-cons x q i songs)
    ∙ get_elem?-behind q i j songs (omega arith) (omega arith)
  where
    towards : (j n : ℕ) → suc j + n ≡ suc (j + n)
    towards j n = omega arith

shift : (a n : ℕ) → a + n + 1 ≡ a + 1 + n
shift a n = omega arith

-- Songs inserted after an entry keep the pointer on the playing song.
pub insert_state-keeps_current :
    {F : Type 0} (s : DaemonState F) (pos cur : ℕ) (songs : List Child)
    → s.queue_position ≡ some cur
    → (cur' : ℕ) × ((insert_state pos songs s).queue_position ≡ some cur')
      × (get_elem? (insert_state pos songs s).queue cur' ≡ get_elem? s.queue cur)
unfolding insert_state
insert_state-keeps_current s pos cur songs e = (
  if leb (insert_point pos s) cur then cur + length songs else cur,
  ground arith,
  ground (
    arith,
    get_elem?-before s.queue (insert_point pos s) cur songs,
    get_elem?-behind s.queue (insert_point pos s) cur songs,
  ),
)

-- Songs inserted elsewhere than right behind the playing entry keep the entry that follows it.
pub insert_state-keeps_next :
    {F : Type 0} (s : DaemonState F) (pos cur : ℕ) (songs : List Child)
    → s.queue_position ≡ some cur
    → insert_point pos s ≢ cur + 1
    → (cur' : ℕ) × ((insert_state pos songs s).queue_position ≡ some cur')
      × (get_elem? (insert_state pos songs s).queue (cur' + 1) ≡ get_elem? s.queue (cur + 1))
unfolding insert_state
insert_state-keeps_next s pos cur songs e n = (
  if leb (insert_point pos s) cur then cur + length songs else cur,
  ground arith,
  ground (
    arith,
    get_elem?-before s.queue (insert_point pos s) (cur + 1) songs,
    get_elem?-behind s.queue (insert_point pos s) (cur + 1) songs,
    shift cur (length songs),
  ),
)

-- Clearing the history drops exactly the entries before the playing one, and counts them: the
-- playing entry becomes the first, and all behind it stay in order.
pub clear_history_state_lem :
    {F : Type 0} (s : DaemonState F) (cur : ℕ)
    → s.queue_position ≡ some cur
    → cur < length s.queue
    → ((clear_history_state s).0 ≡ cur)
      × ((clear_history_state s).1.queue_position ≡ some 0)
      × (length (clear_history_state s).1.queue + cur ≡ length s.queue)
      × ((i : ℕ) → get_elem? (clear_history_state s).1.queue i ≡ get_elem? s.queue (cur + i))
unfolding clear_history_state
clear_history_state_lem s cur e h = (
  ground arith,
  ground arith,
  ground (arith, length-drop cur s.queue),
  λ i. ground (arith, get_elem?-drop cur s.queue i),
)
