-- ===== src/Daemon/Library/Laws.antt =====
-- The LRU cache of daemon/library.rs: the map and the recency order stay in step.
use ferrosonic.Prelude.{
  ℕ, suc, ◌≤◌, ◌<◌, ◌≡◌, refl, true, false, String, str_eq, eq_iff, eq_refl, some, List, [], ◌∷◌,
  ◌++◌, arith, length, leb, if◌then◌else◌, Bool-cases, inl, inr,
}
use ferrosonic.Prelude.Assoc
use ferrosonic.Prelude.Assoc.{
  contains, lookup, contains_key, Distinct, Distinct-insert, Distinct-remove, contains_key-insert,
  contains_key-remove, length-insert, lookup-insert, lookup-remove, length-remove,
}
use ferrosonic.Daemon.Library.{LruCache, remove_first, touch, get, evict, insert}

-- No key stands twice in the order.
abbrev pub Once : List String → Type 0
Once [] = Unit {0}
Once (k ∷ ks) = (contains ks k ≡ false) × Once ks

contains-append :
    (ks : List String) (new k : String)
    → contains (ks ++ new ∷ []) k ≡ (if contains ks k then true else str_eq new k)
unfolding contains
contains-append [] new k = ground arith
contains-append (j ∷ ks) new k = ground (arith, contains-append ks new k)

Once-append :
    (ks : List String) (new : String) → Once ks → contains ks new ≡ false → Once (ks ++ new ∷ [])
unfolding contains
Once-append [] new o h = ground arith
Once-append (j ∷ ks) new o h =
    ground (arith, contains-append ks new j, eq_iff new j, eq_iff j new, Once-append ks new o.1)

contains-remove_first :
    (key : String) (ks : List String) (k : String)
    → Once ks
    → contains (remove_first key ks) k ≡ (if str_eq key k then false else contains ks k)
unfolding remove_first contains
contains-remove_first key [] k o = ground arith
contains-remove_first key (j ∷ ks) k o =
    ground (arith, contains-remove_first key ks k o.1, eq_iff j key, eq_iff key k, eq_iff j k)

Once-remove_first : (key : String) (ks : List String) → Once ks → Once (remove_first key ks)
unfolding remove_first
Once-remove_first key [] o = tt
Once-remove_first key (j ∷ ks) o =
    ground (arith, contains-remove_first key ks j o.1, Once-remove_first key ks o.1)

module _ {V : Type 0} where
  -- The map and the order hold the same keys, each once.
  unfoldable pub InStep : LruCache V → Type 0
  InStep c =
      Distinct c.map × Once c.order × ((k : String) → contains c.order k ≡ contains_key k c.map)

  pub popped :
      (m : List (String × V)) (oldest : String) (o : List String)
      → InStep (record { map = m; order = oldest ∷ o })
      → InStep (record { map = Assoc.remove oldest m; order = o })
  unfolding InStep contains
  popped m oldest o s = (
    Distinct-remove oldest m s.0,
    s.1.1,
    λ k. ground (arith, s.1.0, s.2 k, contains_key-remove oldest k m, eq_iff oldest k),
  )

  -- What the loop leaves is in step, holds no new key, and has room for one more entry.
  pub evict-InStep :
      (cap : ℕ) (m : List (String × V)) (o : List String)
      → InStep (record { map = m; order = o })
      → InStep (evict cap m o)
  unfolding evict
  evict-InStep cap m [] s = s
  evict-InStep cap m (oldest ∷ o) s = elim (Bool-cases (leb cap (length m))) [
    | inl e ↦ rw (e, evict) (evict-InStep cap (Assoc.remove oldest m) o (popped m oldest o s))
    | inr e ↦ rw (e, evict) s
  ]

  pub evict-absent :
      (cap : ℕ) (m : List (String × V)) (o : List String) (k : String)
      → contains_key k m ≡ false
      → contains_key k (evict cap m o).map ≡ false
  unfolding evict
  evict-absent cap m [] k h = h
  evict-absent cap m (oldest ∷ o) k h =
      ground (arith, contains_key-remove oldest k m, evict-absent cap (Assoc.remove oldest m) o k)

  evict-room :
      (cap : ℕ) (m : List (String × V)) (o : List String)
      → InStep (record { map = m; order = o })
      → 0 < cap
      → length (evict cap m o).map < cap
  unfolding InStep evict contains contains_key
  evict-room cap [] [] s h = h
  evict-room cap ((j, v) ∷ m) [] s h = absurd (ground (arith, s.2 j, eq_refl j))
  evict-room cap m (oldest ∷ o) s h =
      ground (arith, evict-room cap (Assoc.remove oldest m) o (popped m oldest o s) h)

  touch-InStep :
      (key : String) (m : List (String × V)) (o : List String)
      → InStep (record { map = m; order = o })
      → InStep (record { map = m; order = touch key o })
  unfolding InStep touch
  touch-InStep key m o s = elim (Bool-cases (contains o key)) [
    | inr e ↦ rw (e, touch) s
    | inl e ↦
        rw (e, touch)
          (
            s.0,
            Once-append (remove_first key o) key (Once-remove_first key o s.1)
                (ground (arith, contains-remove_first key o key s.1, eq_refl key)),
            λ k. ground (
              arith,
              e,
              s.2 k,
              contains-append (remove_first key o) key k,
              contains-remove_first key o k s.1,
              eq_iff key k,
            ),
          )
  ]

  insert-InStep_held :
      (key : String) (val : V) (c : LruCache V)
      → contains_key key c.map ≡ true
      → InStep c
      → InStep (record { map = Assoc.insert key val c.map; order = c.order })
  unfolding InStep
  insert-InStep_held key val c e s = (
    Distinct-insert key val c.map s.0,
    s.1,
    λ k. ground (arith, s.2 k, contains_key-insert key k val c.map, eq_iff key k, e),
  )

  insert-InStep_new :
      (key : String) (val : V) (room : LruCache V)
      → contains_key key room.map ≡ false
      → InStep room
      → InStep (record { map = Assoc.insert key val room.map; order = room.order ++ key ∷ [] })
  unfolding InStep
  insert-InStep_new key val room e s = (
    Distinct-insert key val room.map s.0,
    Once-append room.order key s.1 (ground (arith, s.2 key, e)),
    λ k.
        ground
          (arith, s.2 k, contains_key-insert key k val room.map, contains-append room.order key k),
  )

  -- An insertion keeps the map and the recency order in step, stays within a positive capacity that
  -- was kept before, and the value is found again.
  pub insert-InStep :
      (key : String) (val : V) (cap : ℕ) (c : LruCache V)
      → InStep c
      → 0 < cap
      → length c.map ≤ cap
      → InStep (insert key val cap c)
        × (length (insert key val cap c).map ≤ cap)
        × ((get key (insert key val cap c)).0 ≡ some val)
  unfolding insert get
  insert-InStep key val cap c s h l = elim (Bool-cases (contains_key key c.map)) [
    | inl e ↦ (
      rw (e, insert)
          (touch-InStep key (Assoc.insert key val c.map) c.order
            (insert-InStep_held key val c e s)),
      ground (arith, e, length-insert key val c.map),
      ground (
        arith,
        e,
        contains_key-insert key key val c.map,
        lookup-insert key key val c.map,
        eq_refl key,
      ),
    )
    | inr e ↦
        let room = evict cap c.map c.order in
        let absent = evict-absent cap c.map c.order key e in
        (
          rw (e, insert) (insert-InStep_new key val room absent (evict-InStep cap c.map c.order s)),
          ground
              (arith, e, absent, length-insert key val room.map, evict-room cap c.map c.order s h),
          ground (
            arith,
            e,
            contains_key-insert key key val room.map,
            lookup-insert key key val room.map,
            eq_refl key,
          ),
        )
  ]

  -- A lookup keeps the map and the recency order in step, and changes no entry.
  pub get-InStep :
      (key : String) (c : LruCache V)
      → InStep c
      → InStep (get key c).1 × ((get key c).1.map ≡ c.map)
  unfolding get
  get-InStep key c s = ground (arith, touch-InStep key c.map c.order s)

  evict-stops :
      (cap : ℕ) (m : List (String × V)) (o : List String)
      → length m < cap
      → evict cap m o ≡ record { map = m; order = o }
  unfolding evict
  evict-stops cap m [] h = refl
  evict-stops cap m (k ∷ o) h = ground arith

  oldest-there :
      (c : LruCache V) (oldest : String) (rest : List String)
      → InStep c
      → c.order ≡ oldest ∷ rest
      → length c.map ≡ suc (length (Assoc.remove oldest c.map))
  unfolding InStep contains
  oldest-there c oldest rest s o =
      ground (arith, o, s.2 oldest, eq_refl oldest, length-remove oldest c.map s.0)

  -- A new key in a full cache takes the place of the least recently used one.
  pub insert-evicts_oldest :
      (key oldest : String) (val : V) (rest : List String) (cap : ℕ) (c : LruCache V)
      → InStep c
      → contains_key key c.map ≡ false
      → length c.map ≡ cap
      → c.order ≡ oldest ∷ rest
      → ((insert key val cap c).order ≡ rest ++ key ∷ [])
        × ((insert key val cap c).map ≡ Assoc.insert key val (Assoc.remove oldest c.map))
  unfolding insert evict
  insert-evicts_oldest key oldest val rest cap c s n l o =
      let there = oldest-there c oldest rest s o in
      let stop = evict-stops cap (Assoc.remove oldest c.map) rest (omega (arith, there, l)) in
      (ground (arith, stop), ground (arith, stop))
