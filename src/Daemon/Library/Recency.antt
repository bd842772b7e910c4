-- ===== src/Daemon/Library/Recency.antt =====
-- What the LRU cache is: one list of entries, from the least to the most recently used.
use ferrosonic.Prelude.{
  ℕ, zero, suc, ◌-◌, ◌≡◌, ◌∙◌, refl, sym, ap, inl, inr, arith, true, false, String, str_eq, eq_iff,
  eq_refl, Option, some, List, [], ◌∷◌, ◌++◌, length, drop, leb, if◌then◌else◌, Bool-cases,
}
use mathlib.Core.Path.{ap₂}
use ferrosonic.Prelude.Assoc
use ferrosonic.Prelude.Assoc.{
  lookup, contains_key, contains, Distinct, lookup-insert, lookup-remove, contains_key-remove,
  length-remove,
}
use ferrosonic.Daemon.Library.{LruCache, remove_first, touch, evict, insert}
use ferrosonic.Daemon.Library.Laws.{InStep, Once, popped, evict-InStep, evict-absent}

module _ {A : Type 0} where
  drop-nil : (n : ℕ) → drop {A = A} n [] ≡ []
  drop-nil zero = refl
  drop-nil (suc n) = refl

  drop-cons : (n k : ℕ) (x : A) (xs : List A) → n ≡ suc k → drop n (x ∷ xs) ≡ drop k xs
  drop-cons n k x xs h = ap (λ a. drop a (x ∷ xs)) h

  drop-zero : (n : ℕ) (xs : List A) → n ≡ 0 → drop n xs ≡ xs
  drop-zero n xs h = ap (λ a. drop a xs) h

module _ {V : Type 0} where
  -- The entries of a map in an order of its keys.
  unfoldable pub view : List (String × V) → List String → List (String × Option V)
  view m [] = []
  view m (k ∷ o) = (k, lookup k m) ∷ view m o

  abbrev pub entries : LruCache V → List (String × Option V)
  entries c = view c.map c.order

  -- A held key gets its new value and goes last; a new one goes last, after the oldest entries have
  -- made room for it.
  unfoldable pub insert_last : String → V → ℕ → List (String × Option V) → List (String × Option V)
  insert_last key val cap l =
      if contains_key key l
      then Assoc.remove key l ++ (key, some val) ∷ []
      else drop (suc (length l) - cap) l ++ (key, some val) ∷ []

  contains_key-view :
      (m : List (String × V)) (o : List String) (k : String)
      → contains_key k (view m o) ≡ contains o k
  unfolding view contains_key contains
  contains_key-view m [] k = refl
  contains_key-view m (j ∷ o) k = ground (arith, contains_key-view m o k, eq_iff j k, eq_iff k j)

  length-view : (m : List (String × V)) (o : List String) → length (view m o) ≡ length o
  unfolding view
  length-view m [] = refl
  length-view m (j ∷ o) = ground (arith, length-view m o)

  view-append :
      (m : List (String × V)) (o : List String) (k : String)
      → view m (o ++ k ∷ []) ≡ view m o ++ (k, lookup k m) ∷ []
  unfolding view
  view-append m [] k = refl
  view-append m (j ∷ o) k = ap (◌∷◌ (j, lookup j m)) (view-append m o k)

  view-insert_other :
      (m : List (String × V)) (o : List String) (key : String) (val : V)
      → contains o key ≡ false
      → view (Assoc.insert key val m) o ≡ view m o
  unfolding view contains
  view-insert_other m [] key val h = refl
  view-insert_other m (j ∷ o) key val h =
      ap₂ (λ v rest. (j, v) ∷ rest)
        (ground (arith, lookup-insert key j val m, eq_iff j key, eq_refl key))
        (view-insert_other m o key val (ground arith))

  view-remove_other :
      (m : List (String × V)) (o : List String) (key : String)
      → contains o key ≡ false
      → view (Assoc.remove key m) o ≡ view m o
  unfolding view contains
  view-remove_other m [] key h = refl
  view-remove_other m (j ∷ o) key h =
      ap₂ (λ v rest. (j, v) ∷ rest)
        (ground (arith, lookup-remove key j m, eq_iff key j, eq_refl key))
        (view-remove_other m o key (ground arith))

  remove-view_absent :
      (m : List (String × V)) (o : List String) (key : String)
      → contains o key ≡ false
      → Assoc.remove key (view m o) ≡ view m o
  remove-view_absent m o key h = Assoc.remove_absent key (view m o) (contains_key-view m o key ∙ h)

  -- A key that is taken out of the order is taken out of the entries.
  view-remove_first :
      (m : List (String × V)) (o : List String) (key : String) (val : V)
      → Once o
      → view (Assoc.insert key val m) (remove_first key o) ≡ Assoc.remove key (view m o)
  unfolding view remove_first Assoc.remove
  view-remove_first m [] key val s = refl
  view-remove_first m (j ∷ o) key val s = elim (Bool-cases (str_eq j key)) [
    | inl e ↦ ground (
      arith,
      e,
      eq_iff j key,
      eq_iff key j,
      view-insert_other m o key val,
      remove-view_absent m o key,
    )
    | inr e ↦ ground (
      arith,
      e,
      eq_iff j key,
      eq_iff key j,
      lookup-insert key j val m,
      view-remove_first m o key val s.1,
    )
  ]

  length-order :
      (m : List (String × V)) (o : List String)
      → InStep (record { map = m; order = o })
      → length m ≡ length o
  unfolding InStep contains contains_key
  length-order [] [] s = refl
  length-order ((j, v) ∷ m) [] s = absurd (ground (arith, s.2 j, eq_refl j))
  length-order m (k ∷ o) s = ground (
    arith,
    length-order (Assoc.remove k m) o (popped m k o s),
    length-remove k m s.0,
    s.2 k,
    eq_refl k,
  )

  shorter :
      (m : List (String × V)) (k : String) (o : List String)
      → InStep (record { map = m; order = k ∷ o })
      → length m ≡ suc (length (Assoc.remove k m))
  unfolding InStep contains
  shorter m k o s = ground (arith, length-remove k m s.0, s.2 k, eq_refl k)

  head_once :
      (m : List (String × V)) (k : String) (o : List String)
      → InStep (record { map = m; order = k ∷ o })
      → contains o k ≡ false
  unfolding InStep
  head_once m k o s = s.1.0

  evict-view :
      (cap : ℕ) (m : List (String × V)) (o : List String)
      → InStep (record { map = m; order = o })
      → view (evict cap m o).map (evict cap m o).order ≡ drop (suc (length m) - cap) (view m o)
  unfolding evict view
  evict-view cap m [] s = sym (drop-nil (suc (length m) - cap))
  evict-view cap m (oldest ∷ o) s =
      let later = Assoc.remove oldest m in
      let shrinks = shorter m oldest o s in
      elim (Bool-cases (leb cap (length m))) [
        | inl e ↦
            rw (e, evict)
              (evict-view cap later o (popped m oldest o s)
                ∙ ap (drop (suc (length later) - cap))
                    (view-remove_other m o oldest (head_once m oldest o s))
                ∙ sym (
                    drop-cons (suc (length m) - cap) (suc (length later) - cap)
                      (oldest, lookup oldest m) (view m o) (ground (arith, e, shrinks))))
        | inr e ↦
            rw (e, evict)
              (sym (drop-zero (suc (length m) - cap) (view m (oldest ∷ o)) (ground (arith, e))))
      ]

  order-holds : (c : LruCache V) (k : String) → InStep c → contains c.order k ≡ contains_key k c.map
  unfolding InStep
  order-holds c k s = s.2 k

  order-Once : (c : LruCache V) → InStep c → Once c.order
  unfolding InStep
  order-Once c s = s.1

  inserted :
      (key : String) (val : V) (m : List (String × V))
      → lookup key (Assoc.insert key val m) ≡ some val
  inserted key val m = ground (arith, lookup-insert key key val m, eq_refl key)

  insert-entries_held :
      (key : String) (val : V) (cap : ℕ) (c : LruCache V)
      → InStep c
      → contains_key key c.map ≡ true
      → entries (insert key val cap c) ≡ insert_last key val cap (entries c)
  unfolding insert insert_last touch
  insert-entries_held key val cap c s e =
      let held = order-holds c key s ∙ e in
      rw (e, insert, held, touch, contains_key-view c.map c.order key ∙ held, insert_last)
        (view-append (Assoc.insert key val c.map) (remove_first key c.order) key
          ∙ ap₂ (λ l v. l ++ (key, v) ∷ [])
              (view-remove_first c.map c.order key val (order-Once c s)) (inserted key val c.map))

  insert-entries_new :
      (key : String) (val : V) (cap : ℕ) (c : LruCache V)
      → InStep c
      → contains_key key c.map ≡ false
      → entries (insert key val cap c) ≡ insert_last key val cap (entries c)
  unfolding insert insert_last
  insert-entries_new key val cap c s e =
      let room = evict cap c.map c.order in
      let unheld =
        order-holds room key (evict-InStep cap c.map c.order s)
        ∙ evict-absent cap c.map c.order key e in
      let sizes = length-order c.map c.order s ∙ sym (length-view c.map c.order) in
      rw (e, insert, contains_key-view c.map c.order key ∙ order-holds c key s ∙ e, insert_last)
        (view-append (Assoc.insert key val room.map) room.order key
          ∙ ap₂ (λ l v. l ++ (key, v) ∷ [])
              (view-insert_other room.map room.order key val unheld
                ∙ evict-view cap c.map c.order s
                ∙ ap (λ n. drop (suc n - cap) (entries c)) sizes)
              (inserted key val room.map))

  -- The cache refines the list of its entries: an insertion into map and order is `insert_last` on
  -- that list, for a cache that is in step.
  pub insert-entries :
      (key : String) (val : V) (cap : ℕ) (c : LruCache V)
      → InStep c
      → entries (insert key val cap c) ≡ insert_last key val cap (entries c)
  insert-entries key val cap c s = elim (Bool-cases (contains_key key c.map)) [
    | inl e ↦ insert-entries_held key val cap c s e
    | inr e ↦ insert-entries_new key val cap c s e
  ]
