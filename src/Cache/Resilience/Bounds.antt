-- ===== src/Cache/Resilience/Bounds.antt =====
-- The size of the first tier of cache/resilience.py, and its eviction.
use amber_claw.Base.{
  ℕ, ◌+◌, ◌≤◌, ◌<◌, ◌≡◌, refl, sym, ap, ◌∙◌, true, Option, none, some, String, Result, ok, raise,
  is_ok, [], ◌∷◌, arith, length, leb, if◌then◌else◌, Bool-cases, inl, inr, subst,
}
use amber_claw.Base.Dict
use amber_claw.Base.Dict.{Dict, get-set, get-remove, length-set-le, length-remove-le}
use amber_claw.Base.Key.{text_key, ◌==◌, ==_refl}
use amber_claw.Cache.Resilience
use amber_claw.Cache.Resilience.{
  CacheEntry, ResilientCacheManager, evict, evict_l1_lru_if_needed, drop_key, put, write_through,
  noted, on_redis_failure, on_redis_success, set_room, Reply, promoted, get_l2, get_entry, hit,
}

module _ {V : Type 0} where
  -- No key stands twice.
  abbrev pub IsDistinct : Dict String (CacheEntry V) → Type 0
  IsDistinct [] = Unit {0}
  IsDistinct (e ∷ d) = (Dict.get e.0 d ≡ none) × IsDistinct d

  remove-absent :
      (k : String) (d : Dict String (CacheEntry V)) → Dict.get k d ≡ none → Dict.remove k d ≡ d
  unfolding Dict.get Dict.remove
  remove-absent k [] h = refl
  remove-absent k (e ∷ d) h = elim (Bool-cases (e.0 == k)) [
    | inl same ↦ ground (arith, same)
    | inr other ↦ rw other (ap (λ x. e ∷ x) (remove-absent k d (ground (arith, other))))
  ]

  remove-oldest :
      (e : String × CacheEntry V) (d : Dict String (CacheEntry V))
      → Dict.get e.0 d ≡ none
      → Dict.remove e.0 (e ∷ d) ≡ d
  unfolding Dict.remove
  remove-oldest e d h = rw (==_refl e.0) (remove-absent e.0 d h)

  -- A present key leaves room.
  pub length-remove :
      (k : String) (d : Dict String (CacheEntry V))
      → Dict.has k d ≡ true
      → length (Dict.remove k d) + 1 ≤ length d
  unfolding Dict.get Dict.remove
  length-remove k [] h = ground arith
  length-remove k (e ∷ d) h = ground (arith, length-remove k d, length-remove-le k d)

  pub remove-IsDistinct :
      (k : String) (d : Dict String (CacheEntry V)) → IsDistinct d → IsDistinct (Dict.remove k d)
  unfolding Dict.remove
  remove-IsDistinct k [] h = tt
  remove-IsDistinct k (e ∷ d) h = elim (Bool-cases (e.0 == k)) [
    | inl same ↦ rw same (remove-IsDistinct k d h.1)
    | inr other ↦ rw other (ground (arith, get-remove k e.0 d, h.0), remove-IsDistinct k d h.1)
  ]

  pub set-IsDistinct :
      (k : String) (v : CacheEntry V) (d : Dict String (CacheEntry V))
      → IsDistinct d
      → IsDistinct (Dict.set k v d)
  unfolding Dict.set Dict.get
  set-IsDistinct k v [] h = (refl, tt)
  set-IsDistinct k v (e ∷ d) h = elim (Bool-cases (e.0 == k)) [
    | inl same ↦ rw same h
    | inr other ↦ rw other (
      ground
          (arith, get-set k e.0 v d, h.0, text_key.same_key_iff e.0 k, text_key.same_key_iff k e.0),
      set-IsDistinct k v d h.1,
    )
  ]

  -- What an eviction leaves: room for one entry.
  abbrev pub HasRoom : ResilientCacheManager V × Result Resilience.Error (Unit {0}) → ℕ → Type 0
  HasRoom r most =
      (is_ok r.1 ≡ true)
      × (length r.0.l1_cache < most)
      × IsDistinct r.0.l1_cache
      × (r.0.max_l1_items ≡ most)

  pub evict-HasRoom :
      (d : Dict String (CacheEntry V)) (m : ResilientCacheManager V)
      → m.l1_cache ≡ d
      → 1 ≤ m.max_l1_items
      → IsDistinct d
      → HasRoom (evict (Dict.keys d) m) m.max_l1_items
  unfolding evict drop_key
  evict-HasRoom [] m same big h = (
    ground (arith, ap length same),
    ground (arith, ap length same),
    subst IsDistinct (sym same) tt,
    refl,
  )
  evict-HasRoom (e ∷ d) m same big h = elim (Bool-cases (leb m.max_l1_items (length m.l1_cache))) [
    | inl fits ↦ rw fits (
        evict-HasRoom d (drop_key true e.0 m) (ap (Dict.remove e.0) same ∙ remove-oldest e d h.0)
          big h.1)
    | inr room ↦ rw room (refl, ground (arith, room), subst IsDistinct (sym same) h, refl)
  ]

  -- The first tier is within its maximum, and no key stands twice.
  abbrev pub Fits : ResilientCacheManager V → Type 0
  Fits m = (length m.l1_cache ≤ m.max_l1_items) × IsDistinct m.l1_cache

  write_through-l1 :
      (failure : Option ℕ) (m : ResilientCacheManager V)
      → ((write_through failure m).l1_cache ≡ m.l1_cache)
        × ((write_through failure m).max_l1_items ≡ m.max_l1_items)
  unfolding on_redis_failure on_redis_success
  write_through-l1 none m = ground arith
  write_through-l1 (some at) m = ground arith

  pub put-Fits :
      (k : String) (e : CacheEntry V) (m n : ResilientCacheManager V)
      → n.l1_cache ≡ Dict.set k e m.l1_cache
      → n.max_l1_items ≡ m.max_l1_items
      → length m.l1_cache < m.max_l1_items
      → IsDistinct m.l1_cache
      → Fits n
  put-Fits k e m n same most room h = (
    omega (arith, room, most, ap length same, length-set-le k e m.l1_cache),
    subst IsDistinct (sym same) (set-IsDistinct k e m.l1_cache h),
  )

  set_room-Fits :
      (k : String) (e : CacheEntry V) (failure : Option ℕ) (most : ℕ)
      (r : ResilientCacheManager V × Result Resilience.Error (Unit {0}))
      → HasRoom r most
      → (is_ok (set_room k e failure r).1 ≡ true)
        × Fits (set_room k e failure r).0
        × ((set_room k e failure r).0.max_l1_items ≡ most)
  unfolding put
  set_room-Fits k e failure most (m, raise error) (good, room, h, same) = ground (arith, good)
  set_room-Fits k e failure most (m, ok _) (good, room, h, same) = (
    refl,
    put-Fits k e m (write_through failure (put k e m)) (write_through-l1 failure (put k e m)).0
        (write_through-l1 failure (put k e m)).1 (omega (arith, room, same)) h,
    (write_through-l1 failure (put k e m)).1 ∙ same,
  )

  set-room :
      (k : String) (m : ResilientCacheManager V)
      → 1 ≤ m.max_l1_items
      → Fits m
      → HasRoom
          (if Dict.has k m.l1_cache
            then (record m { l1_cache = Dict.remove k m.l1_cache }, ok tt)
            else evict_l1_lru_if_needed m)
          m.max_l1_items
  set-room k m big (few, h) = elim (Bool-cases (Dict.has k m.l1_cache)) [
    | inl old ↦ rw old (
      refl,
      omega (arith, few, length-remove k m.l1_cache old),
      remove-IsDistinct k m.l1_cache h,
      refl,
    )
    | inr new ↦ rw new (evict-HasRoom m.l1_cache m refl big h)
  ]

  -- With a positive maximum, a write into a first tier that is within it does not raise, and leaves it
  -- within it, whatever Redis does.
  pub set-Fits :
      (k : String) (e : CacheEntry V) (failure : Option ℕ) (m : ResilientCacheManager V)
      → 1 ≤ m.max_l1_items
      → Fits m
      → (is_ok (Resilience.set k e failure m).1 ≡ true)
        × Fits (Resilience.set k e failure m).0
        × ((Resilience.set k e failure m).0.max_l1_items ≡ m.max_l1_items)
  unfolding Resilience.set
  set-Fits k e failure m big fits =
      set_room-Fits k e failure m.max_l1_items _ (set-room k m big fits)
