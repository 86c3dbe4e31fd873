-- ===== src/Cache/Resilience/Capacity.antt =====
-- The calls on the cache of cache/resilience.py keep its first tier within its maximum.
use amber_claw.Base.{
  ℕ, ◌+◌, ◌≤◌, ◌≡◌, refl, sym, ap, ◌∙◌, Bool, false, Option, none, some, String, Result, ok, raise,
  List, [], ◌∷◌, arith, length, Bool-cases, inl, inr, subst,
}
use amber_claw.Base.Dict
use amber_claw.Base.Dict.{Dict, length-set-le, length-remove-le}
use amber_claw.Base.Key.{text_key}
use amber_claw.Cache.Resilience
use amber_claw.Cache.Resilience.{
  CacheEntry, ResilientCacheManager, Reply, evict_l1_lru_if_needed, drop_key, put, on_redis_failure,
  on_redis_success, promoted, get_l2, get_entry, hit, delete_keys, invalidate, invalidate_by_tag,
  clear, delete_redis, keys_of,
}
use amber_claw.Cache.Resilience.Bounds.{
  IsDistinct, remove-IsDistinct, length-remove, set-IsDistinct, HasRoom, evict-HasRoom, Fits,
  put-Fits, set-Fits,
}
use amber_claw.Cache.Resilience.Invalidation.{
  Call, set, get, drop, drop_tag, drop_all, step, run, delete_redis-l1, invalidate_by_tag-l1,
}

module _ {V : Type 0} where
  -- The first tier is within the maximum given.
  abbrev pub FitsIn : ℕ → ResilientCacheManager V → Type 0
  FitsIn most m = Fits m × (m.max_l1_items ≡ most)

  same-FitsIn :
      (most : ℕ) (m n : ResilientCacheManager V)
      → n.l1_cache ≡ m.l1_cache
      → n.max_l1_items ≡ m.max_l1_items
      → FitsIn most m
      → FitsIn most n
  same-FitsIn most m n same max fits = (
    (omega (arith, fits.0.0, max, ap length same), subst IsDistinct (sym same) fits.0.1),
    max ∙ fits.1,
  )

  failure-FitsIn :
      (most at : ℕ) (m : ResilientCacheManager V)
      → FitsIn most m
      → FitsIn most (on_redis_failure at m)
  unfolding on_redis_failure
  failure-FitsIn most at m =
      same-FitsIn most m (on_redis_failure at m) (ground arith) (ground arith)

  success-FitsIn :
      (most : ℕ) (m : ResilientCacheManager V) → FitsIn most m → FitsIn most (on_redis_success m)
  unfolding on_redis_success
  success-FitsIn most m = same-FitsIn most m (on_redis_success m) (ground arith) (ground arith)

  promoted-FitsIn :
      (most failed_at : ℕ) (k : String) (e : CacheEntry V)
      (r : ResilientCacheManager V × Result Resilience.Error (Unit {0}))
      → HasRoom r most
      → FitsIn most (promoted failed_at k e r).0
  unfolding put
  promoted-FitsIn most failed_at k e (m, raise error) (good, room, h, same) = ground (arith, good)
  promoted-FitsIn most failed_at k e (m, ok _) (good, room, h, same) =
      success-FitsIn most n (put-Fits k e m n refl refl (omega (arith, room, same)) h, same)
    where
      n : ResilientCacheManager V
      n = record (put k e m) { hits = m.hits + 1; l2_hits = m.l2_hits + 1 }

  evict_l1_lru_if_needed-HasRoom :
      (most : ℕ) (m : ResilientCacheManager V)
      → 1 ≤ most
      → FitsIn most m
      → HasRoom (evict_l1_lru_if_needed m) most
  evict_l1_lru_if_needed-HasRoom most m big fits =
      subst (HasRoom (evict_l1_lru_if_needed m)) fits.1
        (evict-HasRoom m.l1_cache m refl (omega (arith, big, fits.1)) fits.0.1)

  get_l2-FitsIn :
      (most now failed_at : ℕ) (k : String) (reply : Reply V) (m : ResilientCacheManager V)
      → 1 ≤ most
      → FitsIn most m
      → FitsIn most (get_l2 now failed_at k reply m).0
  unfolding get_l2
  get_l2-FitsIn most now failed_at k (Reply.failed at) m big fits = elim (Bool-cases m.has_redis) [
    | inl e ↦ rw e (failure-FitsIn most at _ fits)
    | inr e ↦ rw e fits
  ]
  get_l2-FitsIn most now failed_at k Reply.missing m big fits = elim (Bool-cases m.has_redis) [
    | inl e ↦ rw e fits
    | inr e ↦ rw e fits
  ]
  get_l2-FitsIn most now failed_at k (Reply.found v tags created) m big fits =
      elim (Bool-cases m.has_redis) [
        | inl e ↦
            rw e (
              promoted-FitsIn most failed_at k _ _ (evict_l1_lru_if_needed-HasRoom most _ big fits))
        | inr e ↦ rw e fits
      ]

  drop_key-FitsIn :
      (most : ℕ) (prunes : Bool) (k : String) (m : ResilientCacheManager V)
      → FitsIn most m
      → FitsIn most (drop_key prunes k m)
  unfolding drop_key
  drop_key-FitsIn most prunes k m fits = (
    (
      omega (arith, fits.0.0, length-remove-le k m.l1_cache),
      remove-IsDistinct k m.l1_cache fits.0.1,
    ),
    fits.1,
  )

  hit-FitsIn :
      (most : ℕ) (k : String) (e : CacheEntry V) (m : ResilientCacheManager V)
      → Dict.get k m.l1_cache ≡ some e
      → FitsIn most m
      → FitsIn most (hit k e m).0
  hit-FitsIn most k e m found fits = (
    (
      omega (
        arith,
        fits.0.0,
        length-remove k m.l1_cache (rw found refl),
        length-set-le k e (Dict.remove k m.l1_cache),
      ),
      set-IsDistinct k e (Dict.remove k m.l1_cache) (remove-IsDistinct k m.l1_cache fits.0.1),
    ),
    fits.1,
  )

  get_entry-FitsIn :
      (most read now failed_at : ℕ) (k : String) (reply : Reply V) (m : ResilientCacheManager V)
      (o : Option (CacheEntry V))
      → Dict.get k m.l1_cache ≡ o
      → 1 ≤ most
      → FitsIn most m
      → FitsIn most (get_entry read now failed_at k reply m o).0
  get_entry-FitsIn most read now failed_at k reply m none found big fits =
      get_l2-FitsIn most now failed_at k reply m big fits
  get_entry-FitsIn most read now failed_at k reply m (some e) found big fits =
      elim (Bool-cases (Resilience.is_expired read e)) [
        | inl over ↦ rw over (
            get_l2-FitsIn most now failed_at k reply (drop_key false k m) big
              (drop_key-FitsIn most false k m fits))
        | inr live ↦ rw live (hit-FitsIn most k e m found fits)
      ]

  -- A read keeps a first tier within a positive maximum, also when it promotes a value of Redis.
  get-FitsIn :
      (most read now failed_at : ℕ) (k : String) (reply : Reply V) (m : ResilientCacheManager V)
      → 1 ≤ most
      → FitsIn most m
      → FitsIn most (Resilience.get read now failed_at k reply m).0
  unfolding Resilience.get
  get-FitsIn most read now failed_at k reply m =
      get_entry-FitsIn most read now failed_at k reply m (Dict.get k m.l1_cache) refl

  delete_keys-Fits :
      (most : ℕ) (ks : List String) (d : Dict String (CacheEntry V))
      → length d ≤ most
      → IsDistinct d
      → (length (delete_keys ks d).0 ≤ most) × IsDistinct (delete_keys ks d).0
  unfolding delete_keys
  delete_keys-Fits most [] d few h = (few, h)
  delete_keys-Fits most (k ∷ ks) d few h =
      delete_keys-Fits most ks (Dict.remove k d) (omega (arith, length-remove-le k d))
        (remove-IsDistinct k d h)

  step-FitsIn :
      (most : ℕ) (c : Call V) (m : ResilientCacheManager V)
      → 1 ≤ most
      → FitsIn most m
      → FitsIn most (step c m)
  unfolding step invalidate clear
  step-FitsIn most (set k e failure) m big fits =
      let (good, within, same) = set-Fits k e failure m (omega (arith, big, fits.1)) fits.0 in
      (within, same ∙ fits.1)
  step-FitsIn most (get read now failed_at k reply) m big fits =
      get-FitsIn most read now failed_at k reply m big fits
  step-FitsIn most (drop k failure) m big fits =
      same-FitsIn most dropped (delete_redis failure dropped) (delete_redis-l1 failure dropped).0
        (delete_redis-l1 failure dropped).2 (drop_key-FitsIn most false k m fits)
    where
      dropped : ResilientCacheManager V
      dropped = record (drop_key false k m) {
        invalidations = (drop_key false k m).invalidations + 1;
      }
  step-FitsIn most (drop_tag tag failure) m big fits =
      same-FitsIn most
        (record m { l1_cache = (delete_keys (keys_of tag m.tag_to_keys) m.l1_cache).0 })
        (invalidate_by_tag tag failure m).0 (invalidate_by_tag-l1 tag failure m).0
        (invalidate_by_tag-l1 tag failure m).2
        (
          delete_keys-Fits m.max_l1_items (keys_of tag m.tag_to_keys) m.l1_cache fits.0.0 fits.0.1,
          fits.1,
        )
  step-FitsIn most drop_all m big fits = ((omega arith, tt), fits.1)

  -- With a positive maximum, no calls bring a first tier that is within it over it, nor a key twice into
  -- it, whatever Redis does and whatever the clocks read.
  pub run-FitsIn :
      (most : ℕ) (cs : List (Call V)) (m : ResilientCacheManager V)
      → 1 ≤ most
      → FitsIn most m
      → FitsIn most (run cs m)
  unfolding run
  run-FitsIn most [] m big fits = fits
  run-FitsIn most (c ∷ cs) m big fits =
      run-FitsIn most cs (step c m) big (step-FitsIn most c m big fits)
