-- ===== src/Cache/Resilience/Tags.antt =====
-- Invalidation by tag in cache/resilience.py: the tag index knows every tagged entry.
use amber_claw.Base.{
  ℕ, ◌≡◌, Bool, true, false, not, ◌&&◌, Option, none, some, String, Result, ok, raise, List, [],
  ◌∷◌, arith, if◌then◌else◌, Bool-cases, inl, inr, leb, length,
}
use amber_claw.Base.Dict
use amber_claw.Base.Dict.{Dict, get-set, get-remove}
use amber_claw.Base.Key.{text_key, contains}
use amber_claw.Cache.Resilience.{
  CacheEntry, ResilientCacheManager, Reply, tags_of, keys_of, untag, add_tags, drop_key, evict,
  evict_l1_lru_if_needed, put, on_redis_failure, on_redis_success, noted, write_through, set_room,
  promoted, on_reply, get_l2, get_entry, hit, miss, delete_redis, delete_keys, delete_all,
  invalidate, invalidate_by_tag, clear,
}
use amber_claw.Cache.Resilience
use amber_claw.Cache.Resilience.Index.{contains_none, listed, listed-untag, listed-add_tags}

module _ {V : Type 0} where
  -- Every key is listed under the tags of its entry.
  abbrev pub Sound : Dict String (CacheEntry V) → Dict String (List String) → Type 0
  Sound cache index =
      (k tag : String)
      → contains tag (tags_of (Dict.get k cache)) ≡ true
      → listed k tag index ≡ true

  abbrev pub IsIndexed : ResilientCacheManager V → Type 0
  IsIndexed m = Sound m.l1_cache m.tag_to_keys

  pub drop_key-IsIndexed :
      (prunes : Bool) (k : String) (m : ResilientCacheManager V)
      → IsIndexed m
      → IsIndexed (drop_key prunes k m)
  unfolding drop_key
  drop_key-IsIndexed prunes k m h j tag = ground (
    arith,
    h j tag,
    contains_none tag,
    get-remove k j m.l1_cache,
    text_key.same_key_iff k j,
    listed-untag prunes k j tag (tags_of (Dict.get k m.l1_cache)) m.tag_to_keys,
  )

  remove-Sound :
      (k : String) (cache : Dict String (CacheEntry V)) (index : Dict String (List String))
      → Sound cache index
      → Sound (Dict.remove k cache) index
  remove-Sound k cache index h j tag =
      ground (arith, h j tag, contains_none tag, get-remove k j cache)

  evict-IsIndexed :
      (ks : List String) (m : ResilientCacheManager V) → IsIndexed m → IsIndexed (evict ks m).0
  unfolding evict
  evict-IsIndexed [] m h = h
  evict-IsIndexed (k ∷ ks) m h = elim (Bool-cases (leb m.max_l1_items (length m.l1_cache))) [
    | inl e ↦ rw e (evict-IsIndexed ks (drop_key true k m) (drop_key-IsIndexed true k m h))
    | inr e ↦ rw e h
  ]

  put-IsIndexed :
      (k : String) (e : CacheEntry V) (m : ResilientCacheManager V)
      → IsIndexed m
      → IsIndexed (put k e m)
  unfolding put
  put-IsIndexed k e m h j tag =
      ground
        (arith, h j tag, get-set k j e m.l1_cache, listed-add_tags k j tag e.tags m.tag_to_keys)

  -- The state of the Redis tier does not touch the first one.
  failure-l1 :
      (now : ℕ) (m : ResilientCacheManager V) → IsIndexed m → IsIndexed (on_redis_failure now m)
  unfolding on_redis_failure
  failure-l1 now m h j tag = ground (arith, h j tag)

  success-l1 : (m : ResilientCacheManager V) → IsIndexed m → IsIndexed (on_redis_success m)
  unfolding on_redis_success
  success-l1 m h j tag = ground (arith, h j tag)

  noted-l1 :
      (failure : Option ℕ) (m : ResilientCacheManager V) → IsIndexed m → IsIndexed (noted failure m)
  noted-l1 none m h = h
  noted-l1 (some at) m h = failure-l1 at m h

  write_through-IsIndexed :
      (failure : Option ℕ) (m : ResilientCacheManager V)
      → IsIndexed m
      → IsIndexed (write_through failure m)
  write_through-IsIndexed none m h =
      elim (Bool-cases (m.has_redis && not (Resilience.is_degraded m.state))) [
        | inl e ↦ rw e (success-l1 m h)
        | inr e ↦ rw e h
      ]
  write_through-IsIndexed (some at) m h =
      elim (Bool-cases (m.has_redis && not (Resilience.is_degraded m.state))) [
        | inl e ↦ rw e (failure-l1 at m h)
        | inr e ↦ rw e h
      ]

  set_room-IsIndexed :
      (k : String) (e : CacheEntry V) (failure : Option ℕ)
      (r : ResilientCacheManager V × Result Resilience.Error (Unit {0}))
      → IsIndexed r.0
      → IsIndexed (set_room k e failure r).0
  set_room-IsIndexed k e failure (m, raise error) h = h
  set_room-IsIndexed k e failure (m, ok _) h =
      write_through-IsIndexed failure (put k e m) (put-IsIndexed k e m h)

  pub set-IsIndexed :
      (k : String) (e : CacheEntry V) (failure : Option ℕ) (m : ResilientCacheManager V)
      → IsIndexed m
      → IsIndexed (Resilience.set k e failure m).0
  unfolding Resilience.set
  set-IsIndexed k e failure m h = elim (Bool-cases (Dict.has k m.l1_cache)) [
    | inl old ↦ rw old (
        set_room-IsIndexed k e failure (record m { l1_cache = Dict.remove k m.l1_cache }, ok tt)
          (remove-Sound k m.l1_cache m.tag_to_keys h))
    | inr new ↦
        rw new (set_room-IsIndexed k e failure (evict_l1_lru_if_needed m) (evict-IsIndexed _ m h))
  ]

  promoted-IsIndexed :
      (failed_at : ℕ) (k : String) (e : CacheEntry V)
      (r : ResilientCacheManager V × Result Resilience.Error (Unit {0}))
      → IsIndexed r.0
      → IsIndexed (promoted failed_at k e r).0
  promoted-IsIndexed failed_at k e (m, raise error) h = failure-l1 failed_at m h
  promoted-IsIndexed failed_at k e (m, ok _) h = success-l1 _ (put-IsIndexed k e m h)

  on_reply-IsIndexed :
      (failed_at : ℕ) (k : String) (reply : Reply V) (m : ResilientCacheManager V)
      → IsIndexed m
      → IsIndexed (on_reply failed_at k reply m).0
  on_reply-IsIndexed failed_at k (Reply.failed at) m h = failure-l1 at m h
  on_reply-IsIndexed failed_at k Reply.missing m h = h
  on_reply-IsIndexed failed_at k (Reply.found v tags created) m h =
      promoted-IsIndexed failed_at k _ (evict_l1_lru_if_needed m) (evict-IsIndexed _ m h)

  get_l2-IsIndexed :
      (now failed_at : ℕ) (k : String) (reply : Reply V) (m : ResilientCacheManager V)
      → IsIndexed m
      → IsIndexed (get_l2 now failed_at k reply m).0
  unfolding get_l2
  get_l2-IsIndexed now failed_at k reply m h = elim (Bool-cases m.has_redis) [
    | inl e ↦ rw e (on_reply-IsIndexed failed_at k reply _ h)
    | inr e ↦ rw e h
  ]

  hit-IsIndexed :
      (k : String) (e : CacheEntry V) (m : ResilientCacheManager V)
      → Dict.get k m.l1_cache ≡ some e
      → IsIndexed m
      → IsIndexed (hit k e m).0
  hit-IsIndexed k e m found h j tag = ground (
    arith,
    h j tag,
    found,
    get-set k j e (Dict.remove k m.l1_cache),
    get-remove k j m.l1_cache,
    text_key.same_key_iff k j,
  )

  pub get_entry-IsIndexed :
      (read now failed_at : ℕ) (k : String) (reply : Reply V) (m : ResilientCacheManager V)
      (o : Option (CacheEntry V))
      → Dict.get k m.l1_cache ≡ o
      → IsIndexed m
      → IsIndexed (get_entry read now failed_at k reply m o).0
  get_entry-IsIndexed read now failed_at k reply m none found h =
      get_l2-IsIndexed now failed_at k reply m h
  get_entry-IsIndexed read now failed_at k reply m (some e) found h =
      elim (Bool-cases (Resilience.is_expired read e)) [
        | inl over ↦ rw over (
            get_l2-IsIndexed now failed_at k reply (drop_key false k m)
              (drop_key-IsIndexed false k m h))
        | inr live ↦ rw live (hit-IsIndexed k e m found h)
      ]

  either-IsIndexed :
      (b : Bool) (m n : ResilientCacheManager V)
      → IsIndexed m
      → IsIndexed n
      → IsIndexed (if b then m else n)
  either-IsIndexed true m n h g = h
  either-IsIndexed false m n h g = g

  pub delete_redis-IsIndexed :
      (failure : Option ℕ) (m : ResilientCacheManager V)
      → IsIndexed m
      → IsIndexed (delete_redis failure m)
  delete_redis-IsIndexed failure m h =
      either-IsIndexed m.has_redis (noted failure m) m (noted-l1 failure m h) h
