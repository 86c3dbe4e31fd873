-- ===== src/Cache/Resilience/Invalidation.antt =====
-- Runs of the cache of cache/resilience.py: after any calls, invalidation by tag is complete.
use amber_claw.Base.{
  ℕ, ◌∙◌, ◌≡◌, refl, ◌⊎◌, true, false, Option, none, some, String, List, [], ◌∷◌, arith,
  if◌then◌else◌,
}
use amber_claw.Base.Dict
use amber_claw.Base.Dict.{Dict, get-remove}
use amber_claw.Base.Key.{text_key, contains}
use amber_claw.Cache.Resilience
use amber_claw.Cache.Resilience.{
  CacheEntry, ResilientCacheManager, Reply, CacheState, tags_of, keys_of, drop_key, delete_redis,
  delete_keys, delete_all, noted, on_redis_failure, invalidate, invalidate_by_tag, clear,
}
use amber_claw.Cache.Resilience.Index.{contains_none, listed}
use amber_claw.Cache.Resilience.Tags.{
  Sound, IsIndexed, drop_key-IsIndexed, set-IsIndexed, get_entry-IsIndexed, delete_redis-IsIndexed,
}

-- The calls on the cache, with the clock readings and what Redis answers.
pub data Call (V : Type 0) : Type 0 where
  set : String → CacheEntry V → Option ℕ → Call V
  get : ℕ → ℕ → ℕ → String → Reply V → Call V
  drop : String → Option ℕ → Call V
  drop_tag : String → (String → Option ℕ) → Call V
  drop_all : Call V

module _ {V : Type 0} where
  unfoldable pub step : Call V → ResilientCacheManager V → ResilientCacheManager V
  step (set k e failure) m = (Resilience.set k e failure m).0
  step (get read now failed_at k reply) m = (Resilience.get read now failed_at k reply m).0
  step (drop k failure) m = invalidate k failure m
  step (drop_tag tag failure) m = (invalidate_by_tag tag failure m).0
  step drop_all m = clear m

  unfoldable pub run : List (Call V) → ResilientCacheManager V → ResilientCacheManager V
  run [] m = m
  run (c ∷ cs) m = run cs (step c m)

  get-delete_keys :
      (ks : List String) (j : String) (cache : Dict String (CacheEntry V))
      → Dict.get j (delete_keys ks cache).0 ≡ (if contains j ks then none else Dict.get j cache)
  unfolding delete_keys contains
  get-delete_keys [] j cache = refl
  get-delete_keys (k ∷ ks) j cache =
      ground (arith, get-delete_keys ks j (Dict.remove k cache), get-remove k j cache)

  delete_keys-Sound :
      (tag : String) (cache : Dict String (CacheEntry V)) (index : Dict String (List String))
      → Sound cache index
      → (k : String)
      → (contains tag (tags_of (Dict.get k (delete_keys (keys_of tag index) cache).0)) ≡ false)
  delete_keys-Sound tag cache index h k =
      ground (arith, h k tag, contains_none tag, get-delete_keys (keys_of tag index) k cache)

  by_tag-Sound :
      (tag : String) (cache : Dict String (CacheEntry V)) (index : Dict String (List String))
      → Sound cache index
      → Sound (delete_keys (keys_of tag index) cache).0 (Dict.remove tag index)
  by_tag-Sound tag cache index h k other = ground (
    arith,
    h k other,
    contains_none other,
    delete_keys-Sound tag cache index h k,
    get-delete_keys (keys_of tag index) k cache,
    get-remove tag other index,
    text_key.same_key_iff tag other,
  )

  pub delete_redis-l1 :
      (failure : Option ℕ) (m : ResilientCacheManager V)
      → ((delete_redis failure m).l1_cache ≡ m.l1_cache)
        × ((delete_redis failure m).tag_to_keys ≡ m.tag_to_keys)
        × ((delete_redis failure m).max_l1_items ≡ m.max_l1_items)
  unfolding on_redis_failure
  delete_redis-l1 none m = ground arith
  delete_redis-l1 (some at) m = ground arith

  -- The deletions in Redis leave the first tier alone.
  delete_all-l1 :
      (ks : List String) (failure : String → Option ℕ) (m : ResilientCacheManager V)
      → ((delete_all ks failure m).l1_cache ≡ m.l1_cache)
        × ((delete_all ks failure m).tag_to_keys ≡ m.tag_to_keys)
        × ((delete_all ks failure m).max_l1_items ≡ m.max_l1_items)
  unfolding delete_all
  delete_all-l1 [] failure m = (refl, refl, refl)
  delete_all-l1 (k ∷ ks) failure m = (
    (delete_all-l1 ks failure (delete_redis (failure k) m)).0 ∙ (delete_redis-l1 (failure k) m).0,
    (delete_all-l1 ks failure (delete_redis (failure k) m)).1 ∙ (delete_redis-l1 (failure k) m).1,
    (delete_all-l1 ks failure (delete_redis (failure k) m)).2 ∙ (delete_redis-l1 (failure k) m).2,
  )

  pub invalidate_by_tag-l1 :
      (tag : String) (failure : String → Option ℕ) (m : ResilientCacheManager V)
      → let m' = (invalidate_by_tag tag failure m).0 in
        (m'.l1_cache ≡ (delete_keys (keys_of tag m.tag_to_keys) m.l1_cache).0)
        × (m'.tag_to_keys ≡ Dict.remove tag m.tag_to_keys)
        × (m'.max_l1_items ≡ m.max_l1_items)
  unfolding invalidate_by_tag
  invalidate_by_tag-l1 tag failure m = delete_all-l1 (keys_of tag m.tag_to_keys) failure _

  empty-Sound :
      (cache : Dict String (CacheEntry V)) (index : Dict String (List String))
      → cache ≡ []
      → Sound cache index
  unfolding Dict.get
  empty-Sound [] index e k tag h = ground (arith, h, contains_none tag)
  empty-Sound (entry ∷ cache) index e k tag h = ground (arith, e)

  Sound-subst :
      (c d : Dict String (CacheEntry V)) (i j : Dict String (List String))
      → d ≡ c
      → j ≡ i
      → Sound c i
      → Sound d j
  Sound-subst c d i j e f h k tag = rw (e, f) (h k tag)

  step-IsIndexed : (c : Call V) (m : ResilientCacheManager V) → IsIndexed m → IsIndexed (step c m)
  unfolding step Resilience.get invalidate clear
  step-IsIndexed (set k e failure) m h = set-IsIndexed k e failure m h
  step-IsIndexed (get read now failed_at k reply) m h =
      get_entry-IsIndexed read now failed_at k reply m (Dict.get k m.l1_cache) refl h
  step-IsIndexed (drop k failure) m h =
      delete_redis-IsIndexed failure _ (drop_key-IsIndexed false k m h)
  step-IsIndexed (drop_tag tag failure) m h =
      Sound-subst _ _ _ _ (invalidate_by_tag-l1 tag failure m).0
        (invalidate_by_tag-l1 tag failure m).1 (by_tag-Sound tag m.l1_cache m.tag_to_keys h)
  step-IsIndexed drop_all m h = empty-Sound [] [] refl

  run-IsIndexed :
      (cs : List (Call V)) (m : ResilientCacheManager V) → IsIndexed m → IsIndexed (run cs m)
  unfolding run
  run-IsIndexed [] m h = h
  run-IsIndexed (c ∷ cs) m h = run-IsIndexed cs (step c m) (step-IsIndexed c m h)

  -- After any calls on an empty cache, invalidating a tag leaves no entry with the tag in the first tier,
  -- and every other entry is either kept or was listed under the tag.
  pub invalidate_by_tag-run :
      (cs : List (Call V)) (m : ResilientCacheManager V) (tag k : String)
      (failure : String → Option ℕ)
      → m.l1_cache ≡ []
      → let before = run cs m in
        let after = (invalidate_by_tag tag failure before).0 in
        (contains tag (tags_of (Dict.get k after.l1_cache)) ≡ false)
        × ((Dict.get k after.l1_cache ≡ Dict.get k before.l1_cache)
            ⊎ (listed k tag before.tag_to_keys ≡ true))
  invalidate_by_tag-run cs m tag k failure empty =
      rw ((invalidate_by_tag-l1 tag failure before).0) (
        delete_keys-Sound tag before.l1_cache before.tag_to_keys indexed k,
        ground (arith, get-delete_keys (keys_of tag before.tag_to_keys) k before.l1_cache),
      )
    where
      before : ResilientCacheManager V
      before = run cs m

      start : IsIndexed m
      start = empty-Sound m.l1_cache m.tag_to_keys empty

      indexed : IsIndexed before
      indexed = run-IsIndexed cs m start
