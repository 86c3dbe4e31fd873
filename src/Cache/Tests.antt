-- ===== src/Cache/Tests.antt =====
-- Runs of src/amberclaw/cache, and its theorems at them.
use amber_claw.Base.{ℕ, ◌≡◌, refl, ◌⊎◌, true, false, none, some, String, raise, List, [], ◌∷◌}
use amber_claw.Base.Dict
use amber_claw.Base.Key.{text_key, contains}
use amber_claw.Cache.Resilience
use amber_claw.Cache.Resilience.{
  CacheEntry, ResilientCacheManager, normal, degraded, key_error, tags_of, untag, add_tags,
  on_redis_failure, on_redis_success, drop_key, evict, put, get_l2, invalidate, delete_keys,
  delete_all, invalidate_by_tag, clear, Reply,
}
use amber_claw.Cache.Resilience.Index.{listed}
use amber_claw.Cache.Resilience.Invalidation.{Call, set, get, step, run, invalidate_by_tag-run}

program : Unit {0}
unfolding Dict.get Dict.set Dict.remove contains untag add_tags on_redis_failure on_redis_success
    drop_key evict put get_l2 invalidate delete_keys delete_all invalidate_by_tag clear
    Resilience.set Resilience.get step run
program = tt

abbrev entry : ℕ → List String → CacheEntry ℕ
entry v tags = record { value = v; created_at = 0; ttl_seconds = some 10; tags = tags }

abbrev empty : ℕ → ResilientCacheManager ℕ
empty most = record {
  has_redis = true;
  max_l1_items = most;
  failure_threshold = 1;
  recovery_probe_interval = 30;
  l1_cache = [];
  tag_to_keys = [];
  state = normal;
  consecutive_redis_failures = 0;
  last_failure_time = 0;
  hits = 0;
  misses = 0;
  l1_hits = 0;
  l2_hits = 0;
  redis_errors = 0;
  fallback_events = 0;
  invalidations = 0;
}

-- The second write fails in Redis, which degrades the cache.
abbrev calls : List (Call ℕ)
calls =
    set "k1" (entry 1 ("a" ∷ [])) none
    ∷ set "k2" (entry 2 ("a" ∷ "b" ∷ [])) (some 5)
    ∷ get 3 3 3 "k1" Reply.missing
    ∷ set "k3" (entry 3 ("b" ∷ [])) none
    ∷ []

-- The read makes the second entry the oldest.
least_recent_gone : Dict.has "k2" (run calls (empty 2)).l1_cache ≡ false
unfolding program
least_recent_gone = refl

degraded_after : (run calls (empty 2)).state ≡ degraded
unfolding program
degraded_after = refl

read_expired : (Resilience.get 10 10 10 "k1" Reply.missing (run calls (empty 2))).1 ≡ none
unfolding program
read_expired = refl

read_promoted : (Resilience.get 9 40 40 "k9" (Reply.found 7 [] 40) (run calls (empty 2))).1 ≡ some 7
unfolding program
read_promoted = refl

-- An entry that is written anew with other tags stays listed under its old tag.
abbrev retagged : ResilientCacheManager ℕ
retagged =
    run (set "k" (entry 1 ("a" ∷ [])) none ∷ set "k" (entry 2 ("b" ∷ [])) none ∷ []) (empty 2)

retagged_dropped : (invalidate_by_tag "a" (λ k. none) retagged).1 ≡ 1
unfolding program
retagged_dropped = refl

-- A cache without room raises on its first write.
no_room : (Resilience.set "k" (entry 1 []) none (empty 0)).1 ≡ raise key_error
unfolding program
no_room = refl

invalidate_by_tag-run_example :
    (contains "a" (
        tags_of
          (Dict.get "k1" (invalidate_by_tag "a" (λ k. none) (run calls (empty 2))).0.l1_cache))
      ≡ false)
    × ((Dict.get "k1" (invalidate_by_tag "a" (λ k. none) (run calls (empty 2))).0.l1_cache
          ≡ Dict.get "k1" (run calls (empty 2)).l1_cache)
        ⊎ (listed "k1" "a" (run calls (empty 2)).tag_to_keys ≡ true))
invalidate_by_tag-run_example = invalidate_by_tag-run calls (empty 2) "a" "k1" (λ k. none) refl
