-- ===== src/Cache/Resilience.antt =====
-- src/amberclaw/cache/resilience.py: the in-memory tier of the cache with its tag index, and the state
-- of the Redis tier. What Redis answers to a call is an argument. Values are of any type, times are
-- natural numbers; a set of tags or keys is a list.
use amber_claw.Base.{
  ℕ, ◌+◌, Bool, true, false, not, ◌&&◌, Option, none, some, String, Result, ok, raise, leb, ltb,
  length, if◌then◌else◌, List, [], ◌∷◌, ◌++◌, filter,
}
use amber_claw.Base.Dict
use amber_claw.Base.Dict.{Dict, get_or, is_some}
use amber_claw.Base.Key.{text_key, ◌==◌, contains}
pub mod Index
pub mod Tags
pub mod Invalidation
pub mod Bounds
pub mod Capacity

pub data CacheState : Type 0 where
  normal degraded recovering : CacheState

pub record CacheEntry (V : Type 0) : Type 0 where
  pub value : V
  pub created_at : ℕ
  pub ttl_seconds : Option ℕ
  pub tags : List String

abbrev pub is_over : ℕ → ℕ → Option ℕ → Bool
is_over now created none = false
is_over now created (some ttl) = leb (created + ttl) now

pub record ResilientCacheManager (V : Type 0) : Type 0 where
  pub has_redis : Bool
  pub max_l1_items : ℕ
  pub failure_threshold : ℕ
  pub recovery_probe_interval : ℕ
  pub l1_cache : Dict String (CacheEntry V)
  pub tag_to_keys : Dict String (List String)
  pub state : CacheState
  pub consecutive_redis_failures : ℕ
  pub last_failure_time : ℕ
  pub hits : ℕ
  pub misses : ℕ
  pub l1_hits : ℕ
  pub l2_hits : ℕ
  pub redis_errors : ℕ
  pub fallback_events : ℕ
  pub invalidations : ℕ

pub data Error : Type 0 where
  key_error : Error

abbrev pub is_degraded : CacheState → Bool
is_degraded degraded = true
is_degraded _ = false

abbrev pub discard : String → List String → List String
discard k = filter (λ j. not (j == k))

abbrev pub add : String → List String → List String
add k ks = if contains k ks then ks else ks ++ k ∷ []

abbrev pub is_empty : List String → Bool
is_empty [] = true
is_empty (k ∷ ks) = false

abbrev pub keys_of : String → Dict String (List String) → List String
keys_of tag index = get_or [] (Dict.get tag index)

-- The loop over the tags of an entry that goes; `prunes` is whether an empty set goes as well.
unfoldable pub untag :
    Bool → String → List String → Dict String (List String) → Dict String (List String)
untag prunes k [] index = index
untag prunes k (t ∷ ts) index =
    let ks = discard k (keys_of t index) in
    untag prunes k ts (
      if not (Dict.has t index)
      then index
      else if prunes && is_empty ks
      then Dict.remove t index
      else Dict.set t ks index)

-- The loop over the tags of an entry that comes.
unfoldable pub add_tags :
    String → List String → Dict String (List String) → Dict String (List String)
add_tags k [] index = index
add_tags k (t ∷ ts) index = add_tags k ts (Dict.set t (add k (keys_of t index)) index)

-- What Redis answers to a read: an error at a time, nothing, or a value with its tags, which gets the
-- time of creation given.
pub data Reply (V : Type 0) : Type 0 where
  failed : ℕ → Reply V
  missing : Reply V
  found : V → List String → ℕ → Reply V

module _ {V : Type 0} where
  abbrev pub is_expired : ℕ → CacheEntry V → Bool
  is_expired now e = is_over now e.created_at e.ttl_seconds

  abbrev pub tags_of : Option (CacheEntry V) → List String
  tags_of none = []
  tags_of (some e) = e.tags

  unfoldable pub on_redis_failure : ℕ → ResilientCacheManager V → ResilientCacheManager V
  on_redis_failure now m =
      let m' = record m {
        redis_errors = m.redis_errors + 1;
        consecutive_redis_failures = m.consecutive_redis_failures + 1;
        last_failure_time = now;
      } in
      if leb m.failure_threshold (m.consecutive_redis_failures + 1) && not (is_degraded m.state)
      then record m' { state = degraded; fallback_events = m.fallback_events + 1 }
      else m'

  unfoldable pub on_redis_success : ResilientCacheManager V → ResilientCacheManager V
  on_redis_success m =
      if not (is_degraded m.state) && leb m.consecutive_redis_failures 0
      then m
      else record m { state = normal; consecutive_redis_failures = 0 }

  -- Takes an entry and its tags out of the first tier.
  unfoldable pub drop_key : Bool → String → ResilientCacheManager V → ResilientCacheManager V
  drop_key prunes k m = record m {
    l1_cache = Dict.remove k m.l1_cache;
    tag_to_keys = untag prunes k (tags_of (Dict.get k m.l1_cache)) m.tag_to_keys;
  }

  -- The loop of `_evict_l1_lru_if_needed` over the keys, the oldest first; `popitem` raises on an empty
  -- dictionary.
  unfoldable pub evict :
      List String → ResilientCacheManager V → ResilientCacheManager V × Result Error (Unit {0})
  evict [] m = (m, if leb m.max_l1_items (length m.l1_cache) then raise key_error else ok tt)
  evict (k ∷ ks) m =
      let rest = evict ks (drop_key true k m) in
      if leb m.max_l1_items (length m.l1_cache) then rest else (m, ok tt)

  abbrev pub evict_l1_lru_if_needed :
      ResilientCacheManager V → ResilientCacheManager V × Result Error (Unit {0})
  evict_l1_lru_if_needed m = evict (Dict.keys m.l1_cache) m

  -- `self._l1_cache[key] = entry` and the tags; the key is not in the tier.
  unfoldable pub put : String → CacheEntry V → ResilientCacheManager V → ResilientCacheManager V
  put k e m = record m {
    l1_cache = Dict.set k e m.l1_cache;
    tag_to_keys = add_tags k e.tags m.tag_to_keys;
  }

  -- A call of Redis whose answer is not used: it may fail, at a time.
  abbrev pub noted : Option ℕ → ResilientCacheManager V → ResilientCacheManager V
  noted none m = m
  noted (some at) m = on_redis_failure at m

  abbrev pub write_through : Option ℕ → ResilientCacheManager V → ResilientCacheManager V
  write_through failure m =
      if not (m.has_redis && not (is_degraded m.state))
      then m
      else if is_some failure
      then noted failure m
      else on_redis_success m

  abbrev pub set_room :
      String
      → CacheEntry V
      → Option ℕ
      → ResilientCacheManager V × Result Error (Unit {0})
      → ResilientCacheManager V × Result Error (Unit {0})
  set_room k e failure (m, raise error) = (m, raise error)
  set_room k e failure (m, ok _) = (write_through failure (put k e m), ok tt)

  -- `failure` is the time at which the write to Redis fails, if it does.
  unfoldable pub set :
      String
      → CacheEntry V
      → Option ℕ
      → ResilientCacheManager V
      → ResilientCacheManager V × Result Error (Unit {0})
  set k e failure m = set_room k e failure (
      if Dict.has k m.l1_cache
      then (record m { l1_cache = Dict.remove k m.l1_cache }, ok tt)
      else evict_l1_lru_if_needed m)

  abbrev pub miss : ResilientCacheManager V → ResilientCacheManager V × Option V
  miss m = (record m { misses = m.misses + 1 }, none)

  -- A promotion; the error of an eviction is handled as one of Redis, at `failed_at`.
  abbrev pub promoted :
      ℕ
      → String
      → CacheEntry V
      → ResilientCacheManager V × Result Error (Unit {0})
      → ResilientCacheManager V × Option V
  promoted failed_at k e (m, raise error) = miss (on_redis_failure failed_at m)
  promoted failed_at k e (m, ok _) =
      let m' = put k e m in
      (on_redis_success (record m' { hits = m'.hits + 1; l2_hits = m'.l2_hits + 1 }), some e.value)

  abbrev pub on_reply :
      ℕ → String → Reply V → ResilientCacheManager V → ResilientCacheManager V × Option V
  on_reply failed_at k (failed at) m = miss (on_redis_failure at m)
  on_reply failed_at k missing m = miss m
  on_reply failed_at k (found v tags created) m =
      promoted failed_at k
        (record { value = v; created_at = created; ttl_seconds = none; tags = tags })
        (evict_l1_lru_if_needed m)

  -- The part of `get` after the first tier; `now` is the reading of the probe.
  unfoldable pub get_l2 :
      ℕ → ℕ → String → Reply V → ResilientCacheManager V → ResilientCacheManager V × Option V
  get_l2 now failed_at k reply m =
      let probes =
        is_degraded m.state && ltb (m.last_failure_time + m.recovery_probe_interval) now in
      if m.has_redis
      then on_reply failed_at k reply (record m { state = if probes then recovering else m.state })
      else miss m

  -- A hit in the first tier moves the entry to the end.
  abbrev pub hit :
      String → CacheEntry V → ResilientCacheManager V → ResilientCacheManager V × Option V
  hit k e m = (
    record m {
      l1_cache = Dict.set k e (Dict.remove k m.l1_cache);
      hits = m.hits + 1;
      l1_hits = m.l1_hits + 1;
    },
    some e.value,
  )

  abbrev pub get_entry :
      ℕ
      → ℕ
      → ℕ
      → String
      → Reply V
      → ResilientCacheManager V
      → Option (CacheEntry V)
      → ResilientCacheManager V × Option V
  get_entry read now failed_at k reply m none = get_l2 now failed_at k reply m
  get_entry read now failed_at k reply m (some e) =
      if is_expired read e then get_l2 now failed_at k reply (drop_key false k m) else hit k e m

  -- `read` is the clock of the expiry check.
  unfoldable pub get :
      ℕ → ℕ → ℕ → String → Reply V → ResilientCacheManager V → ResilientCacheManager V × Option V
  get read now failed_at k reply m = get_entry read now failed_at k reply m (Dict.get k m.l1_cache)

  abbrev pub delete_redis : Option ℕ → ResilientCacheManager V → ResilientCacheManager V
  delete_redis failure m = if m.has_redis then noted failure m else m

  unfoldable pub invalidate : String → Option ℕ → ResilientCacheManager V → ResilientCacheManager V
  invalidate k failure m =
      let m' = drop_key false k m in
      delete_redis failure (record m' { invalidations = m'.invalidations + 1 })

  -- The loop over the keys of a tag, and how many of them the first tier had.
  unfoldable pub delete_keys :
      List String → Dict String (CacheEntry V) → Dict String (CacheEntry V) × ℕ
  delete_keys [] cache = (cache, 0)
  delete_keys (k ∷ ks) cache =
      let (cache', n) = delete_keys ks (Dict.remove k cache) in
      (cache', if Dict.has k cache then n + 1 else n)

  -- The deletions in Redis; `failure` is when the one of a key fails, if it does.
  unfoldable pub delete_all :
      List String → (String → Option ℕ) → ResilientCacheManager V → ResilientCacheManager V
  delete_all [] failure m = m
  delete_all (k ∷ ks) failure m = delete_all ks failure (delete_redis (failure k) m)

  unfoldable pub invalidate_by_tag :
      String → (String → Option ℕ) → ResilientCacheManager V → ResilientCacheManager V × ℕ
  invalidate_by_tag tag failure m =
      let ks = keys_of tag m.tag_to_keys in
      let (cache, n) = delete_keys ks m.l1_cache in
      let m' = record m { l1_cache = cache; tag_to_keys = Dict.remove tag m.tag_to_keys } in
      let m'' = delete_all ks failure m' in
      (record m'' { invalidations = m''.invalidations + n }, n)

  unfoldable pub clear : ResilientCacheManager V → ResilientCacheManager V
  clear m = record m { l1_cache = []; tag_to_keys = [] }
