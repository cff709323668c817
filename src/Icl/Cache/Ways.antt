-- ===== src/Icl/Cache/Ways.antt =====
-- icl/generic_cache.cc: getEmptyWay(), getValidWay(), and the functions that the eviction policies
-- choose: the victim in a set, and the better victim of two lines.
use simple_ssd.Base.{
  ℕ, ◌+◌, ◌*◌, Bool, true, not, ◌&&◌, List, [], ◌∷◌, Option, none, some, ltb, ◌==◌, if◌then◌else◌,
}
use simple_ssd.Icl.Cache.State.{
  Line, Policy, fifo, least_recently_used, Place, Cache, max64, set_of, line_at, cache_latency,
  calc_set_index,
}

-- The loop of getEmptyWay() and of `evictFunction`, from way `i`: the line with the least key of those
-- that are looked at, its key, and the tick.
unfoldable pub least_way : (Line → Bool) → (Line → ℕ) → ℕ → List Line → ℕ → ℕ → ℕ → ℕ → ℕ × ℕ
least_way seen key cost [] i least found tick = (found, tick)
least_way seen key cost (x ∷ xs) i least found tick =
    let better = seen x && ltb (key x) least in
    least_way seen key cost xs (i + 1) (if better then key x else least)
      (if better then i else found) (if seen x then tick + cost else tick)

abbrev pub is_empty : Line → Bool
is_empty x = not x.valid

abbrev pub inserted : Line → ℕ
inserted x = x.inserted_at

-- getEmptyWay(setIdx, tick)
unfoldable pub get_empty_way : Cache → ℕ → ℕ → ℕ × ℕ
get_empty_way c i tick =
    least_way is_empty inserted (cache_latency c.geometry * 8) (set_of c i) 0 max64
      c.geometry.way_size tick

-- The loop of getValidWay(), from way `i`.
unfoldable pub valid_way : ℕ → ℕ → List Line → ℕ → ℕ → ℕ × ℕ
valid_way cost lca [] i tick = (i, tick)
valid_way cost lca (x ∷ xs) i tick =
    let rest = valid_way cost lca xs (i + 1) (tick + cost) in
    if x.valid && x.tag == lca then (i, tick + cost) else rest

-- getValidWay(lca, tick)
unfoldable pub get_valid_way : Cache → ℕ → ℕ → ℕ × ℕ
get_valid_way c lca tick =
    valid_way (cache_latency c.geometry * 8) lca (set_of c (calc_set_index c.geometry lca)) 0 tick

-- What a policy compares.
abbrev pub stamp : Policy → Line → ℕ
stamp fifo x = x.inserted_at
stamp least_recently_used x = x.last_accessed

abbrev pub any_line : Line → Bool
any_line x = true

-- evictFunction(setIdx, tick)
unfoldable pub evict_way : Cache → ℕ → ℕ → ℕ × ℕ
evict_way c i tick =
    least_way any_line (stamp c.geometry.conf.policy) (cache_latency c.geometry * 8) (set_of c i) 0
      max64 0 tick

-- compareFunction(a, b)
unfoldable pub compare_lines : Cache → Option Place → Option Place → Option Place
compare_lines c none b = b
compare_lines c (some a) none = some a
compare_lines c (some a) (some b) =
    let older = λ (x : Place). stamp c.geometry.conf.policy (line_at c x) in
    if ltb (older a) (older b) then some a else some b
