-- ===== src/RateLimit.antt =====
-- docker/sidecar/pkg/middleware/ratelimiter: the sliding window and the repository of hits that
-- it keeps in memory (repository/memory.go). Instants are nanoseconds, counted from the least
-- int64, so every int64 is a natural number here and the order is the same.
pub mod Search
pub mod Hits
pub mod Limiter
use service_mesh.Base.{
  ℕ, zero, suc, ◌+◌, ◌-◌, ◌/◌, ◌^◌, String, Bool, true, false, Option, none, some, List, [], ◌∷◌,
  ◌++◌, ltb, leb, if◌then◌else◌, str_eq, ◌<>◌, length, take, drop, get_elem?,
}
use service_mesh.Base.Table.{Table, find, put, delete}

-- time.Time{}.UnixNano(): the instant lies before all that an int64 holds, and wraps around.
abbrev pub zero_time : ℕ
zero_time = 2 ^ 63 - 6795364578871345152

-- InMemory, with its maps.
pub record InMemory : Type 0 where
  pub hits : Table (List ℕ)  -- data
  pub expires : Table ℕ

abbrev pub new_in_memory : InMemory
new_in_memory = record { hits = []; expires = [] }

-- The loop of sort.Search between `i` and `j`, which halves the range in each round.
unfoldable pub search_loop : (ℕ → Bool) → ℕ → ℕ → ℕ → ℕ
search_loop f zero i j = i
search_loop f (suc fuel) i j =
    let h = (i + j) / 2 in
    let right = search_loop f fuel (h + 1) j in
    let left = search_loop f fuel i h in if ltb i j then (if f h then left else right) else i

-- sort.Search.
unfoldable pub search_index : ℕ → (ℕ → Bool) → ℕ
unfolding search_loop
search_index n f = search_loop f n 0 n

-- slice[i] >= x and slice[i] > x, where the search asks only for indices of the slice.
abbrev pub reaches : List ℕ → ℕ → ℕ → Bool
reaches slice x i = elim (get_elem? slice i) [ none ↦ true | some y ↦ leb x y ]

abbrev pub exceeds : List ℕ → ℕ → ℕ → Bool
exceeds slice x i = elim (get_elem? slice i) [ none ↦ true | some y ↦ ltb x y ]

-- The insertion of `AddRecord`: a place is made at the index, and filled.
unfoldable pub insert_hit : ℕ → List ℕ → List ℕ
insert_hit unix slice =
    let i = search_index (length slice) (reaches slice unix) in take i slice ++ unix ∷ drop i slice

-- The removal of `RemoveOldRecords`.
unfoldable pub remove_hits : ℕ → ℕ → List ℕ → List ℕ
remove_hits lo hi slice =
    let start = search_index (length slice) (reaches slice lo) in
    let end = search_index (length slice) (exceeds slice hi) in take start slice ++ drop end slice

-- isExpired at the instant `now`: an expired key is dropped.
unfoldable pub is_expired : String → ℕ → InMemory → Bool
is_expired key now r = elim (find key r.expires) [ none ↦ false | some exp ↦ ltb exp now ]

unfoldable pub forget : String → InMemory → InMemory
forget key r = record { hits = delete key r.hits; expires = delete key r.expires }

-- m.data[key], which is the empty slice where there is none.
unfoldable pub hits_of : String → InMemory → List ℕ
hits_of key r = elim (find key r.hits) [ none ↦ [] | some slice ↦ slice ]

-- The check on expiry that the first three operations begin with.
unfoldable pub sweep : String → ℕ → InMemory → InMemory
unfolding is_expired forget
sweep key now r = if is_expired key now r then forget key r else r

unfoldable pub add_record : String → ℕ → ℕ → InMemory → InMemory
unfolding sweep insert_hit hits_of
add_record key tm now r =
    let s = sweep key now r in record s { hits = put key (insert_hit tm (hits_of key s)) s.hits }

unfoldable pub count_records : String → ℕ → InMemory → ℕ × InMemory
unfolding sweep hits_of
count_records key now r =
    let s = sweep key now r in (if is_expired key now r then 0 else length (hits_of key s), s)

unfoldable pub remove_old_records : String → ℕ → ℕ → ℕ → InMemory → InMemory
unfolding sweep remove_hits hits_of
remove_old_records key from to now r =
    if is_expired key now r
    then forget key r
    else record r { hits = put key (remove_hits from to (hits_of key r)) r.hits }

unfoldable pub expire_key : String → ℕ → ℕ → InMemory → InMemory
expire_key key ttl now r = record r { expires = put key (now + ttl) r.expires }
