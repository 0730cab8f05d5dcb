-- ===== src/RateLimit/Limiter.antt =====
-- docker/sidecar/pkg/middleware/ratelimiter/reatelimiter.go over a repository, and the repository
-- in memory as one.
pub mod Recent
pub mod Sliding
pub mod Lasting
pub mod Admitting
pub mod Promise
pub mod Budget
use service_mesh.Base.{
  ℕ, ◌-◌, String, Bool, true, false, Option, none, some, List, [], ◌∷◌, leb, if◌then◌else◌, str_eq,
  ◌<>◌, split_on,
}
use service_mesh.RateLimit.{
  InMemory, zero_time, add_record, count_records, remove_old_records, expire_key,
}

-- repository.Repository over its state; `true`, and `none` for the count, is an error. The last
-- number of each operation is the clock when it reads it.
pub record Repository (S : Type 0) : Type 0 where
  pub remove_old : String → ℕ → ℕ → ℕ → S → Bool × S
  pub count : String → ℕ → S → Option ℕ × S
  pub add : String → ℕ → ℕ → S → Bool × S
  pub expire : String → ℕ → ℕ → S → Bool × S

abbrev pub in_memory : Repository InMemory
in_memory = record {
  remove_old = λ key from to now s. (false, remove_old_records key from to now s);
  count = λ key now s. let (n, s1) = count_records key now s in (some n, s1);
  add = λ key tm now s. (false, add_record key tm now s);
  expire = λ key ttl now s. (false, expire_key key ttl now s);
}

-- A negative `MaxHits` lets nothing through, as 0 does.
pub record Config : Type 0 where
  pub name : String
  pub max_hits : ℕ
  pub window : ℕ

-- What the limiter reads of a request: the path, the header "X-Forwarded-For" ("" where there is
-- none), the remote address, and the host that net.SplitHostPort finds in it.
pub record Request : Type 0 where
  pub path : String
  pub forwarded : String
  pub remote_addr : String
  pub remote_host : Option String

first_part : List String → String
first_part [] = ""
first_part (part ∷ parts) = part

unfoldable pub get_client_ip : Request → String
unfolding first_part
get_client_ip r =
    if str_eq r.forwarded ""
    then elim r.remote_host [ none ↦ r.remote_addr | some ip ↦ ip ]
    else first_part (split_on b',' r.forwarded)

unfoldable pub get_key : Request → String → String
get_key r name =
    if str_eq name ""
    then "ratelimiter:" <> r.path <> ":" <> get_client_ip r
    else "ratelimiter:" <> r.path <> ":" <> name <> ":" <> get_client_ip r

-- What becomes of a request: it goes on to the next handler, or is answered with a status, which
-- metrics.IncTotalRequests counts then.
pub data Verdict : Type 0 where
  passes too_many_requests internal_server_error : Verdict

-- The clock when the handler starts, and when each operation of the repository reads it.
pub record Instants : Type 0 where
  pub start : ℕ
  pub at_remove : ℕ
  pub at_count : ℕ
  pub at_add : ℕ
  pub at_expire : ℕ

abbrev pub at_once : ℕ → Instants
at_once now = record { start = now; at_remove = now; at_count = now; at_add = now; at_expire = now }

module _ {S : Type 0} (repo : Repository S) (cfg : Config) (key : String) (t : Instants) where
  expire_hits : Bool × S → Verdict × S
  expire_hits (true, s) = (internal_server_error, s)
  expire_hits (false, s) = (passes, s)

  add_hit : Bool × S → Verdict × S
  unfolding expire_hits
  add_hit (true, s) = (internal_server_error, s)
  add_hit (false, s) = expire_hits (repo.expire key cfg.window t.at_expire s)

  judge : Option ℕ × S → Verdict × S
  unfolding add_hit
  judge (none, s) = (internal_server_error, s)
  judge (some n, s) =
      if leb cfg.max_hits n
      then (too_many_requests, s)
      else add_hit (repo.add key t.start t.at_add s)

  count_hits : Bool × S → Verdict × S
  unfolding judge
  count_hits (true, s) = (internal_server_error, s)
  count_hits (false, s) = judge (repo.count key t.at_count s)

  -- The handler from the removal of old records on.
  unfoldable pub check_hits : S → Verdict × S
  unfolding count_hits
  check_hits s = count_hits (repo.remove_old key zero_time (t.start - cfg.window) t.at_remove s)

unfoldable pub sliding_window :
    {S : Type 0} → Repository S → Config → Request → Instants → S → Verdict × S
unfolding check_hits
sliding_window repo cfg r t s =
    if str_eq r.path "/metrics" then (passes, s) else check_hits repo cfg (get_key r cfg.name) t s
