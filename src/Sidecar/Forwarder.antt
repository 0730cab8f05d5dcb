-- ===== src/Sidecar/Forwarder.antt =====
-- k8s/mesh/sidecar/internal/adapters/proxy/forwarder.go, and DialMTLS of mtls.go beside it: the
-- terminal handler of the chain. Sockets, TLS and HTTP are outside: their calls act on a state of a
-- type that is left open.
pub mod Handle
pub mod Peek
pub mod Dialed
pub mod Ends
pub mod Hidden
use service_mesh.Base.{
  ℕ, zero, suc, String, Bool, true, false, Option, none, some, List, [], ◌∷◌, ◌++◌, ◌⊎◌, inl, inr,
  ◌||◌, not, leb, ◌<>◌, if◌then◌else◌, str_eq, contains_lower,
}
use service_mesh.Sidecar.Errors.{
  Error, tls, proxy, errorf, wrap, classify_dial_error, message, root,
}
use service_mesh.Sidecar.Context.{GoContext, ConnContext, get_string, get_bool}

-- CopyMode.
pub data CopyMode : Type 0 where
  buffered_copy zero_copy : CopyMode

-- What the client's next reads give, in order: the characters of one read, or `none` for a pause
-- that outlasts the read deadline.
abbrev pub Reads : Type 0
Reads = List (Option String)

-- http.Request, by what the forwarder asks of it and sets in it. No `body` is nil or NoBody, and
-- `get_body` is the call of GetBody, if it is set.
pub record Request : Type 0 where
  pub method : String
  pub request_uri : String
  pub scheme : String
  pub host : String
  pub path : String
  pub body : Option String
  pub get_body : Option (Error ⊎ String)
  pub close : Bool

pub record Response : Type 0 where
  pub payload : String
  pub close : Bool

-- The sockets and Go's net/http, on a state `D`. The first `String` of a read is the buffer of the
-- reader. `bridge` runs the two copies of a bridge on the client's stream, and gives their errors
-- in the order in which they end.
pub record Network (D : Type 0) : Type 0 where
  pub set_read_deadline : D → Bool × D
  pub dial : GoContext → String → D → Option Error × D
  pub dial_tls : GoContext → String → String → D → Option Error × D
  pub bridge : CopyMode → String → Reads → D → Option Error × Option Error × D
  pub read_request : String → Reads → (Error ⊎ Request) × String × Reads
  pub round_trip : GoContext → String → Request → D → (Error ⊎ Response) × D
  pub close_idle_connections : String → D → D
  pub write_response : Response → D → Option Error × D
  pub close_body : Response → D → Option Error × D

-- Whether a TLS configuration is there, and the copy mode.
pub record Forwarder : Type 0 where
  pub tls_config : Bool
  pub copy_mode : CopyMode

unfoldable pub is_stream_termination_error : Option Error → Bool
unfolding root message contains_lower
is_stream_termination_error none = true
is_stream_termination_error (some err) =
    (root err).is_eof
    || (root err).is_closed
    || contains_lower (message err) "use of closed network connection"

-- The two errors of a bridge, in the order in which they come.
unfoldable pub bridge_error : Option Error → Option Error → Option Error
unfolding is_stream_termination_error
bridge_error first second =
    if not (is_stream_termination_error first)
    then first
    else if not (is_stream_termination_error second)
    then second
    else none

unfoldable pub can_replay_http_request : Request → Bool
can_replay_http_request request =
    if str_eq request.method "GET"
      || str_eq request.method "HEAD"
      || str_eq request.method "OPTIONS"
      || str_eq request.method "TRACE"
    then elim request.body [
      | none ↦ true
      | some body ↦ elim request.get_body [ none ↦ false | some got ↦ true ]
    ]
    else false

-- The first `n` characters of a text.
unfoldable pub first_codes : ℕ → String → String
first_codes zero s = ""
first_codes (suc n) String.[] = ""
first_codes (suc n) (String.◌∷◌ c s) = String.◌∷◌ c (first_codes n s)

unfoldable pub size : String → ℕ
size String.[] = zero
size (String.◌∷◌ c s) = suc (size s)

-- reader.Peek(n): reads until the buffer holds `n` characters or a read fails.
unfoldable pub peek : ℕ → String → Reads → Bool × String × Reads
unfolding size
peek n buffered [] = (leb n (size buffered), buffered, [])
peek n buffered (none ∷ rest) =
    if leb n (size buffered) then (true, buffered, none ∷ rest) else (false, buffered, rest)
peek n buffered (some chunk ∷ rest) =
    let more = peek n (buffered <> chunk) rest in
    if leb n (size buffered) then (true, buffered, some chunk ∷ rest) else more

unfoldable pub is_method_prefix : String → Bool
is_method_prefix prefix =
    str_eq prefix "GET "
    || str_eq prefix "POST"
    || str_eq prefix "PUT "
    || str_eq prefix "HEAD"
    || str_eq prefix "DELE"
    || str_eq prefix "PATC"
    || str_eq prefix "OPTI"

-- The URL of a request on its way to the target.
unfoldable pub redirect : String → Request → Request
redirect target_addr request = record request {
  request_uri = "";
  scheme = "https";
  host = target_addr;
  path = if str_eq request.path "" then "/" else request.path;
}
