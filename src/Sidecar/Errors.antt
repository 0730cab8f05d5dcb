-- ===== src/Sidecar/Errors.antt =====
-- k8s/mesh/sidecar/internal/domain/errors.go: errors with a kind, and the questions that the
-- middlewares ask of an error. A nil error is `none`.
pub mod Kinds
use service_mesh.Base.{
  String, Bool, true, false, Option, none, some, ◌||◌, if◌then◌else◌, str_eq, ◌<>◌, contains_lower,
}

pub data ErrorKind : Type 0 where
  dial tls timeout proxy discovery breaker_open : ErrorKind

-- The text of the kind.
abbrev pub kind_text : ErrorKind → String
kind_text dial = "dial"
kind_text tls = "tls"
kind_text timeout = "timeout"
kind_text proxy = "proxy"
kind_text discovery = "discovery"
kind_text breaker_open = "breaker_open"

-- An error that is no `SidecarError` and wraps none, by what the code can ask of it: its text,
-- what `errors.Is` finds in it, and `Timeout()` if it is a `net.Error`.
pub record ForeignError : Type 0 where
  pub message : String
  pub is_deadline : Bool
  pub is_canceled : Bool
  pub is_eof : Bool
  pub is_closed : Bool
  pub net_timeout : Bool

-- `wrapped p e` is fmt.Errorf("p: %w", e).
pub data Error : Type 0 where
  foreign : ForeignError → Error
  wrapped : String → Error → Error
  sidecar_error : ErrorKind → Error → Error

-- fmt.Errorf with no %w.
abbrev pub errorf : String → Error
errorf message = foreign (record {
  message = message;
  is_deadline = false;
  is_canceled = false;
  is_eof = false;
  is_closed = false;
  net_timeout = false;
})

-- context.DeadlineExceeded.
abbrev pub deadline_exceeded : Error
deadline_exceeded = foreign (record {
  message = "context deadline exceeded";
  is_deadline = true;
  is_canceled = false;
  is_eof = false;
  is_closed = false;
  net_timeout = true;
})

-- err.Error().
unfoldable pub message : Error → String
message (foreign f) = f.message
message (wrapped p e) = p <> ": " <> message e
message (sidecar_error k e) = kind_text k <> ": " <> message e

-- The foreign error at the end of the chain, where `errors.Is` and `errors.As` look last.
unfoldable pub root : Error → ForeignError
root (foreign f) = f
root (wrapped p e) = root e
root (sidecar_error k e) = root e

-- errors.As(err, &sidecarErr): the kind of the first `SidecarError` in the chain.
unfoldable pub as_sidecar : Error → Option ErrorKind
as_sidecar (foreign f) = none
as_sidecar (wrapped p e) = as_sidecar e
as_sidecar (sidecar_error k e) = some k

keep_or_wrap : ErrorKind → Error → Option ErrorKind → Error
keep_or_wrap kind err none = sidecar_error kind err
keep_or_wrap kind err (some k) = err

unfoldable pub wrap : ErrorKind → Option Error → Option Error
unfolding keep_or_wrap as_sidecar
wrap kind none = none
wrap kind (some err) = some (keep_or_wrap kind err (as_sidecar err))

has_kind : ErrorKind → Option ErrorKind → Bool
has_kind kind none = false
has_kind kind (some k) = str_eq (kind_text k) (kind_text kind)

unfoldable pub is_kind : Option Error → ErrorKind → Bool
unfolding has_kind as_sidecar
is_kind none kind = false
is_kind (some err) kind = has_kind kind (as_sidecar err)

unfoldable pub is_establish_error : Option Error → Bool
unfolding is_kind
is_establish_error none = false
is_establish_error (some err) =
    is_kind (some err) dial
    || is_kind (some err) tls
    || is_kind (some err) timeout
    || is_kind (some err) breaker_open

unfoldable pub normalize_error_type : Option Error → String
unfolding is_kind
normalize_error_type err =
    if is_kind err timeout
    then kind_text timeout
    else if is_kind err tls
    then kind_text tls
    else if is_kind err discovery
    then kind_text discovery
    else if is_kind err breaker_open
    then kind_text breaker_open
    else if is_kind err dial
    then kind_text dial
    else if is_kind err proxy
    then kind_text proxy
    else "unknown"

unfoldable pub classify_dial_error : Option Error → Option Error
unfolding wrap root message contains_lower
classify_dial_error none = none
classify_dial_error (some err) =
    if (root err).is_deadline
    then wrap timeout (some err)
    else if (root err).net_timeout
    then wrap timeout (some err)
    else if contains_lower (message err) "tls"
    then wrap tls (some err)
    else wrap dial (some err)
