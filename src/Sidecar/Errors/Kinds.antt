-- ===== src/Sidecar/Errors/Kinds.antt =====
-- What the questions about errors of errors.go answer.
use service_mesh.Base.{String, true, false, Option, none, some, ◌≡◌, refl, ◌⊎◌, arith, ◌≢◌}
use service_mesh.Sidecar.Errors.{
  ErrorKind, dial, tls, timeout, proxy, discovery, breaker_open, kind_text, Error, as_sidecar, wrap,
  is_establish_error, normalize_error_type, classify_dial_error,
}

-- The label of an error by the kind of the chain's first `SidecarError`.
abbrev pub label : Option ErrorKind → String
label none = "unknown"
label (some kind) = kind_text kind

-- An error that is wrapped twice keeps its first kind, and wrapping it again changes nothing.
pub wrap_first_kind : (k j : ErrorKind) (err : Option Error) → wrap j (wrap k err) ≡ wrap k err
unfolding wrap
wrap_first_kind k j none = refl
wrap_first_kind k j (some err) = ground arith

label_of :
    (err : Error) (o : Option ErrorKind)
    → as_sidecar err ≡ o
    → normalize_error_type (some err) ≡ label o
unfolding normalize_error_type
label_of err none h = rw h
label_of err (some dial) h = rw h
label_of err (some tls) h = rw h
label_of err (some timeout) h = rw h
label_of err (some proxy) h = rw h
label_of err (some discovery) h = rw h
label_of err (some breaker_open) h = rw h

-- The error type that the metrics show is the text of the kind of the chain's first
-- `SidecarError`, and "unknown" where there is none.
normalize_error_type-label :
    (err : Error) → normalize_error_type (some err) ≡ label (as_sidecar err)
normalize_error_type-label err = label_of err (as_sidecar err) refl

pub is_establish_error-none :
    (err : Error) → as_sidecar err ≡ none → is_establish_error (some err) ≡ false
unfolding is_establish_error
is_establish_error-none err h = ground arith

pub is_establish_error-some :
    (err : Error) (kind : ErrorKind)
    → as_sidecar err ≡ some kind
    → kind ≢ proxy
    → kind ≢ discovery
    → is_establish_error (some err) ≡ true
unfolding is_establish_error
is_establish_error-some err dial h p d = rw h
is_establish_error-some err tls h p d = rw h
is_establish_error-some err timeout h p d = rw h
is_establish_error-some err proxy h p d = absurd (p refl)
is_establish_error-some err discovery h p d = absurd (d refl)
is_establish_error-some err breaker_open h p d = rw h

-- Whatever a dial fails with, if it is not yet of a kind, it is classified as an error of
-- establishing the connection, with the text "timeout", "tls" or "dial".
pub classify_dial_error_establishes :
    (err : Error)
    → as_sidecar err ≡ none
    → (is_establish_error (classify_dial_error (some err)) ≡ true)
      × ((normalize_error_type (classify_dial_error (some err)) ≡ "timeout")
          ⊎ ((normalize_error_type (classify_dial_error (some err)) ≡ "tls")
              ⊎ (normalize_error_type (classify_dial_error (some err)) ≡ "dial")))
unfolding classify_dial_error is_establish_error normalize_error_type
classify_dial_error_establishes err h = ground arith
