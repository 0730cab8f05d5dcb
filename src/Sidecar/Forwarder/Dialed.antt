-- ===== src/Sidecar/Forwarder/Dialed.antt =====
-- What becomes of the client's stream, and of an error, when the forwarder dials.
use text.Mathlib.TextLemmas.{nil-append}
use service_mesh.Base.{
  ℕ, String, Bool, true, false, none, some, ◌∷◌, ◌≡◌, refl, ap, ◌∙◌, inl, inr, arith, leb, ◌<>◌,
  str_eq, Bool-cases, Option-cases,
}
use service_mesh.Sidecar.Errors.{
  Error, tls, sidecar_error, errorf, as_sidecar, classify_dial_error, is_establish_error,
}
use service_mesh.Sidecar.Errors.Kinds.{classify_dial_error_establishes}
use service_mesh.Sidecar.Context.{ConnContext, get_string, get_bool}
use service_mesh.Sidecar.Forwarder.{Reads, Network, Forwarder, size, first_codes, is_method_prefix}
use service_mesh.Sidecar.Forwarder.Handle.{
  handle, forward, handle_in_mesh, dial_mtls, after_dial, looks_like_http_request,
  bridge_connections,
}
use service_mesh.Sidecar.Forwarder.Peek.{stream, peek-stream, peek-first}

-- A connection that routing sends into the mesh.
pub record IsMeshBound (f : Forwarder) (ctx : ConnContext) : Type 0 where
  pub has_target : str_eq (get_string ctx "target_addr") "" ≡ false
  pub in_mesh : get_bool ctx "in_mesh" ≡ true
  pub has_tls : f.tls_config ≡ true

classified :
    (err : Error)
    → as_sidecar err ≡ none
    → (e : Error) × (classify_dial_error (some err) ≡ some e) × (is_establish_error (some e) ≡ true)
unfolding is_establish_error
classified err foreign =
    let establishes = (classify_dial_error_establishes err foreign).0 in
    elim (Option-cases (classify_dial_error (some err))) [
      | inl nothing ↦ absurd (ground arith)
      | inr (e, here) ↦ (e, here, cc (here, establishes))
    ]

module _ {D : Type 0} (net : Network D) (f : Forwarder) (ctx : ConnContext)
    (bound : IsMeshBound f ctx) where
  pub handle-mesh :
      (fuel : ℕ) (reads : Reads) (d : D)
      → handle net fuel f ctx reads d
        ≡ handle_in_mesh net fuel f ctx
            (get_string ctx "target_addr")
            (get_string ctx "server_name")
            reads
            d
  unfolding handle forward handle_in_mesh
  handle-mesh fuel reads d =
      rw (handle, bound.has_target, forward, bound.in_mesh, bound.has_tls) refl

  -- Without HTTP the target is dialed.
  handle-dial :
      (fuel : ℕ) (reads : Reads) (d : D)
      → (looks_like_http_request net reads d).0 ≡ false
      → handle net fuel f ctx reads d
        ≡ some (
            after_dial net f
              (looks_like_http_request net reads d).1
              (looks_like_http_request net reads d).2
              (dial_mtls net ctx.context
                (get_string ctx "target_addr")
                (get_string ctx "server_name")
                true
                (looks_like_http_request net reads d).3))
  unfolding handle_in_mesh after_dial
  handle-dial fuel reads d plain =
      handle-mesh fuel reads d ∙ rw (handle_in_mesh, plain, bound.has_tls) refl

  look_keeps :
      (reads : Reads) (d : D)
      → (looks_like_http_request net reads d).1 <> stream (looks_like_http_request net reads d).2
        ≡ stream reads
  unfolding looks_like_http_request
  look_keeps reads d = elim (Bool-cases (net.set_read_deadline d).0) [
    | inl set ↦
        rw (looks_like_http_request, set) (peek-stream 4 "" reads ∙ nil-append (stream reads))
    | inr failed ↦ rw (looks_like_http_request, failed) (nil-append (stream reads))
  ]

  look_first :
      (chunk : String) (rest : Reads) (d : D)
      → (net.set_read_deadline d).0 ≡ true
      → leb 4 (size chunk) ≡ true
      → looks_like_http_request net (some chunk ∷ rest) d ≡ (
        is_method_prefix (first_codes 4 chunk),
        chunk,
        rest,
        (net.set_read_deadline (net.set_read_deadline d).1).1,
      )
  unfolding looks_like_http_request
  look_first chunk rest d set long =
      rw (looks_like_http_request, set, peek-first 4 chunk rest long refl) refl

  -- If the target is in the mesh, the client's stream is not HTTP and the dial succeeds, the bridge
  -- gets all that the client sends, what was read ahead included.
  pub dialed_keeps_stream :
      (fuel : ℕ) (reads : Reads) (d : D)
      → str_eq (get_string ctx "server_name") "" ≡ false
      → ((d1 : D)
          → (net.dial_tls ctx.context
              (get_string ctx "target_addr")
              (get_string ctx "server_name")
              d1).0
            ≡ none)
      → (looks_like_http_request net reads d).0 ≡ false
      → (buffered : String) × (rest : Reads) × (d1 : D) × (handle net fuel f ctx reads d
          ≡ some (bridge_connections net f buffered rest d1))
        × (buffered <> stream rest ≡ stream reads)
  unfolding dial_mtls after_dial
  dialed_keeps_stream fuel reads d named dials plain =
      let look = looks_like_http_request net reads d in
      (
        look.1,
        look.2,
        (net.dial_tls ctx.context (get_string ctx "target_addr") (get_string ctx "server_name")
            look.3).1,
        handle-dial fuel reads d plain ∙ rw (dial_mtls, named, dials look.3, after_dial) refl,
        look_keeps reads d,
      )

  -- If the client's first read has at least four characters and does not begin with the name of a
  -- method, and the TLS dial to a target in the mesh fails with an error that has no kind yet, then
  -- the forwarder's error is one of establishing the connection, and what was read is gone: the next
  -- attempt gets the client's stream without its first read.
  pub failed_dial_loses_read :
      (fuel : ℕ) (chunk : String) (rest : Reads) (d : D) (err : Error)
      → as_sidecar err ≡ none
      → ((d1 : D)
          → (net.dial_tls ctx.context
              (get_string ctx "target_addr")
              (get_string ctx "server_name")
              d1).0
            ≡ some err)
      → ((d1 : D) → (net.set_read_deadline d1).0 ≡ true)
      → leb 4 (size chunk) ≡ true
      → is_method_prefix (first_codes 4 chunk) ≡ false
      → (e : Error) × (d1 : D) × (handle net fuel f ctx (some chunk ∷ rest) d
          ≡ some (some e, rest, d1))
        × (is_establish_error (some e) ≡ true)
  unfolding dial_mtls after_dial is_establish_error
  failed_dial_loses_read fuel chunk rest d err foreign refuses sets long plain =
      let d1 = (net.set_read_deadline (net.set_read_deadline d).1).1 in
      let seen = look_first chunk rest d (sets d) long in
      let dialed = handle-dial fuel (some chunk ∷ rest) d (ap (λ look. look.0) seen ∙ plain) in
      let looked =
        dialed
        ∙ ap
            (λ (look : Bool × String × Reads × D). some (
              after_dial net f look.1 look.2 (
                dial_mtls net ctx.context (get_string ctx "target_addr")
                  (get_string ctx "server_name") true look.3)))
            seen in
      let (e, here, establishes) = classified err foreign in
      elim (Bool-cases (str_eq (get_string ctx "server_name") "")) [
        | inl unnamed ↦ (
          sidecar_error tls (errorf "missing tls server name"),
          d1,
          looked ∙ rw (dial_mtls, unnamed, after_dial) refl,
          refl,
        )
        | inr named ↦ (
          e,
          (net.dial_tls ctx.context (get_string ctx "target_addr") (get_string ctx "server_name")
              d1).1,
          looked ∙ rw (dial_mtls, named, refuses d1, here, after_dial) refl,
          establishes,
        )
      ]
