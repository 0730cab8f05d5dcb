-- ===== src/Sidecar/Forwarder/Ends.antt =====
-- The loop of the forwarder over the requests of a connection.
use service_mesh.Base.{
  ℕ, zero, suc, ◌+◌, ◌<◌, String, Option, none, some, ◌≡◌, refl, ◌⊎◌, inl, inr, arith, str_eq,
  Bool-cases, Option-cases,
}
use service_mesh.Sidecar.Errors.{Error, proxy, tls, errorf, wrap}
use service_mesh.Sidecar.Context.{ConnContext, get_string, get_bool}
use service_mesh.Sidecar.Forwarder.{Reads, Network, Forwarder, Request, size}
use service_mesh.Sidecar.Forwarder.Handle.{
  handle, forward, handle_in_mesh, serve_requests, http_round, looks_like_http_request, after_dial,
  dial_plain, dial_mtls,
}
use service_mesh.Sidecar.Forwarder.Peek.{total, peek-total}

-- http.ReadRequest takes at least one character of a connection for a request.
abbrev pub Consumes : {D : Type 0} → Network D → Type 0
Consumes net =
    (buffered : String) (reads : Reads) (request : Request)
    → (net.read_request buffered reads).0 ≡ inr request
    → size (net.read_request buffered reads).1 + total (net.read_request buffered reads).2
      < size buffered + total reads

module _ {D : Type 0} (net : Network D) where
  -- The loop goes on only after a request.
  going_on :
      (ctx : ConnContext) (target_addr name : String) (got : Error ⊎ Request) (d : D)
      → (http_round net ctx target_addr name got d).0 ≡ none
      → (request : Request) × (got ≡ inr request)
  unfolding http_round
  going_on ctx target_addr name (inl err) d more = absurd (ground arith)
  going_on ctx target_addr name (inr request) d more = (request, refl)

  serve_requests_end :
      (fuel : ℕ) (ctx : ConnContext) (target_addr name buffered : String) (reads : Reads) (d : D)
      → Consumes net
      → size buffered + total reads < fuel
      → (r : Option Error × Reads × D) × (serve_requests net fuel ctx target_addr name buffered
            reads d
          ≡ some r)
  unfolding serve_requests
  serve_requests_end zero ctx target_addr name buffered reads d takes enough = absurd (omega arith)
  serve_requests_end (suc fuel) ctx target_addr name buffered reads d takes enough =
      let (got, buffered1, reads1) = net.read_request buffered reads in
      let (ended, d1) = http_round net ctx target_addr name got d in
      elim (Option-cases ended) [
        | inr (err, over) ↦ ((err, reads1, d1), rw (serve_requests, over) refl)
        | inl more ↦
            let (request, is_request) = going_on ctx target_addr name got d more in
            let fewer = takes buffered reads request is_request in
            let (r, served) =
              serve_requests_end fuel ctx target_addr name buffered1 reads1 d1 takes
                (omega (arith, fewer, enough)) in
            (r, rw (serve_requests, more) served)
      ]

  look_total :
      (reads : Reads) (d : D)
      → size (looks_like_http_request net reads d).1 + total (looks_like_http_request net reads d).2
        ≡ total reads
  unfolding looks_like_http_request size
  look_total reads d =
      let kept = peek-total 4 "" reads in
      elim (Bool-cases (net.set_read_deadline d).0) [
        | inl set ↦ rw (looks_like_http_request, set) (omega (arith, kept))
        | inr failed ↦ rw (looks_like_http_request, failed) (omega arith)
      ]

  -- If the reading of a request takes at least one character off the connection, the forwarder ends:
  -- more rounds of the loop than there are characters in the client's stream are enough.
  pub handle_ends :
      (fuel : ℕ) (f : Forwarder) (ctx : ConnContext) (reads : Reads) (d : D)
      → Consumes net
      → total reads < fuel
      → (r : Option Error × Reads × D) × (handle net fuel f ctx reads d ≡ some r)
  unfolding handle forward handle_in_mesh
  handle_ends fuel f ctx reads d takes enough =
      let target = get_string ctx "target_addr" in
      let name = get_string ctx "server_name" in
      let look = looks_like_http_request net reads d in
      elim (Bool-cases (str_eq target "")) [
        | inl missing ↦ (
          (wrap proxy (some (errorf "missing target address")), reads, d),
          rw (handle, missing) refl,
        )
        | inr present ↦ elim (Bool-cases (get_bool ctx "in_mesh")) [
          | inr outside ↦ (
            after_dial net f "" reads (dial_plain net ctx.context target d),
            rw (handle, present, forward, outside) refl,
          )
          | inl inside ↦ elim (Bool-cases f.tls_config) [
            | inr bare ↦ (
              (wrap tls (some (errorf "invalid tls configuration")), reads, d),
              rw (handle, present, forward, inside, bare) refl,
            )
            | inl secured ↦ elim (Bool-cases look.0) [
              | inr plain ↦ (
                after_dial net f look.1 look.2
                    (dial_mtls net ctx.context target name f.tls_config look.3),
                rw (handle, present, forward, inside, secured, handle_in_mesh, plain) refl,
              )
              | inl http ↦
                  let kept = look_total reads d in
                  let (r, served) =
                    serve_requests_end fuel ctx target name look.1 look.2 look.3 takes
                      (omega (arith, kept, enough)) in
                  (r, rw (handle, present, forward, inside, secured, handle_in_mesh, http) served)
            ]
          ]
        ]
      ]
