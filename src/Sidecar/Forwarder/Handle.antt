-- ===== src/Sidecar/Forwarder/Handle.antt =====
-- The forwarder's Handle, handleHTTP and roundTripHTTP, with DialMTLS of mtls.go.
use service_mesh.Base.{
  ℕ, zero, suc, String, Bool, true, false, Option, none, some, [], ◌⊎◌, inl, inr, ◌||◌,
  if◌then◌else◌, str_eq,
}
use service_mesh.Sidecar.Errors.{Error, tls, proxy, errorf, wrap, classify_dial_error}
use service_mesh.Sidecar.Context.{GoContext, ConnContext, get_string, get_bool}
use service_mesh.Sidecar.Forwarder.{
  Reads, Request, Response, Network, Forwarder, is_stream_termination_error, bridge_error,
  can_replay_http_request, first_codes, peek, is_method_prefix, redirect,
}

module _ {D : Type 0} (net : Network D) where
  -- What a bridge ends with, its error wrapped.
  unfoldable pub bridge_connections : Forwarder → String → Reads → D → Option Error × Reads × D
  unfolding bridge_error
  bridge_connections f buffered reads d =
      let (first, second, d1) = net.bridge f.copy_mode buffered reads d in
      (wrap proxy (bridge_error first second), [], d1)

  -- DialMTLS, and the dial without TLS.
  unfoldable pub dial_mtls : GoContext → String → String → Bool → D → Option Error × D
  unfolding classify_dial_error
  dial_mtls ctx address server_name false d = (wrap tls (some (errorf "missing tls config")), d)
  dial_mtls ctx address server_name true d =
      if str_eq server_name ""
      then (wrap tls (some (errorf "missing tls server name")), d)
      else (let (err, d1) = net.dial_tls ctx address server_name d in (classify_dial_error err, d1))

  unfoldable pub dial_plain : GoContext → String → D → Option Error × D
  dial_plain ctx address d = let (err, d1) = net.dial ctx address d in (classify_dial_error err, d1)

  -- The bridge, if the dial gave a connection.
  unfoldable pub after_dial :
      Forwarder → String → Reads → Option Error × D → Option Error × Reads × D
  unfolding bridge_connections
  after_dial f buffered reads (some err, d) = (some err, reads, d)
  after_dial f buffered reads (none, d) = bridge_connections f buffered reads d

  -- looksLikeHTTPRequest, with the buffer and the reads that it leaves.
  unfoldable pub looks_like_http_request : Reads → D → Bool × String × Reads × D
  unfolding peek is_method_prefix first_codes
  looks_like_http_request reads d =
      let (set, d1) = net.set_read_deadline d in
      let (enough, buffered, rest) = peek 4 "" reads in
      if set
      then (let (cleared, d2) = net.set_read_deadline d1 in
          (if enough then is_method_prefix (first_codes 4 buffered) else false, buffered, rest, d2))
      else (false, "", reads, d1)

  -- The second round trip, with the body that GetBody gives.
  unfoldable pub replay :
      GoContext → String → Request → Error → Option (Error ⊎ String) → D → (Error ⊎ Response) × D
  replay ctx name request err none d = net.round_trip ctx name request d
  replay ctx name request err (some (inl body_err)) d = (inl err, d)
  replay ctx name request err (some (inr body)) d =
      net.round_trip ctx name (record request { body = some body }) d

  -- roundTripHTTP after the first round trip.
  unfoldable pub after_round_trip :
      GoContext → String → Request → (Error ⊎ Response) × D → (Error ⊎ Response) × D
  unfolding replay can_replay_http_request
  after_round_trip ctx name request (inr response, d) = (inr response, d)
  after_round_trip ctx name request (inl err, d) =
      let d1 = net.close_idle_connections name d in
      if can_replay_http_request request
      then replay ctx name request err request.get_body d1
      else (inl err, d1)

  unfoldable pub round_trip_http : GoContext → String → Request → D → (Error ⊎ Response) × D
  unfolding after_round_trip
  round_trip_http ctx name request d =
      after_round_trip ctx name request (net.round_trip ctx name request d)

  -- What one round of the loop comes to: an end with an error or without, or one more round.
  unfoldable pub write_back : Request → Response → D → Option (Option Error) × D
  unfolding wrap
  write_back request response d =
      let (write_err, d1) = net.write_response response d in
      let (close_err, d2) = net.close_body response d1 in
      (
        elim write_err [
          | some err ↦ some (wrap proxy (some err))
          | none ↦ elim close_err [
            | some err ↦ some (wrap proxy (some err))
            | none ↦ if request.close || response.close then some none else none
          ]
        ],
        d2,
      )

  unfoldable pub answer : Request → (Error ⊎ Response) × D → Option (Option Error) × D
  unfolding write_back wrap
  answer request (inl err, d) = (some (wrap proxy (some err)), d)
  answer request (inr response, d) = write_back request response d

  unfoldable pub http_round :
      ConnContext → String → String → Error ⊎ Request → D → Option (Option Error) × D
  unfolding answer round_trip_http redirect is_stream_termination_error wrap
  http_round ctx target_addr name (inl err) d =
      (some (if is_stream_termination_error (some err) then none else wrap proxy (some err)), d)
  http_round ctx target_addr name (inr request) d =
      let sent = redirect target_addr request in
      answer sent (round_trip_http ctx.context name sent d)

  -- The loop of handleHTTP. With no fuel left it is still serving, which is `none`.
  unfoldable pub serve_requests :
      ℕ → ConnContext → String → String → String → Reads → D → Option (Option Error × Reads × D)
  unfolding http_round
  serve_requests zero ctx target_addr name buffered reads d = none
  serve_requests (suc fuel) ctx target_addr name buffered reads d =
      let (got, buffered1, reads1) = net.read_request buffered reads in
      let (ended, d1) = http_round ctx target_addr name got d in
      let rest = serve_requests fuel ctx target_addr name buffered1 reads1 d1 in
      elim ended [ none ↦ rest | some err ↦ some (err, reads1, d1) ]

  -- The branch for a target in the mesh.
  unfoldable pub handle_in_mesh :
      ℕ → Forwarder → ConnContext → String → String → Reads → D → Option (Option Error × Reads × D)
  unfolding looks_like_http_request serve_requests dial_mtls after_dial
  handle_in_mesh fuel f ctx target_addr name reads d =
      let (http, buffered, rest, d1) = looks_like_http_request reads d in
      if http
      then serve_requests fuel ctx target_addr name buffered rest d1
      else some
          (after_dial f buffered rest (dial_mtls ctx.context target_addr name f.tls_config d1))

  unfoldable pub forward :
      ℕ → Forwarder → ConnContext → String → Reads → D → Option (Option Error × Reads × D)
  unfolding handle_in_mesh dial_plain after_dial
  forward fuel f ctx target_addr reads d =
      if get_bool ctx "in_mesh"
      then (if f.tls_config
          then handle_in_mesh fuel f ctx target_addr (get_string ctx "server_name") reads d
          else some (wrap tls (some (errorf "invalid tls configuration")), reads, d))
      else some (after_dial f "" reads (dial_plain ctx.context target_addr d))

  -- Forwarder.Handle: the error, and what the client's next reads still give.
  unfoldable pub handle :
      ℕ → Forwarder → ConnContext → Reads → D → Option (Option Error × Reads × D)
  unfolding forward
  handle fuel f ctx reads d =
      if str_eq (get_string ctx "target_addr") ""
      then some (wrap proxy (some (errorf "missing target address")), reads, d)
      else forward fuel f ctx (get_string ctx "target_addr") reads d
