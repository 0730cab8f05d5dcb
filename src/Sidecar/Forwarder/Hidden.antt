-- ===== src/Sidecar/Forwarder/Hidden.antt =====
-- What becomes of the errors of the forwarder's round trips.
use service_mesh.Base.{
  ℕ, suc, String, true, false, Option, none, some, ◌≡◌, refl, ◌∙◌, ◌⊎◌, inl, inr, Bool-cases,
}
use service_mesh.Sidecar.Errors.{
  Error, proxy, sidecar_error, as_sidecar, is_establish_error, wrap, is_kind,
}
use service_mesh.Sidecar.Context.{GoContext, ConnContext, get_string}
use service_mesh.Sidecar.Forwarder.{
  Reads, Network, Forwarder, Request, redirect, can_replay_http_request,
}
use service_mesh.Sidecar.Forwarder.Handle.{
  handle, handle_in_mesh, serve_requests, http_round, looks_like_http_request, round_trip_http,
  after_round_trip, replay, answer,
}
use service_mesh.Sidecar.Forwarder.Dialed.{IsMeshBound, handle-mesh}

module _ {D : Type 0} (net : Network D) where
  replay-refused :
      (c : GoContext) (name : String) (sent : Request) (err : Error) (got : Option (Error ⊎ String))
      (d : D)
      → ((sent : Request) (d1 : D) → (net.round_trip c name sent d1).0 ≡ inl err)
      → (replay net c name sent err got d).0 ≡ inl err
  unfolding replay
  replay-refused c name sent err none d refuses = refuses sent d
  replay-refused c name sent err (some (inl body_err)) d refuses = refl
  replay-refused c name sent err (some (inr body)) d refuses = refuses _ d

  round_trip_refused :
      (c : GoContext) (name : String) (sent : Request) (err : Error) (d : D)
      → ((sent : Request) (d1 : D) → (net.round_trip c name sent d1).0 ≡ inl err)
      → (round_trip_http net c name sent d).0 ≡ inl err
  unfolding round_trip_http after_round_trip
  round_trip_refused c name sent err d refuses =
      let d1 = net.close_idle_connections name (net.round_trip c name sent d).1 in
      elim (Bool-cases (can_replay_http_request sent)) [
        | inl can ↦
            rw (round_trip_http, after_round_trip, refuses sent d, can)
              (replay-refused c name sent err sent.get_body d1 refuses)
        | inr cannot ↦ rw (round_trip_http, after_round_trip, refuses sent d, cannot) refl
      ]

  -- If the client speaks HTTP, a target in the mesh cannot be reached, and the error of the round
  -- trip has no kind yet, then the forwarder's error is not one of establishing the connection,
  -- whether or not the request is replayed.
  pub http_failure_hidden :
      (fuel : ℕ) (f : Forwarder) (ctx : ConnContext) (reads : Reads) (d : D) (request : Request)
      (err : Error)
      → IsMeshBound f ctx
      → (looks_like_http_request net reads d).0 ≡ true
      → (net.read_request
          (looks_like_http_request net reads d).1
          (looks_like_http_request net reads d).2).0
        ≡ inr request
      → as_sidecar err ≡ none
      → ((sent : Request) (d1 : D)
          → (net.round_trip ctx.context (get_string ctx "server_name") sent d1).0 ≡ inl err)
      → (e : Error) × (rest : Reads) × (d2 : D) × (handle net (suc fuel) f ctx reads d
          ≡ some (some e, rest, d2))
        × (is_establish_error (some e) ≡ false)
  unfolding handle_in_mesh serve_requests http_round answer wrap is_establish_error is_kind
  http_failure_hidden fuel f ctx reads d request err bound http got foreign refuses =
      let name = get_string ctx "server_name" in
      let target = get_string ctx "target_addr" in
      let look = looks_like_http_request net reads d in
      let read = net.read_request look.1 look.2 in
      let sent = redirect target request in
      let failed = round_trip_refused ctx.context name sent err look.3 refuses in
      let ended : (http_round net ctx target name read.0 look.3).0
          ≡ some (some (sidecar_error proxy err)) =
        rw (got, http_round, answer, failed, wrap, foreign) refl in
      (
        sidecar_error proxy err,
        read.2,
        (http_round net ctx target name read.0 look.3).1,
        handle-mesh net f ctx bound (suc fuel) reads d
            ∙ rw (handle_in_mesh, http, serve_requests, ended) refl,
        refl,
      )
