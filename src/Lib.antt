-- ===== src/Lib.antt =====
-- A model of the service mesh, and what is proved of it.
--
-- The repository holds two meshes. The one for Kubernetes (k8s/mesh) puts a sidecar before each
-- pod, which takes connections by transparent listeners, chooses a target for each and passes the
-- bytes on; a webhook injects the sidecar, a certificate manager signs its key, and an installer
-- sets all of it up. The one for Docker (docker) has an orchestrator that starts containers, a
-- control plane that knows which services there are, and a sidecar with a rate limiter.
--
-- What is modelled:
--   Sidecar (k8s/mesh/sidecar/internal). `Sidecar.Service.serve` is a connection from the
--     listener's Accept (adapters/proxy/listener.go) through the chain that Service.Run builds
--     (app/sidecar/service.go, domain/middleware.go) to a terminal handler, which is a parameter.
--     The handlers of the chain are `metrics_handle` and `timeout_handle` (Sidecar.Observe),
--     `retry_handle` (Sidecar.Retry), `routing_handle` (Sidecar.Routing) and `breaker_handle`
--     (Sidecar.Breaker), from the files app/sidecar/middleware_*.go. Sidecar.Errors is
--     domain/errors.go, Sidecar.Context is domain/context.go, Sidecar.Cache is
--     adapters/discovery/cache.go, Sidecar.Discovery is relist of
--     adapters/discovery/controller.go, and Sidecar.World is the state that connections share: the
--     clock, the calls of the metrics recorder (adapters/metrics/recorder.go), the cache, and the
--     maps of the breaker and of the router. The terminal handler itself, adapters/proxy/forwarder.go
--     with DialMTLS, is Sidecar.Forwarder and `Sidecar.Forwarder.Handle.handle`, over the sockets
--     and net/http as the interface `Network`. Sidecar.Config, with its child Load, is config/config.go. A handler takes
--     the context, the next handler and the state, and gives back the error, the context and the
--     state.
--   Plane (docker/control-plane/internal/app/http/plane/plane.go): the registry, the turns and the
--     mutex of the control plane. An operation that waits for ever gives `none`.
--   RateLimit (docker/sidecar/pkg/middleware/ratelimiter): the sliding window over any repository
--     (RateLimit.Limiter), and the repository in memory. `Instants` has the five readings of the
--     clock that a request makes: RateLimit.Limiter.Promise runs requests of which all five are the
--     same, and RateLimit.Limiter.Budget any that are within a delay.
--   Orchestrator (docker/cdocker/internal/app/http/cdocker/health_monitor.go, with the structs of
--     internal/domain/manifest.go): reports of probes, and the checks that restart containers.
--     Orchestrator.Events runs reports and checks in any order.
--     Orchestrator.Deploy (app/http/cdocker/cdocker.go) has the deployment, `Requests` the
--     handlers, `Env` the environments of the sidecars, and `Others` the start and the other
--     handlers; `Outside` is the interface of Docker, the certificates and the control plane.
--   CertManager (k8s/mesh/certmanager/internal): `serve_http` is the handler
--     (transport/http/handler_sign.go), `sign` the service (app/certmanager/service.go),
--     `validate_token` the review of a token (adapters/kube/tokenreview.go) and `sign_csr` the
--     signing (adapters/crypto/signer.go), over records of what the cluster and the library answer.
--   Hook (k8s/mesh/hook/internal): `Hook.Patch.Build.build_patch` is BuildPatch
--     (app/injector/service.go), with the ports in Hook.Ports, the escaping of keys in
--     Hook.Pointer, and the other parts in Hook.Patch and Hook.Patch.Containers. Hook.Handler is
--     transport/http/handler.go, Hook.Load is config/config.go. Hook.Patch.Apply has the laws of
--     the server that applies a patch, and Hook.Boot puts the environment that the hook writes
--     before the settings that Sidecar.Config reads.
--   Base has the shared helpers: numbers, lists, texts, and Go's maps as association lists.
--   Examples has the runs on concrete data.
--
-- Conventions. Instants and durations are natural numbers of nanoseconds; the instants of the rate
-- limiter count from the least int64. An unsigned 32-bit counter and an int64 product keep their
-- wrap-around, written with `% 2 ^ 32` and `% 2 ^ 64`. Methods under a mutex are atomic steps, and
-- other goroutines come in between as sequences of such steps, or inside the parameter for the
-- next handler. The loop of the retry handler recurs on the attempts that are left, and
-- that of sort.Search on fuel: as many rounds as there are elements, which is enough since each
-- round makes the range smaller. The loop of the forwarder over the requests of a connection recurs
-- on fuel too, and a run that is still serving is `none`. Log lines are left out.
--
-- Not modelled: sockets, TLS, HTTP, Prometheus, Redis, the Docker and Kubernetes clients and the
-- key material, which the source only calls; the watches of the discovery, the copying of bytes,
-- the installer and the command lines. Time only passes where
-- the model says so: a handler reads the clock, and waiting sets it.
pub mod Base
pub mod Sidecar
pub mod Plane
pub mod RateLimit
pub mod Orchestrator
pub mod CertManager
pub mod Hook
pub mod Examples
