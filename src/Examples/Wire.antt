-- ===== src/Examples/Wire.antt =====
-- The forwarder with a network that answers and one that refuses.
use service_mesh.Base.{
  ℕ, ◌+◌, String, true, false, Option, none, some, [], ◌∷◌, ◌≡◌, refl, ◌⊎◌, inl, inr, arith, ◌<>◌,
}
use service_mesh.Base.Table.{find}
use service_mesh.Sidecar.Errors.{Error, as_sidecar, errorf, is_establish_error}
use service_mesh.Sidecar.Context.{ConnContext, background, text, flag, get_string, get_bool}
use service_mesh.Sidecar.Forwarder.{
  Reads, Network, Forwarder, Request, buffered_copy, size, peek, first_codes, is_method_prefix,
}
use service_mesh.Sidecar.Forwarder.Handle.{handle, looks_like_http_request, bridge_connections}
use service_mesh.Sidecar.Forwarder.Peek.{stream, total}
use service_mesh.Sidecar.Forwarder.Dialed.{IsMeshBound, dialed_keeps_stream, failed_dial_loses_read}
use service_mesh.Sidecar.Forwarder.Ends.{Consumes, handle_ends}
use service_mesh.Sidecar.Forwarder.Hidden.{http_failure_hidden}

abbrev get : Request
get = record {
  method = "GET";
  request_uri = "/";
  scheme = "";
  host = "cart";
  path = "/";
  body = none;
  get_body = none;
  close = false;
}

-- The whole buffer is one request.
abbrev read_buffer : String → Reads → (Error ⊎ Request) × String × Reads
read_buffer String.[] reads = (inl (errorf "EOF"), "", [])
read_buffer (String.◌∷◌ c s) reads = (inr get, "", reads)

-- The state counts the calls. The dials and the round trips end with `err`, or go well.
abbrev network : Option Error → Network ℕ
network err = record {
  set_read_deadline = λ n. (true, n + 1);
  dial = λ c addr n. (err, n + 1);
  dial_tls = λ c addr name n. (err, n + 1);
  bridge = λ mode buffered reads n. (none, none, n + 1);
  read_request = read_buffer;
  round_trip = λ c name request n.
      (elim err [ none ↦ inr (record { payload = "ok"; close = false }) | some e ↦ inl e ], n + 1);
  close_idle_connections = λ name n. n + 1;
  write_response = λ response n. (none, n + 1);
  close_body = λ response n. (none, n + 1);
}

abbrev forwarder : Forwarder
forwarder = record { tls_config = true; copy_mode = buffered_copy }

abbrev to_cart : ConnContext
to_cart = record {
  context = background;
  client_conn = 7;
  original_dst = "10.0.0.5:80";
  metadata = some (
      ("target_addr", text "10.1.0.1:80")
      ∷ ("server_name", text "cart.default")
      ∷ ("in_mesh", flag true)
      ∷ []);
}

to_cart-IsMeshBound : IsMeshBound forwarder to_cart
unfolding get_string get_bool find
to_cart-IsMeshBound = record { has_target = refl; in_mesh = refl; has_tls = refl }

abbrev no_route : Error
no_route = errorf "no route to host"

abbrev pieces : Reads
pieces = some "HE" ∷ none ∷ some "LO" ∷ []

dialed_keeps_stream_example :
    (buffered : String) × (rest : Reads) × (n : ℕ) × (handle
        (network none)
        9
        forwarder
        to_cart
        pieces
        0
      ≡ some (bridge_connections (network none) forwarder buffered rest n))
    × (buffered <> stream rest ≡ stream pieces)
unfolding get_string looks_like_http_request peek find
dialed_keeps_stream_example =
    dialed_keeps_stream (network none) forwarder to_cart to_cart-IsMeshBound 9 pieces 0 refl
      (λ n. refl) refl

failed_dial_loses_read_example :
    (e : Error) × (n : ℕ) × (handle
        (network (some no_route))
        9
        forwarder
        to_cart
        (some "HELLO" ∷ some "CART" ∷ [])
        0
      ≡ some (some e, some "CART" ∷ [], n))
    × (is_establish_error (some e) ≡ true)
unfolding size as_sidecar is_method_prefix first_codes
failed_dial_loses_read_example =
    failed_dial_loses_read (network (some no_route)) forwarder to_cart to_cart-IsMeshBound 9 "HELLO"
      (some "CART" ∷ []) 0 no_route refl (λ n. refl) (λ n. refl) refl refl

read_buffer-Consumes : Consumes (network none)
unfolding size total
read_buffer-Consumes String.[] reads request h = absurd (ground arith)
read_buffer-Consumes (String.◌∷◌ c s) reads request h = omega arith

handle_ends_example :
    (r : Option Error × Reads × ℕ) × (handle
        (network none)
        30
        forwarder
        to_cart
        (some "GET / HTTP/1.1" ∷ [])
        0
      ≡ some r)
unfolding total size
handle_ends_example =
    handle_ends (network none) 30 forwarder to_cart (some "GET / HTTP/1.1" ∷ []) 0
      read_buffer-Consumes (omega arith)

http_failure_hidden_example :
    (e : Error) × (rest : Reads) × (n : ℕ) × (handle
        (network (some no_route))
        2
        forwarder
        to_cart
        (some "GET / HTTP/1.1" ∷ [])
        0
      ≡ some (some e, rest, n))
    × (is_establish_error (some e) ≡ false)
unfolding looks_like_http_request peek as_sidecar
http_failure_hidden_example =
    http_failure_hidden (network (some no_route)) 1 forwarder to_cart (some "GET / HTTP/1.1" ∷ []) 0
      get no_route to_cart-IsMeshBound refl refl refl (λ sent n. refl)
