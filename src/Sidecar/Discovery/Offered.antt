-- ===== src/Sidecar/Discovery/Offered.antt =====
-- Which endpoints the discovery finds for a service's port.
use mathlib.Core.List.{append-nil, append_assoc}
use service_mesh.Base.{
  ℕ, String, Bool, true, false, Option, none, some, List, [], ◌∷◌, ◌++◌, ◌≡◌, refl, sym, ap, ◌∙◌,
  inl, inr, arith, if◌then◌else◌, str_eq, eq_iff, Bool-cases, Option-cases,
}
use service_mesh.Base.Table.{Table, find, put, find-put}
use service_mesh.Sidecar.Context.{Endpoint}
use service_mesh.Sidecar.Discovery.Offers.{
  at_addresses, stands, open_port, ready_at, ports_offer, slices_offer,
}
use service_mesh.Sidecar.Discovery.{
  EndpointSlice, SlicePort, SliceEndpoint, ServiceMeta, build_service_key, build_service_fqdn,
  endpoints_at, add_addresses, is_ready, add_endpoints, tcp_port, is_known, add_port, add_ports,
  slice_name, add_slices,
}

tcp_port-open_port : (p : SlicePort) → tcp_port p ≡ open_port p.protocol p.port
unfolding tcp_port open_port
tcp_port-open_port p = elim (Option-cases p.protocol) [
  | inl unnamed ↦ rw unnamed refl
  | inr (protocol, named) ↦ rw named refl
]

is_ready-stands : (endpoint : SliceEndpoint) → is_ready endpoint ≡ stands endpoint.ready
unfolding is_ready stands
is_ready-stands endpoint = elim (Option-cases endpoint.ready) [
  | inl unset ↦ rw unset refl
  | inr (ready, set) ↦ rw set refl
]

endpoints_at-put :
    (k key : String) (es : List Endpoint) (t : Table (List Endpoint))
    → endpoints_at key (put k es t) ≡ (if str_eq k key then es else endpoints_at key t)
unfolding endpoints_at
endpoints_at-put k key es t = ground (arith, find-put k key es t)

-- What is added under one key: the others stay.
added : Bool → List Endpoint → List Endpoint → List Endpoint
added true old new = old ++ new
added false old new = old

added_nil : (b : Bool) (old : List Endpoint) → added b old [] ≡ old
unfolding added
added_nil true old = append-nil old
added_nil false old = refl

added_twice :
    (b : Bool) (old new more : List Endpoint)
    → added b (added b old new) more ≡ added b old (new ++ more)
unfolding added
added_twice true old new more = append_assoc old new more
added_twice false old new more = refl

one_added :
    (key k : String) (e : Endpoint) (t : Table (List Endpoint))
    → endpoints_at key (put k (endpoints_at k t ++ e ∷ []) t)
      ≡ added (str_eq k key) (endpoints_at key t) (e ∷ [])
unfolding added
one_added key k e t = elim (Bool-cases (str_eq k key)) [
  | inl same ↦
      let one : k ≡ key = ground (arith, eq_iff k key) in
      rw (endpoints_at-put k key (endpoints_at k t ++ e ∷ []) t, same)
        (ap (λ j. endpoints_at j t ++ e ∷ []) one)
  | inr other ↦ rw (endpoints_at-put k key (endpoints_at k t ++ e ∷ []) t, other) refl
]

addresses_added :
    (key k label : String) (port : ℕ) (addresses : List String) (t : Table (List Endpoint))
    → endpoints_at key (add_addresses k port label addresses t)
      ≡ added (str_eq k key) (endpoints_at key t) (at_addresses port label addresses)
unfolding add_addresses at_addresses
addresses_added key k label port [] t = sym (added_nil (str_eq k key) (endpoints_at key t))
addresses_added key k label port (address ∷ addresses) t =
    let e : Endpoint = record { ip = address; port = port; service_name = label } in
    let t1 = put k (endpoints_at k t ++ e ∷ []) t in
    addresses_added key k label port addresses t1
    ∙ (ap (λ old. added (str_eq k key) old (at_addresses port label addresses))
          (one_added key k e t)
        ∙ added_twice (str_eq k key) (endpoints_at key t) (e ∷ [])
            (at_addresses port label addresses))

-- The endpoints that are passed over leave the table as it is.
added_if :
    (ready b : Bool) (t t1 : Table (List Endpoint)) (key : String) (new : List Endpoint)
    → endpoints_at key t1 ≡ added b (endpoints_at key t) new
    → endpoints_at key (if ready then t1 else t)
      ≡ added b (endpoints_at key t) (if ready then new else [])
added_if true b t t1 key new h = h
added_if false b t t1 key new h = sym (added_nil b (endpoints_at key t))

if_append :
    (ready : Bool) (new rest : List Endpoint)
    → (if ready then new else []) ++ rest ≡ (if ready then new ++ rest else rest)
if_append true new rest = refl
if_append false new rest = refl

blank_first :
    (blank : Bool) (new rest : List Endpoint)
    → (if blank then [] else new) ++ rest ≡ (if blank then rest else new ++ rest)
blank_first true new rest = refl
blank_first false new rest = refl

endpoints_added :
    (key k label : String) (port : ℕ) (endpoints : List SliceEndpoint) (t : Table (List Endpoint))
    → endpoints_at key (add_endpoints k port label endpoints t)
      ≡ added (str_eq k key) (endpoints_at key t) (ready_at port label endpoints)
unfolding add_endpoints ready_at
endpoints_added key k label port [] t = sym (added_nil (str_eq k key) (endpoints_at key t))
endpoints_added key k label port (endpoint ∷ endpoints) t =
    let t1 = if is_ready endpoint then add_addresses k port label endpoint.addresses t else t in
    let new = at_addresses port label endpoint.addresses in
    let rest = ready_at port label endpoints in
    endpoints_added key k label port endpoints t1
    ∙ (ap (λ old. added (str_eq k key) old rest)
          (added_if (is_ready endpoint) (str_eq k key) t
            (add_addresses k port label endpoint.addresses t) key new
            (addresses_added key k label port endpoint.addresses t))
        ∙ (added_twice (str_eq k key) (endpoints_at key t) (if is_ready endpoint then new else [])
              rest
            ∙ ap (added (str_eq k key) (endpoints_at key t)) (
                if_append (is_ready endpoint) new rest
                ∙ ap (λ ready. if ready then new ++ rest else rest) (is_ready-stands endpoint))))

-- What one port offers under a key.
unfoldable pub port_offers : String → String → String → EndpointSlice → Option ℕ → List Endpoint
port_offers key namespace name slice none = []
port_offers key namespace name slice (some port) =
    if str_eq (build_service_key name port) key
    then ready_at port (build_service_fqdn name namespace) slice.endpoints
    else []

added_case : (b : Bool) (old new : List Endpoint) → added b old new ≡ old ++ (if b then new else [])
unfolding added
added_case true old new = refl
added_case false old new = sym (append-nil old)

module _ (key namespace : String) (services : Table ServiceMeta)
    (known : is_known key services ≡ true) where
  port_added :
      (name : String) (slice : EndpointSlice) (port : Option ℕ) (t : Table (List Endpoint))
      → endpoints_at key (add_port services namespace name slice port t)
        ≡ endpoints_at key t ++ port_offers key namespace name slice port
  unfolding add_port port_offers
  port_added name slice none t = sym (append-nil (endpoints_at key t))
  port_added name slice (some port) t =
      let k = build_service_key name port in
      let label = build_service_fqdn name namespace in
      let more =
        endpoints_added key k label port slice.endpoints t
        ∙ added_case (str_eq k key) (endpoints_at key t) (ready_at port label slice.endpoints) in
      elim (Bool-cases (is_known k services)) [
        | inl there ↦ rw there more
        | inr unknown ↦ elim (Bool-cases (str_eq k key)) [
          | inl same ↦
              let one : k ≡ key = ground (arith, eq_iff k key) in
              let also : is_known k services ≡ true = ap (λ j. is_known j services) one ∙ known in
              absurd (ground arith)
          | inr other ↦ rw (unknown, other) (sym (append-nil (endpoints_at key t)))
        ]
      ]

  offer_first :
      (name : String) (slice : EndpointSlice) (p : SlicePort) (ps : List SlicePort)
      → port_offers key namespace name slice (tcp_port p) ++ ports_offer key namespace name slice ps
        ≡ ports_offer key namespace name slice (p ∷ ps)
  unfolding port_offers ports_offer
  offer_first name slice p ps =
      rw (tcp_port-open_port p) (elim (Option-cases (open_port p.protocol p.port)) [
        | inl passed ↦ rw (passed, port_offers, ports_offer) refl
        | inr (port, here) ↦
            rw (here, port_offers, ports_offer)
              (if_append (str_eq (build_service_key name port) key)
                (ready_at port (build_service_fqdn name namespace) slice.endpoints)
                (ports_offer key namespace name slice ps))
      ])

  ports_added :
      (name : String) (slice : EndpointSlice) (ps : List SlicePort) (t : Table (List Endpoint))
      → endpoints_at key (add_ports services namespace name slice ps t)
        ≡ endpoints_at key t ++ ports_offer key namespace name slice ps
  unfolding add_ports ports_offer
  ports_added name slice [] t = sym (append-nil (endpoints_at key t))
  ports_added name slice (p ∷ ps) t =
      let first = port_offers key namespace name slice (tcp_port p) in
      let rest = ports_offer key namespace name slice ps in
      ports_added name slice ps (add_port services namespace name slice (tcp_port p) t)
      ∙ (ap (λ old. old ++ rest) (port_added name slice (tcp_port p) t)
          ∙ (append_assoc (endpoints_at key t) first rest
              ∙ ap (λ new. endpoints_at key t ++ new) (offer_first name slice p ps)))

  slice_added :
      (slice : EndpointSlice) (t : Table (List Endpoint)) (blank : Bool)
      → endpoints_at key
          (if blank then t else add_ports services namespace (slice_name slice) slice slice.ports t)
        ≡ endpoints_at key t
          ++ (if blank then [] else ports_offer key namespace (slice_name slice) slice slice.ports)
  slice_added slice t true = sym (append-nil (endpoints_at key t))
  slice_added slice t false = ports_added (slice_name slice) slice slice.ports t

  slices_added :
      (slices : List EndpointSlice) (t : Table (List Endpoint))
      → endpoints_at key (add_slices services namespace slices t)
        ≡ endpoints_at key t ++ slices_offer key namespace slices
  unfolding add_slices slices_offer
  slices_added [] t = sym (append-nil (endpoints_at key t))
  slices_added (slice ∷ slices) t =
      let blank = str_eq (slice_name slice) "" in
      let first =
        if blank then [] else ports_offer key namespace (slice_name slice) slice slice.ports in
      let rest = slices_offer key namespace slices in
      slices_added slices
        (if blank then t else add_ports services namespace (slice_name slice) slice slice.ports t)
      ∙ (ap (λ old. old ++ rest) (slice_added slice t blank)
          ∙ (append_assoc (endpoints_at key t) first rest
              ∙ ap (λ new. endpoints_at key t ++ new)
                  (blank_first blank
                    (ports_offer key namespace (slice_name slice) slice slice.ports) rest)))

  -- The endpoints that the discovery gathers under the key of a known service's port are just what
  -- the slices of that service offer at a port of that number: the addresses of the endpoints that do
  -- not say that they are not ready, where the port is TCP or has no protocol, in the order of the
  -- slices.
  pub gathered_are_offered :
      (slices : List EndpointSlice)
      → endpoints_at key (add_slices services namespace slices [])
        ≡ slices_offer key namespace slices
  unfolding endpoints_at find
  gathered_are_offered slices = slices_added slices []
