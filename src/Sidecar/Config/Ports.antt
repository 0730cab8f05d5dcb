-- ===== src/Sidecar/Config/Ports.antt =====
-- The check that no port is used twice.
use service_mesh.Base.{
  ℕ, ◌≤◌, true, false, none, [], ◌⊎◌, inl, inr, ◌≡◌, ◌≢◌, refl, sym, arith, Bool-cases, length,
}
use service_mesh.Base.Int.{ℤ, is_positive, int_eq, int_eq_refl, int_eq_sound}
use service_mesh.Sidecar.Config.{Readers, Config, checks, validate, ports, put_key}
use service_mesh.Sidecar.Config.Usable.{validate-All, none_of-All, all_three}

differ_int : (a b : ℤ) → a ≢ b → int_eq a b ≡ false
differ_int a b h = elim (Bool-cases (int_eq a b)) [
  | inl same ↦ absurd (h (int_eq_sound a b same))
  | inr other ↦ other
]

-- The number of ports when mutual TLS has none.
abbrev keys : ℤ → ℤ → ℤ → ℕ
keys a b c = length (put_key c (put_key b (put_key a [])))

too_few : (a b c : ℤ) → (b ≡ a) ⊎ ((c ≡ a) ⊎ (c ≡ b)) → keys a b c ≤ 2
unfolding put_key
too_few a b c (inl e) = rw e (ground (arith, int_eq_refl a))
too_few a b c (inr (inl e)) = rw e (ground (arith, int_eq_refl a))
too_few a b c (inr (inr e)) = rw e (ground (arith, int_eq_refl b))

-- Valid settings with no port for mutual TLS use no port twice.
plain_ports_distinct :
    (go : Readers) (c : Config)
    → validate go c ≡ none
    → is_positive c.inbound_mtls_port ≡ false
    → (c.outbound_port ≢ c.inbound_plain_port)
      × ((c.metrics_port ≢ c.inbound_plain_port) × (c.metrics_port ≢ c.outbound_port))
unfolding checks ports
plain_ports_distinct go c h off =
    let counted = (validate-All go c h).1.1.1.0 in
    let enough : 3 ≤ keys c.inbound_plain_port c.outbound_port c.metrics_port = ground (arith) in
    (
      λ e. absurd (omega (arith, too_few _ _ _ (inl e), enough)),
      (
        λ e. absurd (omega (arith, too_few _ _ _ (inr (inl e)), enough)),
        λ e. absurd (omega (arith, too_few _ _ _ (inr (inr e)), enough)),
      ),
    )

three_keys :
    (a b c : ℤ)
    → c ≢ a
    → b ≢ a
    → b ≢ c
    → length (put_key b (put_key c (put_key b (put_key a [])))) ≡ 3
unfolding put_key
three_keys a b c ca ba bc = ground (
  arith,
  differ_int a c (λ e. ca (sym e)),
  differ_int a b (λ e. ba (sym e)),
  differ_int b c bc,
  int_eq_refl b,
)

-- The check on ports accepts a port that is used twice when mutual TLS has one: valid settings whose
-- ports for inbound connections, for mutual TLS and for metrics differ stay valid when the outbound
-- listener is given the port of mutual TLS.
pub shared_port_accepted :
    (go : Readers) (c : Config)
    → validate go c ≡ none
    → is_positive c.inbound_mtls_port ≡ true
    → c.metrics_port ≢ c.inbound_plain_port
    → c.inbound_mtls_port ≢ c.inbound_plain_port
    → c.inbound_mtls_port ≢ c.metrics_port
    → validate go (record c { outbound_port = c.inbound_mtls_port }) ≡ none
unfolding checks ports validate
shared_port_accepted go c h on mp tp tm =
    let (a1, (a2, (a3, (a4, rest)))) = validate-All go c h in
    let positive = all_three _ _ _ a1 in
    let count : length (ports (record c { outbound_port = c.inbound_mtls_port })) ≡ 3 =
      rw on (three_keys c.inbound_plain_port c.inbound_mtls_port c.metrics_port mp tp tm) in
    none_of-All (checks go (record c { outbound_port = c.inbound_mtls_port }))
      (rw (positive.0, on, positive.1.1) refl, (a2, (a3, (rw count refl, rest))))
