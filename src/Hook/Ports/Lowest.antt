-- ===== src/Hook/Ports/Lowest.antt =====
-- The address of the application that a sidecar passes on to.
use Prim.Native.Char.{char}
use text.Mathlib.TextLemmas.{nil-append, cons-append}
use service_mesh.Base.{
  ℕ, ◌≤◌, ◌<◌, sym, Bool-cases, inl, inr, ltb→lt, String, Bool, true, false, List, [], ◌∷◌, ◌≡◌,
  refl, ◌∙◌, ap, ◌⊎◌, not, arith, map, ◌==◌, str_eq, itoa, ◌<>◌,
}
use service_mesh.Base.Space.{trim_space_same, is_space, is_digit, all_codes, all_codes-append}
use service_mesh.Base.Text.Digits.{
  itoa-all_codes, itoa-not_empty, append-not_empty, all_codes-weaken, digit_no_space,
}
use service_mesh.Base.Text.Split.{split_on_plain, split_on_first}
use service_mesh.Base.Sort.{has, increasing}
use service_mesh.Hook.{Container}
use service_mesh.Hook.Ports.Exposed.{exposes, inbound_ports_exposed}
use service_mesh.Hook.Ports.{
  inbound_ports, join, collect_inbound_ports, first_port, local_addr, derive_app_target_addr,
}

abbrev no_space : ℕ → Bool
no_space c = not (is_space c)

abbrev no_comma : ℕ → Bool
no_comma c = not (c == b',')

digit_no_comma : (c : ℕ) → is_digit c ≡ true → no_comma c ≡ true
unfolding is_digit
digit_no_comma c h = ground arith

itoa-no_space : (n : ℕ) → all_codes no_space (itoa n) ≡ true
itoa-no_space n = all_codes-weaken is_digit no_space (itoa n) digit_no_space (itoa-all_codes n)

itoa-no_comma : (n : ℕ) → all_codes no_comma (itoa n) ≡ true
itoa-no_comma n = all_codes-weaken is_digit no_comma (itoa n) digit_no_comma (itoa-all_codes n)

join-no_space : (ns : List ℕ) → all_codes no_space (join (map itoa ns)) ≡ true
unfolding join all_codes is_space
join-no_space [] = refl
join-no_space (n ∷ []) = itoa-no_space n
join-no_space (n ∷ k ∷ ns) =
    rw
      (
        all_codes-append no_space (itoa n) ("," <> join (map itoa (k ∷ ns))),
        itoa-no_space n,
        all_codes-append no_space "," (join (map itoa (k ∷ ns))),
        join-no_space (k ∷ ns),
      )
      refl

join-first : (n : ℕ) (ns : List ℕ) → first_port (join (map itoa (n ∷ ns))) ≡ itoa n
unfolding join first_port
join-first n [] = rw (first_port, split_on_plain b',' (itoa n) (itoa-no_comma n)) refl
join-first n (k ∷ ns) =
    let rest : String = join (map itoa (k ∷ ns)) in
    let comma : "," <> rest ≡ String.◌∷◌ (char b',' tt) rest =
      cons-append (char b',' tt) "" rest ∙ ap (String.◌∷◌ (char b',' tt)) (nil-append rest) in
    rw (comma, first_port, split_on_first b',' (itoa n) (char b',' tt) rest (itoa-no_comma n) refl)
      refl

join-not_empty : (n : ℕ) (ns : List ℕ) → str_eq (join (map itoa (n ∷ ns))) "" ≡ false
unfolding join
join-not_empty n [] = itoa-not_empty n
join-not_empty n (k ∷ ns) =
    append-not_empty (itoa n) ("," <> join (map itoa (k ∷ ns))) (itoa-not_empty n)

first_target :
    (cs : List Container) (lowest : ℕ) (others : List ℕ)
    → inbound_ports cs ≡ lowest ∷ others
    → derive_app_target_addr (collect_inbound_ports cs) ≡ "127.0.0.1:" <> itoa lowest
unfolding collect_inbound_ports derive_app_target_addr local_addr
first_target cs lowest others e =
    rw
      (
        e,
        trim_space_same (join (map itoa (lowest ∷ others))) (join-no_space (lowest ∷ others)),
        join-not_empty lowest others,
        join-first lowest others,
        trim_space_same (itoa lowest) (itoa-no_space lowest),
        itoa-not_empty lowest,
      )
      refl

-- The first of increasing numbers is the least.
first_least :
    (k : ℕ) (ks : List ℕ) (n : ℕ) → increasing (k ∷ ks) ≡ true → has n (k ∷ ks) ≡ true → k ≤ n
unfolding increasing has
first_least k [] n up here = ground arith
first_least k (j ∷ ks) n up here = elim (Bool-cases (k == n)) [
  | inl same ↦ ground arith
  | inr behind ↦
      let rest : j ≤ n = first_least j ks n (ground arith) (ground arith) in
      let before : k < j = ltb→lt k j (ground arith) in omega (arith, rest, before)
]

none_or_first : (ks : List ℕ) → (ks ≡ []) ⊎ ((k : ℕ) × (others : List ℕ) × (ks ≡ k ∷ others))
none_or_first [] = inl refl
none_or_first (k ∷ others) = inr (k, others, refl)

first_in : (k : ℕ) (ks : List ℕ) → has k (k ∷ ks) ≡ true
unfolding has
first_in k ks = ground arith

-- If a container of the pod that is not named `sidecar` exposes a positive port, the application's
-- address is the loopback interface with the least port that such a container exposes, read back out
-- of the text that the ports were joined to.
pub app_target_lowest :
    (cs : List Container) (port : ℕ)
    → exposes port cs ≡ true
    → (lowest : ℕ) × (exposes lowest cs ≡ true)
      × ((n : ℕ) → exposes n cs ≡ true → lowest ≤ n)
      × (derive_app_target_addr (collect_inbound_ports cs) ≡ "127.0.0.1:" <> itoa lowest)
unfolding has
app_target_lowest cs port some_port = elim (none_or_first (inbound_ports cs)) [
  | inl none_there ↦
      let member = (inbound_ports_exposed cs port).1 in
      absurd (cc (ap (has port) none_there, member, some_port))
  | inr (lowest, others, here) ↦
      let up : increasing (lowest ∷ others) ≡ true =
        ap increasing (sym here) ∙ (inbound_ports_exposed cs port).0 in
      (
        lowest,
        sym (inbound_ports_exposed cs lowest).1 ∙ (ap (has lowest) here ∙ first_in lowest others),
        λ n there.
            first_least lowest others n up
              (ap (has n) (sym here) ∙ ((inbound_ports_exposed cs n).1 ∙ there)),
        first_target cs lowest others here,
      )
]
