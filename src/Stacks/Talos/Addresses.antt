-- ===== src/Stacks/Talos/Addresses.antt =====
-- The addresses of a Talos cluster in its network: talosDockerSubnetIP of talos.go. The package net
-- is a parameter; an IPv4 address is its 32 bits.
use idpbuilder.Base.{
  ◌≡◌, ◌≢◌, refl, sym, ◌∙◌, ap, Bool, true, ℕ, ◌+◌, ◌-◌, ◌<◌, ◌++◌, ◌||◌, not, Option, none, some,
  if◌then◌else◌, ltb, eqb, Outcome, ok, err, Error, subst, message, wrapped, arith, inl, inr,
  Bool-cases, ok-injective,
}
use idpbuilder.Base.Text.{Text, lit}

-- What net.ParseCIDR returns: the address, if it is of IPv4, and the sizes of the mask.
pub record Cidr : Type 0 where
  pub ip : Option ℕ
  pub ones : ℕ
  pub bits : ℕ

pub record Net : Type 0 where
  pub parse_cidr : Text → Outcome Cidr
  pub contains : Cidr → ℕ → Bool
  pub print_ip : ℕ → Text

abbrev pub two_to_32 : ℕ
two_to_32 = 4294967296

-- The sum of two uint32.
unfoldable pub add_uint32 : ℕ → ℕ → ℕ
add_uint32 a b = if ltb (a + b) two_to_32 then a + b else (a + b) - two_to_32

module _ (n : Net) where
  open n use {parse_cidr, contains, print_ip}

  abbrev pub contained : (subnet name : Text) → Cidr → ℕ → Outcome ℕ
  contained subnet name c out =
      if not (contains c out)
      then err (
          message (
            lit "derived Talos Docker "
            ++ name
            ++ lit " IP "
            ++ print_ip out
            ++ lit " is outside subnet "
            ++ subnet))
      else ok out

  abbrev pub derived : (subnet : Text) → (offset : ℕ) → (name : Text) → Cidr → Option ℕ → Outcome ℕ
  derived subnet offset name c none =
      err (message (lit "--talos-subnet " ++ subnet ++ lit " must be an IPv4 CIDR"))
  derived subnet offset name c (some value) =
      if not (eqb c.bits 32) || ltb 30 c.ones
      then err (
          message (
            lit "--talos-subnet " ++ subnet ++ lit " must have at least two usable IPv4 addresses"))
      else contained subnet name c (add_uint32 value offset)

  abbrev pub derived_from :
      (subnet : Text) → (offset : ℕ) → (name : Text) → Outcome Cidr → Outcome ℕ
  derived_from subnet offset name (err e) =
      err (wrapped (lit "parsing --talos-subnet " ++ subnet) e)
  derived_from subnet offset name (ok c) = derived subnet offset name c c.ip

  -- The address before it is printed.
  unfoldable pub subnet_address : (subnet : Text) → (offset : ℕ) → (name : Text) → Outcome ℕ
  unfolding add_uint32
  subnet_address subnet offset name = derived_from subnet offset name (parse_cidr subnet)

  abbrev pub printed : Outcome ℕ → Outcome Text
  printed (err e) = err e
  printed (ok out) = ok (print_ip out)

  unfoldable pub talos_docker_subnet_ip :
      (subnet : Text) → (offset : ℕ) → (name : Text) → Outcome Text
  unfolding subnet_address
  talos_docker_subnet_ip subnet offset name = printed (subnet_address subnet offset name)

  unfoldable pub talos_docker_control_plane_ip : (subnet : Text) → Outcome Text
  unfolding talos_docker_subnet_ip
  talos_docker_control_plane_ip subnet = talos_docker_subnet_ip subnet 2 (lit "control-plane")

  unfoldable pub talos_docker_gateway_ip : (subnet : Text) → Outcome Text
  unfolding talos_docker_subnet_ip
  talos_docker_gateway_ip subnet = talos_docker_subnet_ip subnet 1 (lit "gateway")

no_address : {A B : Type 0} {e : Error} {a : A} → err e ≡ ok a → B
no_address h = cc

some_value : {A : Type 0} (a b : A) → some a ≡ some b → a ≡ b
some_value a b h = cc

add_uint32-less : (a b : ℕ) → a < two_to_32 → b < two_to_32 → add_uint32 a b < two_to_32
unfolding add_uint32
add_uint32-less a b h k = ground (arith)

add_uint32_apart : (a : ℕ) → a < two_to_32 → add_uint32 a 1 ≢ add_uint32 a 2
unfolding add_uint32
add_uint32_apart a h e = ground (arith)

module _ (n : Net) where
  open n use {parse_cidr, contains, print_ip}

  -- An address that was derived: the sum, inside the network.
  abbrev IsDerived : (offset : ℕ) → Cidr → ℕ → Type 0
  IsDerived offset c out =
      (v : ℕ) × (c.ip ≡ some v) × (out ≡ add_uint32 v offset) × (contains c out ≡ true)

  derived-IsDerived :
      (o : Option ℕ) (subnet : Text) (offset : ℕ) (name : Text) (c : Cidr) (out : ℕ)
      → c.ip ≡ o
      → derived n subnet offset name c o ≡ ok out
      → IsDerived offset c out
  derived-IsDerived none subnet offset name c out e h = cc
  derived-IsDerived (some v) subnet offset name c out e h =
      elim (Bool-cases (not (eqb c.bits 32) || ltb 30 c.ones)) [
        | inl k ↦ absurd (no_address (rw k at h))
        | inr k ↦ elim (Bool-cases (contains c (add_uint32 v offset))) [
          | inr x ↦ absurd (no_address (rw (k, x) at h))
          | inl x ↦
              let same = ok-injective (add_uint32 v offset) out (rw (k, x) at h) in
              (v, e, sym same, ap (contains c) (sym same) ∙ x)
        ]
      ]

  from-IsDerived :
      (r : Outcome Cidr) (subnet : Text) (offset : ℕ) (name : Text) (out : ℕ)
      → derived_from n subnet offset name r ≡ ok out
      → (c : Cidr) × ((r ≡ ok c) × IsDerived offset c out)
  from-IsDerived (err e) subnet offset name out h = cc
  from-IsDerived (ok c) subnet offset name out h =
      (c, (refl, derived-IsDerived c.ip subnet offset name c out refl h))

  printed-ok :
      (r : Outcome ℕ) (text : Text)
      → printed n r ≡ ok text
      → (out : ℕ) × ((r ≡ ok out) × (print_ip out ≡ text))
  printed-ok (err e) text h = cc
  printed-ok (ok out) text h = (out, (refl, ok-injective (print_ip out) text h))

  -- An address of a network, of 32 bits, and its text.
  abbrev pub IsAddressOf : Cidr → Text → Type 0
  IsAddressOf c text =
      (out : ℕ) × (out < two_to_32) × (contains c out ≡ true) × (print_ip out ≡ text)

  -- The gateway and the control plane of a subnet, where both are derived, are addresses of 32 bits
  -- of that subnet, and two different ones, where net.ParseCIDR returns addresses of 32 bits and two
  -- addresses are not printed alike.
  pub talos_docker_ips_apart :
      (subnet gateway control_plane : Text)
      → ((c : Cidr) (v : ℕ) → parse_cidr subnet ≡ ok c → c.ip ≡ some v → v < two_to_32)
      → ((a b : ℕ) → a < two_to_32 → b < two_to_32 → print_ip a ≡ print_ip b → a ≡ b)
      → talos_docker_gateway_ip n subnet ≡ ok gateway
      → talos_docker_control_plane_ip n subnet ≡ ok control_plane
      → (c : Cidr) × (parse_cidr subnet ≡ ok c)
        × IsAddressOf c gateway
        × IsAddressOf c control_plane
        × (gateway ≢ control_plane)
  unfolding talos_docker_gateway_ip talos_docker_control_plane_ip talos_docker_subnet_ip
      subnet_address
  talos_docker_ips_apart subnet gateway control_plane small apart g h =
      let (a, (ga, pa)) = printed-ok (subnet_address n subnet 1 (lit "gateway")) gateway g in
      let (b, (hb, pb)) =
        printed-ok (subnet_address n subnet 2 (lit "control-plane")) control_plane h in
      let (c, (e, (v, ip, sum, inside))) =
        from-IsDerived (parse_cidr subnet) subnet 1 (lit "gateway") a ga in
      let (c', (e', (v', ip', sum', inside'))) =
        from-IsDerived (parse_cidr subnet) subnet 2 (lit "control-plane") b hb in
      let same : c ≡ c' = ok-injective c c' (sym e ∙ e') in
      let again : v ≡ v' = some_value v v' (sym ip ∙ ap (λ x. x.ip) same ∙ ip') in
      let less = small c v e ip in
      let a_less : a < two_to_32 =
        subst (λ x. x < two_to_32) (sym sum) (add_uint32-less v 1 less (omega arith)) in
      let b_less : b < two_to_32 =
        subst (λ x. x < two_to_32) (sym (sum' ∙ ap (λ x. add_uint32 x 2) (sym again)))
          (add_uint32-less v 2 less (omega arith)) in
      (
        c,
        e,
        (a, a_less, inside, pa),
        (b, b_less, ap (λ x. contains x b) same ∙ inside', pb),
        λ k. add_uint32_apart v less (
            sym sum
            ∙ apart a b a_less b_less (pa ∙ k ∙ sym pb)
            ∙ sum'
            ∙ ap (λ x. add_uint32 x 2) (sym again)),
      )
