-- ===== src/Tests/Addresses.antt =====
-- The theorem on the addresses of a Talos cluster at the subnet 10.5.0.0/24.
use idpbuilder.Base.{
  ◌≡◌, ◌≢◌, refl, ◌∙◌, ap, ℕ, ◌<◌, [], ◌∷◌, ◌&&◌, some, leb, ltb, ok, ok-injective, subst, arith,
}
use idpbuilder.Base.Text.{Text, lit}
use idpbuilder.Stacks.Talos.Addresses.{
  Cidr, Net, two_to_32, talos_docker_gateway_ip, talos_docker_control_plane_ip, IsAddressOf,
  talos_docker_ips_apart,
}

abbrev base : ℕ
base = 168099840

abbrev subnet : Cidr
subnet = record { ip = some base; ones = 24; bits = 32 }

abbrev gateway_text : Text
gateway_text = 168099841 ∷ []

abbrev control_plane_text : Text
control_plane_text = 168099842 ∷ []

abbrev net : Net
net = record {
  parse_cidr = λ text. ok subnet;
  contains = λ c out. leb base out && ltb out 168100096;
  print_ip = λ out. out ∷ [];
}

ip-less : (c : Cidr) (v : ℕ) → ok subnet ≡ ok c → c.ip ≡ some v → v < two_to_32
ip-less c v e h =
    let same : some base ≡ some v = ap (λ x. x.ip) (ok-injective subnet c e) ∙ h in
    let value : base ≡ v = cc in subst (λ x. x < two_to_32) value (omega arith)

print-injective : (a b : ℕ) → a < two_to_32 → b < two_to_32 → a ∷ [] ≡ b ∷ [] → a ≡ b
print-injective a b h k e = cc

talos_docker_ips_apart_example :
    (c : Cidr) × (ok subnet ≡ ok c)
    × IsAddressOf net c gateway_text
    × IsAddressOf net c control_plane_text
    × (gateway_text ≢ control_plane_text)
unfolding talos_docker_gateway_ip talos_docker_control_plane_ip
talos_docker_ips_apart_example =
    talos_docker_ips_apart net (lit "10.5.0.0/24") gateway_text control_plane_text ip-less
      print-injective refl refl
