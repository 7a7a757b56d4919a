-- ===== src/Stacks/Talos/Samples.antt =====
-- Ports and commands of small clusters.
use idpbuilder.Base.{◌≡◌, refl, [], ◌∷◌}
use idpbuilder.Base.Text.{lit, cut, trim_space, ◌==◌}
use idpbuilder.Stacks.Talos.{talos_docker_https_host_port}

https_port : talos_docker_https_host_port (lit "80:80/tcp" ∷ lit "8443:443" ∷ []) ≡ lit "8443"
unfolding talos_docker_https_host_port cut trim_space ◌==◌
https_port = refl

no_https_port : talos_docker_https_host_port (lit "8443:443/udp" ∷ lit ":443" ∷ []) ≡ lit "9443"
unfolding talos_docker_https_host_port cut trim_space ◌==◌
no_https_port = refl
