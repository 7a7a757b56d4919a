-- ===== src/Stacks/Talos.antt =====
-- The arguments and the ports of a Talos cluster in Docker: talos.go. Decimal printing and the
-- versions found in the repository are arguments.
mod Samples
pub mod Addresses
use idpbuilder.Base.{
  Bool, true, false, ℕ, zero, suc, ◌+◌, List, [], ◌∷◌, ◌++◌, ◌&&◌, ◌||◌, not, Option, none, some,
  if◌then◌else◌, Outcome, ok, err, message, ◌>>=◌, any,
}
use idpbuilder.Base.Text.{Text, ◌==◌, lit, trim_space, trim_prefix, cut}

pub record TalosOptions : Type 0 where
  pub cluster_name : Text
  pub kube_version : Text
  pub talos_image : Text
  pub talos_workers : ℕ
  pub talos_subnet : Text
  pub talos_control_memory : Text
  pub talos_worker_memory : Text
  pub talos_control_cpus : Text
  pub talos_worker_cpus : Text
  pub talos_worker_config_patches : List Text
  pub talos_exposed_ports : List Text
  pub talos_config_patches : List Text
  pub talos_mounts : List Text

unfoldable pub has_values : List Text → Bool
unfolding any
has_values values = any (λ value. not (trim_space value == lit "")) values

-- `flag` before each value that is not blank.
unfoldable pub flagged : (flag : Text) → List Text → List Text
flagged flag [] = []
flagged flag (value ∷ values) =
    let rest = flagged flag values in
    if not (trim_space value == lit "") then flag ∷ value ∷ rest else rest

-- The two versions, once those that the options leave out are filled in.
abbrev pub cluster_args : (decimal : ℕ → Text) → TalosOptions → Text × Text → Outcome (List Text)
cluster_args decimal o (kube_version, talos_image) =
    if kube_version == lit ""
    then err (
        message (lit "could not determine Kubernetes version for talos-docker; set --kube-version"))
    else if talos_image == lit ""
    then err (message (lit "could not determine Talos image for talos-docker; set --talos-image"))
    else ok (
        (lit "cluster" ∷ lit "create" ∷ lit "docker" ∷ [])
        ++ (lit "--name" ∷ o.cluster_name ∷ lit "--workers" ∷ decimal o.talos_workers ∷ [])
        ++ (lit "--kubernetes-version" ∷ trim_prefix kube_version (lit "v") ∷ [])
        ++ (lit "--image" ∷ talos_image ∷ lit "--subnet" ∷ o.talos_subnet ∷ [])
        ++ (lit "--memory-controlplanes" ∷ o.talos_control_memory ∷ [])
        ++ (lit "--memory-workers" ∷ o.talos_worker_memory ∷ [])
        ++ (lit "--cpus-controlplanes" ∷ o.talos_control_cpus ∷ [])
        ++ (lit "--cpus-workers" ∷ o.talos_worker_cpus ∷ [])
        ++ flagged (lit "--config-patch-workers") o.talos_worker_config_patches
        ++ flagged (lit "--exposed-ports") o.talos_exposed_ports
        ++ flagged (lit "--config-patch") o.talos_config_patches
        ++ flagged (lit "--mount") o.talos_mounts)

-- What the options leave out is taken from the versions that are detected, Talos first.
abbrev pub fill_versions : TalosOptions → Text × Text → Text × Text
fill_versions o (talos_version, kube_version) = (
  (if o.kube_version == lit "" then kube_version else o.kube_version),
  (if o.talos_image == lit ""
      then lit "ghcr.io/siderolabs/talos:v" ++ talos_version
      else o.talos_image),
)

unfoldable pub talos_docker_create_args :
    (decimal : ℕ → Text) → (detected : Outcome (Text × Text)) → TalosOptions → Outcome (List Text)
unfolding flagged
talos_docker_create_args decimal detected o =
    let filled = detected >>= λ versions. cluster_args decimal o (fill_versions o versions) in
    if o.kube_version == lit "" || o.talos_image == lit ""
    then filled
    else cluster_args decimal o (o.kube_version, o.talos_image)

abbrev pub or_empty : Option Text → Text
or_empty none = lit ""
or_empty (some t) = t

-- Whether "CONTAINER_PORT/PROTOCOL" is the port of HTTPS over TCP.
abbrev pub is_https : Text → Bool
is_https container_spec =
    let (container_port, protocol) = cut 47 container_spec in
    container_port == lit "443" && (or_empty protocol == lit "" || or_empty protocol == lit "tcp")

-- The host port of one exposed port, if that is the port of HTTPS.
unfoldable pub https_host_port : Text → Option Text
https_host_port port =
    let (host_port, container_spec) = cut 58 (trim_space port) in
    elim container_spec [
      | none ↦ none
      | some spec ↦
          if not (trim_space port == lit "") && not (host_port == lit "") && is_https spec
          then some host_port
          else none
    ]

unfoldable pub talos_docker_https_host_port : List Text → Text
unfolding https_host_port
talos_docker_https_host_port [] = lit "9443"
talos_docker_https_host_port (port ∷ ports) =
    let rest = talos_docker_https_host_port ports in
    elim (https_host_port port) [ some host_port ↦ host_port | none ↦ rest ]

-- A command with its arguments.
abbrev pub CommandInvocation : Type 0
CommandInvocation = Text × List Text

-- The workers from `i` on, `left` of them.
unfoldable pub remove_workers :
    (decimal : ℕ → Text) → (engine cluster_name : Text) → (i left : ℕ) → List CommandInvocation
remove_workers decimal engine cluster_name i zero = []
remove_workers decimal engine cluster_name i (suc left) =
    (engine, lit "rm" ∷ lit "-f" ∷ (cluster_name ++ lit "-worker-" ++ decimal i) ∷ [])
    ∷ remove_workers decimal engine cluster_name (suc i) left

unfoldable pub cleanup_commands_for_engine :
    (decimal : ℕ → Text) → TalosOptions → (engine : Text) → List CommandInvocation
unfolding remove_workers
cleanup_commands_for_engine decimal o engine =
    (engine, lit "rm" ∷ lit "-f" ∷ (o.cluster_name ++ lit "-controlplane-1") ∷ [])
      ∷ remove_workers decimal engine o.cluster_name 1 o.talos_workers
    ++ (engine, lit "network" ∷ lit "rm" ∷ o.cluster_name ∷ []) ∷ []
