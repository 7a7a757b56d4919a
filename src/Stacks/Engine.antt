-- ===== src/Stacks/Engine.antt =====
-- The choice of a container engine and the checks of Podman: container_engine.go. Which commands
-- are on the PATH, and what they answer, are parameters.
pub mod Laws
use idpbuilder.Base.{
  Bool, true, false, ℕ, zero, suc, ◌+◌, List, [], ◌∷◌, ◌++◌, ◌||◌, not, if◌then◌else◌, Outcome, ok,
  err, Error, message, wrapped, ◌>>=◌,
}
use idpbuilder.Base.Text.{Text, ◌==◌, lit, trim_space, to_lower, has_infix}

abbrev pub docker : Text
docker = lit "docker"

abbrev pub podman : Text
podman = lit "podman"

abbrev pub skopeo : Text
skopeo = lit "skopeo"

abbrev pub auto : Text
auto = lit "auto"

-- The options that are read, and the answer of exec.LookPath for a command.
pub record EngineOptions : Type 0 where
  pub container_engine : Text
  pub seed_image_push_engine : Text
  pub cluster_name : Text
  pub talos_workers : ℕ
  pub command_available : Text → Bool

unfoldable pub resolve_container_engine : EngineOptions → Outcome Text
resolve_container_engine o =
    if o.container_engine == docker
    then (if not (o.command_available docker)
        then err
            (message (lit "--container-engine=docker selected but docker was not found on PATH"))
        else ok docker)
    else if o.container_engine == podman
    then (if not (o.command_available podman)
        then err
            (message (lit "--container-engine=podman selected but podman was not found on PATH"))
        else ok podman)
    else if o.container_engine == auto
    then (if o.command_available docker
        then ok docker
        else if o.command_available podman
        then ok podman
        else err (message (lit "--container-engine=auto could not find docker or podman on PATH")))
    else err (message (lit "unsupported container engine " ++ o.container_engine))

unfoldable pub validate_podman_docker_host : (docker_host : Text) → Outcome (Unit {0})
validate_podman_docker_host docker_host =
    if docker_host == lit ""
    then err (message (lit "--container-engine=podman requires DOCKER_HOST"))
    else if not (has_infix (to_lower docker_host) podman)
    then err (
        message (
          lit "--container-engine=podman requires DOCKER_HOST to point at a Podman socket; got "
          ++ docker_host))
    else ok tt

unfoldable pub parse_podman_rootless : (out : Text) → Outcome Bool
parse_podman_rootless out =
    if to_lower (trim_space out) == lit "true"
    then ok true
    else if to_lower (trim_space out) == lit "false"
    then ok false
    else err (message (lit "could not parse Podman rootless status from " ++ trim_space out))

-- `info` is the output of `podman --remote --url DOCKER_HOST info` with the format of the field.
unfoldable pub podman_socket_rootless : (info : Outcome Text) → Outcome Bool
unfolding parse_podman_rootless
podman_socket_rootless (err e) = err (wrapped (lit "checking Podman socket rootless mode") e)
podman_socket_rootless (ok out) = parse_podman_rootless out

abbrev pub validate_podman_rootful : (rootless : Bool) → Outcome (Unit {0})
validate_podman_rootful true = err (
    message
      (lit "Talos Docker parity requires rootful Podman; the socket in DOCKER_HOST is rootless"))
validate_podman_rootful false = ok tt

-- `info` is asked of the trimmed DOCKER_HOST.
abbrev pub check_podman : (docker_host : Text) → (info : Text → Outcome Text) → Outcome (Unit {0})
check_podman docker_host info = validate_podman_docker_host docker_host >>= λ _.
    podman_socket_rootless (info docker_host) >>= validate_podman_rootful

abbrev pub preflight_engine :
    (docker_host : Text) → (info : Text → Outcome Text) → (engine : Text) → Outcome (Unit {0})
preflight_engine docker_host info engine =
    if not (engine == podman) then ok tt else check_podman (trim_space docker_host) info

unfoldable pub preflight_talos_container_engine :
    EngineOptions → (docker_host : Text) → (info : Text → Outcome Text) → Outcome (Unit {0})
unfolding resolve_container_engine validate_podman_docker_host podman_socket_rootless
preflight_talos_container_engine o docker_host info =
    resolve_container_engine o >>= preflight_engine docker_host info

unfoldable pub push_engine_for : (container_engine : Text) → Text
push_engine_for container_engine = if container_engine == podman then skopeo else docker

unfoldable pub resolve_seed_image_push_engine : EngineOptions → Outcome Text
unfolding resolve_container_engine push_engine_for
resolve_seed_image_push_engine o =
    let resolved = resolve_container_engine o >>= λ engine. ok (push_engine_for engine) in
    if o.seed_image_push_engine == docker || o.seed_image_push_engine == skopeo
    then ok o.seed_image_push_engine
    else if o.seed_image_push_engine == auto
    then resolved
    else err (message (lit "unsupported seed image push engine " ++ o.seed_image_push_engine))
