-- ===== src/Stacks/Engine/Laws.antt =====
-- An engine that is chosen is at hand, and a Podman that passes is rootful.
use idpbuilder.Base.{
  ◌≡◌, ◌≢◌, refl, subst, true, false, ◌⊎◌, inl, inr, Outcome, ok, err, Bool-cases, Outcome-cases,
  arith, ◌>>=◌, ok-injective,
}
use idpbuilder.Base.Text.{Text, ◌==◌, ==_iff, lit, trim_space, to_lower, has_infix}
use idpbuilder.Stacks.Engine.{
  EngineOptions, docker, podman, auto, resolve_container_engine, preflight_talos_container_engine,
  check_podman, validate_podman_docker_host, podman_socket_rootless, parse_podman_rootless,
  validate_podman_rootful,
}

-- What is known of the engine that is chosen.
abbrev pub IsChosen : EngineOptions → Text → Type 0
IsChosen o engine =
    (o.command_available engine ≡ true)
    × ((o.container_engine ≡ engine) ⊎ (o.container_engine ≡ auto))
    × ((engine ≡ docker)
        ⊎ ((engine ≡ podman)
            × ((o.container_engine ≡ podman) ⊎ (o.command_available docker ≡ false))))

named_docker :
    (o : EngineOptions) (engine : Text)
    → o.container_engine ≡ docker
    → resolve_container_engine o ≡ ok engine
    → IsChosen o engine
unfolding resolve_container_engine
named_docker o engine c h = elim (Bool-cases (o.command_available docker)) [
  | inl a ↦
      subst (IsChosen o)
        (ok-injective docker engine (rw ((==_iff o.container_engine docker).1 c, a) at h))
        (a, inl c, inl refl)
  | inr n ↦ absurd (ground (arith, n, h, (==_iff o.container_engine docker).1 c))
]

named_podman :
    (o : EngineOptions) (engine : Text)
    → (o.container_engine == docker) ≡ false
    → o.container_engine ≡ podman
    → resolve_container_engine o ≡ ok engine
    → IsChosen o engine
unfolding resolve_container_engine
named_podman o engine d c h = elim (Bool-cases (o.command_available podman)) [
  | inl a ↦
      subst (IsChosen o)
        (ok-injective podman engine (rw (d, (==_iff o.container_engine podman).1 c, a) at h))
        (a, inl c, inr (refl, inl c))
  | inr n ↦ absurd (ground (arith, n, h, d, (==_iff o.container_engine podman).1 c))
]

named_auto :
    (o : EngineOptions) (engine : Text)
    → (o.container_engine == docker) ≡ false
    → (o.container_engine == podman) ≡ false
    → o.container_engine ≡ auto
    → resolve_container_engine o ≡ ok engine
    → IsChosen o engine
unfolding resolve_container_engine
named_auto o engine d p c h =
    let auto' = (==_iff o.container_engine auto).1 c in
    elim (Bool-cases (o.command_available docker)) [
      | inl a ↦
          subst (IsChosen o) (ok-injective docker engine (rw (d, p, auto', a) at h))
            (a, inr c, inl refl)
      | inr n ↦ elim (Bool-cases (o.command_available podman)) [
        | inl a ↦
            subst (IsChosen o) (ok-injective podman engine (rw (d, p, auto', n, a) at h))
              (a, inr c, inr (refl, inr n))
        | inr m ↦ absurd (ground (arith, n, m, h, d, p, auto'))
      ]
    ]

-- An engine that `resolveContainerEngine` returns is on the PATH; it is the one that the option
-- names, or the option is "auto"; and it is docker, or it is podman and either the option names
-- podman or docker is not on the PATH.
pub resolve_container_engine-IsChosen :
    (o : EngineOptions) (engine : Text) → resolve_container_engine o ≡ ok engine → IsChosen o engine
unfolding resolve_container_engine
resolve_container_engine-IsChosen o engine h = elim (Bool-cases (o.container_engine == docker)) [
  | inl d ↦ named_docker o engine ((==_iff o.container_engine docker).0 d) h
  | inr d ↦ elim (Bool-cases (o.container_engine == podman)) [
    | inl p ↦ named_podman o engine d ((==_iff o.container_engine podman).0 p) h
    | inr p ↦ elim (Bool-cases (o.container_engine == auto)) [
      | inl a ↦ named_auto o engine d p ((==_iff o.container_engine auto).0 a) h
      | inr n ↦ absurd (ground (arith, d, p, n, h))
    ]
  ]
]

-- The socket in DOCKER_HOST is one of a Podman that says it is not rootless.
abbrev pub IsRootful : (docker_host : Text) → (info : Text → Outcome Text) → Type 0
IsRootful docker_host info =
    (trim_space docker_host ≢ lit "")
    × (has_infix (to_lower (trim_space docker_host)) podman ≡ true)
    × ((out : Text) × (info (trim_space docker_host) ≡ ok out)
        × (to_lower (trim_space out) ≡ lit "false"))

socket_rootful :
    (info : Outcome Text) (u : Unit {0})
    → (podman_socket_rootless info >>= validate_podman_rootful) ≡ ok u
    → (out : Text) × (info ≡ ok out) × (to_lower (trim_space out) ≡ lit "false")
unfolding podman_socket_rootless parse_podman_rootless
socket_rootful (err e) u h = cc
socket_rootful (ok out) u h = elim (Bool-cases (to_lower (trim_space out) == lit "true")) [
  | inl t ↦ absurd (ground (arith, t, h))
  | inr t ↦ elim (Bool-cases (to_lower (trim_space out) == lit "false")) [
    | inl f ↦ (out, refl, (==_iff (to_lower (trim_space out)) (lit "false")).0 f)
    | inr f ↦ absurd (ground (arith, t, f, h))
  ]
]

rootful :
    (docker_host : Text) (info : Text → Outcome Text) (u : Unit {0})
    → check_podman (trim_space docker_host) info ≡ ok u
    → IsRootful docker_host info
unfolding validate_podman_docker_host
rootful docker_host info u h = elim (Bool-cases (trim_space docker_host == lit "")) [
  | inl e ↦ absurd (ground (arith, e, h))
  | inr e ↦ elim (Bool-cases (has_infix (to_lower (trim_space docker_host)) podman)) [
    | inr i ↦ absurd (ground (arith, e, i, h))
    | inl i ↦ (
      (λ p. ground (arith, e, (==_iff (trim_space docker_host) (lit "")).1 p)),
      i,
      socket_rootful (info (trim_space docker_host)) u (rw (e, i) at h),
    )
  ]
]

-- Where `preflightTalosContainerEngine` passes, an engine was chosen; and if that is podman, then
-- DOCKER_HOST names a Podman socket, and Podman, asked there, said that it is not rootless.
pub preflight_talos_container_engine-IsRootful :
    (o : EngineOptions) (docker_host : Text) (info : Text → Outcome Text) (u : Unit {0})
    → preflight_talos_container_engine o docker_host info ≡ ok u
    → (engine : Text) × (resolve_container_engine o ≡ ok engine)
      × ((engine ≢ podman) ⊎ IsRootful docker_host info)
unfolding preflight_talos_container_engine
preflight_talos_container_engine-IsRootful o docker_host info u h =
    elim (Outcome-cases (resolve_container_engine o)) [
      | inr (e, a) ↦ absurd (ground (arith, a, h))
      | inl (engine, a) ↦ (
        engine,
        a,
        elim (Bool-cases (engine == podman)) [
          | inr n ↦ inl (λ p. ground (arith, n, (==_iff engine podman).1 p))
          | inl p ↦ inr (rootful docker_host info u (rw (a, p) at h))
        ],
      )
    ]
