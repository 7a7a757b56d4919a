-- ===== src/Tests/Packages.antt =====
-- The theorems on custom packages at an API server that keeps a list of them.
use idpbuilder.Base.{
  ◌≡◌, ◌≢◌, refl, ap, ◌∙◌, sym, true, false, not, List, [], ◌∷◌, Option, none, some, if◌then◌else◌,
  select, ok, inl, inr, arith, ◌⊎◌, Bool-cases, subst, ok-injective,
}
use idpbuilder.Base.Text.{Text, lit, ◌==◌, ==_self}
use idpbuilder.Controllers.Packages.{
  ℤ, pos, CustomPackage, Localbuild, Manifest, Cluster, deleted, no_remote, reconcile_custom_pkg,
  is_supported_argo_cd_types,
}
use idpbuilder.Controllers.Packages.Ranks.{Serves, Listed, IsOneRank}
use idpbuilder.Controllers.Packages.Winner.{HasWinner, reconcile_custom_pkg_wins}

abbrev without : Text → List CustomPackage → List CustomPackage
without name w = select (λ p. not (p.name == name)) w

Listed-without :
    (w : List CustomPackage) (name : Text) (p : CustomPackage)
    → Listed p (without name w)
    → Listed p w × ((p.name == name) ≡ false)
unfolding select
Listed-without [] name p h = absurd h
Listed-without (q ∷ w) name p h = elim (Bool-cases (q.name == name)) [
  | inl e ↦ let (i, n) = Listed-without w name p (rw e at h) in (inr i, n)
  | inr e ↦
      let here : (p ≡ q) ⊎ Listed p (without name w) = rw e at h in
      elim here [
        | inl same ↦ (inl same, ap (λ x. x.name == name) same ∙ e)
        | inr i ↦ let (j, n) = Listed-without w name p i in (inr j, n)
      ]
]

abbrev fresh : Text → CustomPackage
fresh name = record {
  name = name;
  annotations = [];
  spec = record {
    replicate = false;
    git_server_url = lit "";
    internal_git_serve_url = lit "";
    auth_secret_name = lit "";
    auth_secret_namespace = lit "";
    argo_cd = record {
      application_file = lit "";
      name = lit "";
      namespace = lit "";
      type = lit "";
    };
    remote_repository = no_remote;
  };
  synced = false;
}

abbrev found_or_fresh : Text → List CustomPackage → CustomPackage
found_or_fresh name [] = fresh name
found_or_fresh name (p ∷ w) =
    let later = found_or_fresh name w in if p.name == name then p else later

abbrev scan : Text → Option ℤ
scan [] = none
scan (n ∷ []) = some (pos n)
scan (n ∷ m ∷ text) = none

-- Every manifest is of the application that its bytes name.
abbrev named : Text → Manifest
named bytes = record {
  gvk = some (lit "argoproj.io", lit "Application");
  kind = lit "Application";
  name = bytes;
  namespace = lit "argocd";
}

abbrev pub server : Cluster
server = record {
  World = List CustomPackage;
  list_packages = λ w. (ok w, w);
  delete_package = λ p w. (deleted, without p.name w);
  create_or_update = λ name change w. (none, change (found_or_fresh name w) ∷ without name w);
  decode = λ bytes. ok (named bytes);
  argo_group = lit "argoproj.io";
  application_kind = lit "Application";
  application_set_kind = lit "ApplicationSet";
  scan_int = scan;
  print_int = λ n. n ∷ [];
  read_dir = λ path w. ok (record { name = lit "app.yaml"; is_regular = true } ∷ []);
  open_file = λ path w. ok tt;
  stat_is_regular = λ path w. ok true;
  read_file = λ path w. ok (lit "app");
}

differ : (q p : CustomPackage) → (p.name == q.name) ≡ false → p ≢ q
differ q p n e = ground (arith, n, sym (ap (λ x. p.name == x.name) e), ==_self p.name)

ok-Listed :
    (w packages : List CustomPackage) (p : CustomPackage)
    → ok w ≡ ok packages
    → Listed p packages
    → Listed p w
ok-Listed w packages p e h = subst (Listed p) (sym (ok-injective w packages e)) h

served : Serves server
served = record {
  Holds = λ w p. Listed p w;
  list_keeps = λ w p h. h;
  list_shows = λ w packages p e h. subst (Listed p) (ok-injective w packages e) h;
  list_sound = ok-Listed;
  delete_keeps = λ w q p h. (Listed-without w q.name p h).0;
  delete_removes = λ w q p gone h e. absurd (differ q p (Listed-without w q.name p h).1 e);
  put_changes = λ w name change p h. elim h [
    | inl e ↦ inr (found_or_fresh name w, e)
    | inr i ↦ inl (Listed-without w name p i).0
  ];
  put_puts = λ w name change e. (found_or_fresh name w, inl refl);
  reads_back = λ n. refl;
}

abbrev pub build : Localbuild
build = record {
  annotations = [];
  external_url = lit "https://gitea.cnoe.localtest.me";
  internal_url = lit "http://my-gitea-http";
  admin_user_secret_name = lit "gitea-credential";
  admin_user_secret_namespace = lit "gitea";
}

nothing-IsOneRank : IsOneRank server served []
unfolding served
nothing-IsOneRank p q a b h i e x y = absurd h

placed :
    (reconcile_custom_pkg server build (lit "app") (lit "a.yaml") none 3 (lit "a") []).0 ≡ ok tt
unfolding reconcile_custom_pkg ◌==◌
placed = refl

reconcile_custom_pkg_wins_example :
    HasWinner server served
      (lit "app")
      3
      (reconcile_custom_pkg server build (lit "app") (lit "a.yaml") none 3 (lit "a") []).1
    × IsOneRank server served
        (reconcile_custom_pkg server build (lit "app") (lit "a.yaml") none 3 (lit "a") []).1
unfolding ◌==◌ is_supported_argo_cd_types
reconcile_custom_pkg_wins_example =
    reconcile_custom_pkg_wins server served build (named (lit "app")) (lit "app") (lit "a.yaml")
      none 3 (lit "a") [] refl refl nothing-IsOneRank placed
