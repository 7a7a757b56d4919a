-- ===== src/Tests/Remotes.antt =====
-- The theorem on targets of packages at a target in the style of scp.
use idpbuilder.Base.{if◌then◌else◌, ◌≡◌, refl, ◌∷◌, ◌++◌, none, ok}
use idpbuilder.Base.Text.{lit, ◌==◌, trim_prefix, trim_suffix, has_prefix}
use idpbuilder.Controllers.Packages.{pos}
use idpbuilder.Util.Remotes.{
  KustomizeRemote, Urls, has_colon, cut_delimiter, clone_url, new_kustomize_remote,
}
use idpbuilder.Util.Remotes.Laws.{new_kustomize_remote-clone_url}

abbrev urls : Urls
urls = record {
  parse_url = λ raw. has_colon;
  parse_query = λ query. ok (λ key. lit "");
  atoi = λ text. none;
  times_second = λ n. n;
  parse_duration = λ text. none;
  parse_bool = λ text. none;
  default_timeout = pos 27000000000;
}

new_kustomize_remote-clone_url_example :
    (g : KustomizeRemote) × (new_kustomize_remote urls (
        (lit "git" ++ 64 ∷ lit "github.com")
        ++ 58 ∷ (lit "cnoe-io/stacks" ++ 47 ∷ 47 ∷ lit "basic"))
      ≡ ok g)
    × (clone_url g ≡ lit "git" ++ (64 ∷ (lit "github.com" ++ (58 ∷ lit "cnoe-io/stacks"))))
    × (g.scheme ≡ lit "")
    × (g.user ≡ lit "git")
    × (g.password ≡ lit "")
    × (g.host ≡ lit "github.com")
    × (g.repo_path ≡ lit "cnoe-io/stacks")
    × (g.file_path ≡ lit "basic")
    × (g.ref ≡ (if lit "" == lit "" then lit "" else lit ""))
unfolding ◌==◌ cut_delimiter trim_prefix trim_suffix has_prefix
new_kustomize_remote-clone_url_example =
    new_kustomize_remote-clone_url urls (lit "git") (lit "github.com") (lit "cnoe-io/stacks")
      (lit "basic") (λ key. lit "") refl refl refl refl refl refl refl refl refl refl
