-- ===== src/Tests/Repositories.antt =====
-- The theorem on the controller of a repository at a server that has none, and makes it.
use idpbuilder.Base.{◌≡◌, refl, true, false, none, ok}
use idpbuilder.Base.Text.{lit}
use idpbuilder.Controllers.GitRepositories.{
  gitea, local, RepoInfo, GitRepository, absent, Server, reconcile_git_repo,
}
use idpbuilder.Controllers.GitRepositories.Laws.{IsUpToDate, reconcile_git_repo_synced}

abbrev made : RepoInfo
made = record {
  name = lit "idpbuilder-dev-app";
  clone_url = lit "https://gitea/giteaAdmin/app.git";
  internal_git_repository_url = lit "http://my-gitea-http/giteaAdmin/app.git";
  full_name = lit "giteaAdmin/app";
}

abbrev empty_server : Server
empty_server = record {
  World = Unit {0};
  make_gitea_client = none;
  get_credentials = λ w.
      (ok (record { username = lit "giteaAdmin"; password = lit "p"; access_token = lit "" }), w);
  set_credentials = λ creds w. (none, w);
  get_repository = λ w. (absent, w);
  create_repository = λ w. (ok made, w);
  clone_target = λ info w. (none, w);
  clone_source = λ w. (none, w);
  write_contents = λ w. (none, w);
  copy_tree = λ w. (none, w);
  worktree = λ w. (none, w);
  add_all = λ w. (none, w);
  is_clean = λ w. (ok false, w);
  head = λ w. lit "";
  commit = λ message w. (lit "c0ffee", w);
  first_remote = λ w. (none, w);
  push = λ creds w. (none, w);
}

abbrev app : GitRepository
app = record {
  provider = gitea;
  source_type = local;
  source_path = lit "/stacks/app";
  synced = false;
  external_url = lit "";
  internal_url = lit "";
  latest_commit = lit "";
}

marked : (reconcile_git_repo empty_server none app tt).0.synced ≡ true
unfolding reconcile_git_repo
marked = refl

reconcile_git_repo_synced_example :
    IsUpToDate empty_server none app
      (reconcile_git_repo empty_server none app tt).0
      (reconcile_git_repo empty_server none app tt).2
reconcile_git_repo_synced_example = reconcile_git_repo_synced empty_server none app tt marked
