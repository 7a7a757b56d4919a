-- ===== src/Controllers/GitRepositories.antt =====
-- The controller of a GitRepository: reconcileGitRepo, reconcileLocalRepoContent,
-- reconcileRemoteRepoContent and addAllAndCommit of pkg/controllers/gitrepository/controller.go, and
-- updateRepoContent of gitea.go and github.go. The provider's API, git and the files are a parameter.
pub mod Laws
use idpbuilder.Base.{
  Bool, true, false, List, [], ◌∷◌, ◌++◌, not, Option, none, some, if◌then◌else◌, Outcome, ok, err,
  Error, message, wrapped,
}
use idpbuilder.Base.Text.{Text, lit}

pub data ProviderName : Type 0 where
  gitea : ProviderName
  github : ProviderName
  other : Text → ProviderName

pub data SourceType : Type 0 where
  local : SourceType
  embedded : SourceType
  remote : SourceType
  unknown : SourceType

pub record RepoInfo : Type 0 where
  pub name : Text
  pub clone_url : Text
  pub internal_git_repository_url : Text
  pub full_name : Text

pub record Credentials : Type 0 where
  pub username : Text
  pub password : Text
  pub access_token : Text

-- What is read and set of a GitRepository.
pub record GitRepository : Type 0 where
  pub provider : ProviderName
  pub source_type : SourceType
  pub source_path : Text
  pub synced : Bool
  pub external_url : Text
  pub internal_url : Text
  pub latest_commit : Text

-- What a provider answers on a repository.
pub data Answer : Type 0 where
  present : RepoInfo → Answer
  absent : Answer
  failed : Error → Answer

pub record Server : Type 1 where
  pub World : Type 0
  -- The client of Gitea.
  pub make_gitea_client : Option Error
  pub get_credentials : World → Outcome Credentials × World
  pub set_credentials : Credentials → World → Option Error × World
  pub get_repository : World → Answer × World
  pub create_repository : World → Outcome RepoInfo × World
  -- Clones of the target, and of the source with a copy of its files into the target.
  pub clone_target : RepoInfo → World → Option Error × World
  pub clone_source : World → Option Error × World
  pub write_contents : World → Option Error × World
  pub copy_tree : World → Option Error × World
  -- Git in the clone of the target.
  pub worktree : World → Option Error × World
  pub add_all : World → Option Error × World
  pub is_clean : World → Outcome Bool × World
  -- The hash of HEAD. The code drops the error of Head, and where there is one it reads the hash of
  -- a nil pointer, which has no counterpart here.
  pub head : World → Text
  -- The hash, which is zero where the commit fails.
  pub commit : (message : Text) → World → Text × World
  pub first_remote : World → Option Error × World
  pub push : Credentials → World → Option Error × World

module _ (h : Server) where
  open h use {World}

  abbrev pub Act : Type 0 → Type 0
  Act A = World → Outcome A × World

  infixl 5 ◌>>=◌
  abbrev pub ◌>>=◌ : {A B : Type 0} → Act A → (A → Act B) → Act B
  ◌>>=◌ first rest w =
      let (answer, w') = first w in elim answer [ err e ↦ (err e, w') | ok a ↦ rest a w' ]

  abbrev pub wrap_answer : {A : Type 0} → Text → Outcome A × World → Outcome A × World
  wrap_answer text (err e, w) = (err (wrapped text e), w)
  wrap_answer text (ok a, w) = (ok a, w)

  abbrev pub wrap_failure : Text → Option Error × World → Outcome (Unit {0}) × World
  wrap_failure text (none, w) = (ok tt, w)
  wrap_failure text (some e, w) = (err (wrapped text e), w)

  -- A call and `if err != nil { return fmt.Errorf("...: %w", err) }`.
  abbrev pub check : Text → (World → Option Error × World) → Act (Unit {0})
  check text call w = wrap_failure text (call w)

  abbrev pub return : {A : Type 0} → A → Act A
  return a w = (ok a, w)

  -- The hash, and whether there is something to push. The error of the commit is dropped.
  abbrev pub commit_unless : (path : Text) → Bool → Act (Text × Bool)
  commit_unless path true w = (ok (h.head w, false), w)
  commit_unless path false w =
      let (hash, w') = h.commit (lit "updated from " ++ path) w in (ok (hash, true), w')

  unfoldable pub add_all_and_commit : (path : Text) → Act (Text × Bool)
  add_all_and_commit path = check (lit "getting git worktree") h.worktree >>= λ _.
      check (lit "adding git files") h.add_all >>= λ _.
      (λ w. wrap_answer (lit "getting git status") (h.is_clean w)) >>= commit_unless path

  -- The hash is what becomes the latest commit.
  abbrev pub push_if : Credentials → Text × Bool → Act Text
  push_if creds (hash, false) = return hash
  push_if creds (hash, true) = check (lit "getting remote url") h.first_remote >>= λ _.
      check (lit "pushing to git") (h.push creds) >>= λ _. return hash

  unfoldable pub commit_and_push_clone : GitRepository → Credentials → Act Text
  unfolding add_all_and_commit
  commit_and_push_clone repo creds =
      (λ w. wrap_answer (lit "add and commit") (add_all_and_commit repo.source_path w))
      >>= push_if creds

  unfoldable pub reconcile_local_repo_content : GitRepository → RepoInfo → Credentials → Act Text
  unfolding commit_and_push_clone
  reconcile_local_repo_content repo info creds =
      check (lit "cloning repo " ++ info.clone_url) (h.clone_target info) >>= λ _.
      check (lit "writing repo contents") h.write_contents >>= λ _. commit_and_push_clone repo creds

  unfoldable pub reconcile_remote_repo_content : GitRepository → RepoInfo → Credentials → Act Text
  unfolding commit_and_push_clone
  reconcile_remote_repo_content repo info creds = check (lit "cloning repo") h.clone_source >>= λ _.
      check (lit "cloning repo") (h.clone_target info) >>= λ _.
      check (lit "copying contents, " ++ info.clone_url) h.copy_tree >>= λ _.
      commit_and_push_clone repo creds

  abbrev pub update_of :
      ProviderName → SourceType → GitRepository → RepoInfo → Credentials → Act Text
  update_of github source repo info creds = reconcile_local_repo_content repo info creds
  update_of (other name) source repo info creds = return repo.latest_commit
  update_of gitea local repo info creds = reconcile_local_repo_content repo info creds
  update_of gitea embedded repo info creds = reconcile_local_repo_content repo info creds
  update_of gitea remote repo info creds = reconcile_remote_repo_content repo info creds
  update_of gitea unknown repo info creds = return repo.latest_commit

  -- The latest commit after `updateRepoContent`; there is no client of another provider.
  unfoldable pub update_repo_content : GitRepository → RepoInfo → Credentials → Act Text
  unfolding reconcile_local_repo_content reconcile_remote_repo_content
  update_repo_content repo info creds = update_of repo.provider repo.source_type repo info creds

  abbrev pub find_or_create : Answer × World → Outcome RepoInfo × World
  find_or_create (present info, w) = (ok info, w)
  find_or_create (absent, w) = wrap_answer (lit "creating repository") (h.create_repository w)
  find_or_create (failed e, w) = (err (wrapped (lit "getting repository") e), w)

  abbrev pub find_repository : Act RepoInfo
  find_repository w = find_or_create (h.get_repository w)

  module _ (static_password : Option Text) where
    abbrev pub with_password : Option Text → Credentials → Credentials
    with_password none creds = creds
    with_password (some password) creds = record {
      username = creds.username;
      password = password;
      access_token = creds.access_token;
    }

    abbrev pub credentials : Act Credentials
    credentials w = wrap_answer (lit "getting git provider credentials") (h.get_credentials w)

    -- What is updated: the repository, and the hash of its latest commit.
    abbrev pub update_with : GitRepository → Credentials → Act (RepoInfo × Text)
    update_with repo creds =
        check (lit "setting git provider credentials") (h.set_credentials creds) >>= λ _.
        find_repository >>= λ info.
        (λ w.
          wrap_answer (lit "updating repository contents") (update_repo_content repo info creds w))
        >>= λ hash. return (info, hash)

    abbrev pub client_failure : Option Error → Outcome (Unit {0})
    client_failure none = ok tt
    client_failure (some e) = err (wrapped (lit "initializing git provider") e)

    -- `GetGitProvider`
    abbrev pub get_git_provider : ProviderName → Option Error
    get_git_provider gitea = h.make_gitea_client
    get_git_provider github = none
    get_git_provider (other name) = some (message (lit "invalid git provider " ++ name ++ lit " "))

    unfoldable pub update_repository : GitRepository → Act (RepoInfo × Text)
    unfolding update_repo_content
    update_repository repo = (λ w. (client_failure (get_git_provider repo.provider), w)) >>= λ _.
        credentials >>= λ creds. update_with repo (with_password static_password creds)

    -- The resource after a reconcile, and its error.
    abbrev pub mark_repository :
        GitRepository → Outcome (RepoInfo × Text) × World → GitRepository × Option Error × World
    mark_repository repo (err e, w) = (
      record {
        provider = repo.provider;
        source_type = repo.source_type;
        source_path = repo.source_path;
        synced = false;
        external_url = repo.external_url;
        internal_url = repo.internal_url;
        latest_commit = repo.latest_commit;
      },
      some e,
      w,
    )
    mark_repository repo (ok (info, hash), w) = (
      record {
        provider = repo.provider;
        source_type = repo.source_type;
        source_path = repo.source_path;
        synced = true;
        external_url = info.clone_url;
        internal_url = info.internal_git_repository_url;
        latest_commit = hash;
      },
      none,
      w,
    )

    unfoldable pub reconcile_git_repo : GitRepository → World → GitRepository × Option Error × World
    unfolding update_repository
    reconcile_git_repo repo w = mark_repository repo (update_repository repo w)
