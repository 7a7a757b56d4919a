-- ===== src/Controllers/GitRepositories/Laws.antt =====
-- A repository that is marked as synced was brought up to date.
use idpbuilder.Base.{
  ◌≡◌, refl, sym, ◌∙◌, ap, Bool, true, false, ◌++◌, ◌⊎◌, inl, inr, Option, none, some, Outcome, ok,
  err, Error, ok-injective, subst,
}
use idpbuilder.Base.Text.{Text, lit}
use idpbuilder.Controllers.GitRepositories.{
  ProviderName, gitea, github, other, SourceType, local, embedded, remote, unknown, RepoInfo,
  Credentials, GitRepository, Answer, present, absent, failed, Server, Act, ◌>>=◌, wrap_answer,
  wrap_failure, check, return, commit_unless, add_all_and_commit, push_if, commit_and_push_clone,
  reconcile_local_repo_content, reconcile_remote_repo_content, update_of, update_repo_content,
  find_or_create, find_repository, with_password, credentials, update_with, client_failure,
  update_repository, mark_repository, reconcile_git_repo, get_git_provider,
}

no_value :
    {A B W : Type 0} {e : Error} {w : W} {a : A} {w' : W}
    → ◌≡◌ {A = Outcome A × W} (err e, w) (ok a, w')
    → B
no_value k = cc

not_pushed :
    {B : Type 0} {x y : Text} → ◌≡◌ {A = Outcome (Text × Bool)} (ok (y, true)) (ok (x, false)) → B
not_pushed k = cc

module _ (h : Server) where
  open h use {World}

  result-ok :
      {A B : Type 0} (r : Outcome A × World) (rest : A → Act h B) (w' : World) (b : B)
      → ◌>>=◌ h (λ w. r) rest r.1 ≡ (ok b, w')
      → (a : A) × ((w1 : World) × (r ≡ (ok a, w1)) × (rest a w1 ≡ (ok b, w')))
  result-ok (err e, w1) rest w' b k = absurd (no_value k)
  result-ok (ok a, w1) rest w' b k = (a, (w1, refl, k))

  -- A chain that ends well: its first call did, and the rest from there.
  chain-ok :
      {A B : Type 0} (first : Act h A) (rest : A → Act h B) (w w' : World) (b : B)
      → ◌>>=◌ h first rest w ≡ (ok b, w')
      → (a : A) × ((w1 : World) × (first w ≡ (ok a, w1)) × (rest a w1 ≡ (ok b, w')))
  chain-ok first rest w w' b k = result-ok (first w) rest w' b k

  wrap-ok :
      {A : Type 0} (text : Text) (r : Outcome A × World) (a : A) (w' : World)
      → wrap_answer h text r ≡ (ok a, w')
      → r ≡ (ok a, w')
  wrap-ok text (err e, w) a w' k = absurd (no_value k)
  wrap-ok text (ok b, w) a w' k = k

  checked-ok :
      (text : Text) (r : Option Error × World) (w' : World)
      → wrap_failure h text r ≡ (ok tt, w')
      → r ≡ (none, w')
  checked-ok text (some e, w) w' k = absurd (no_value k)
  checked-ok text (none, w) w' k = ap (λ x. (none, x.1)) k

  -- The last call of a run, that ends in a world, with the hash that it leaves: the one of git's
  -- status, which found nothing to commit, or the push of what was committed, which succeeded.
  abbrev pub IsPushed : GitRepository → Credentials → (hash : Text) → (end : World) → Type 0
  IsPushed repo creds hash end =
      ((w : World) × (h.is_clean w ≡ (ok true, end)) × (hash ≡ h.head end))
      ⊎ ((w : World) × (w1 : World) × (w2 : World) × (h.is_clean w ≡ (ok false, w1))
          × (hash ≡ (h.commit (lit "updated from " ++ repo.source_path) w1).0)
          × (h.push creds w2 ≡ (none, end)))

  push_if-IsPushed :
      (clean : Bool) (repo : GitRepository) (creds : Credentials) (c : Text × Bool) (hash : Text)
      (w w1 w2 w3 : World)
      → h.is_clean w ≡ (ok clean, w1)
      → commit_unless h repo.source_path clean w1 ≡ (ok c, w2)
      → push_if h creds c w2 ≡ (ok hash, w3)
      → IsPushed repo creds hash w3
  push_if-IsPushed true repo creds (x, true) hash w w1 w2 w3 a b k =
      absurd (not_pushed (sym (ap (λ z. z.0) b)))
  push_if-IsPushed true repo creds (x, false) hash w w1 w2 w3 a b k =
      let end : w1 ≡ w3 = ap (λ z. z.1) b ∙ ap (λ z. z.1) k in
      let left : h.head w1 ≡ x =
        ap (λ z. z.0) (ok-injective (h.head w1, false) (x, false) (ap (λ z. z.0) b)) in
      let same : x ≡ hash = ok-injective x hash (ap (λ z. z.0) k) in
      inl (w, a ∙ ap (λ z. (ok true, z)) end, sym same ∙ sym left ∙ ap h.head end)
  push_if-IsPushed false repo creds (x, false) hash w w1 w2 w3 a b k =
      absurd (not_pushed (ap (λ z. z.0) b))
  push_if-IsPushed false repo creds (x, true) hash w w1 w2 w3 a b k =
      let committed = (h.commit (lit "updated from " ++ repo.source_path) w1).0 in
      let left : committed ≡ x =
        ap (λ z. z.0) (ok-injective (committed, true) (x, true) (ap (λ z. z.0) b)) in
      let (_, (v1, e1, r1)) =
        chain-ok (check h (lit "getting remote url") h.first_remote)
          (λ _. ◌>>=◌ h (check h (lit "pushing to git") (h.push creds)) (λ _. return h x)) w2 w3
          hash k in
      let (_, (v2, e2, r2)) =
        chain-ok (check h (lit "pushing to git") (h.push creds)) (λ _. return h x) v1 w3 hash r1 in
      let pushed = checked-ok (lit "pushing to git") (h.push creds v1) v2 e2 in
      inr (
        w,
        w1,
        v1,
        a,
        sym (ok-injective x hash (ap (λ z. z.0) r2)) ∙ sym left,
        pushed ∙ ap (λ z. (none, z)) (ap (λ z. z.1) r2),
      )

  commit_and_push_clone-IsPushed :
      (repo : GitRepository) (creds : Credentials) (hash : Text) (w w' : World)
      → commit_and_push_clone h repo creds w ≡ (ok hash, w')
      → IsPushed repo creds hash w'
  unfolding commit_and_push_clone add_all_and_commit
  commit_and_push_clone-IsPushed repo creds hash w w' k =
      let staged : Act h (Text × Bool) =
        λ v. wrap_answer h (lit "add and commit") (add_all_and_commit h repo.source_path v) in
      let status : Act h Bool = λ v. wrap_answer h (lit "getting git status") (h.is_clean v) in
      let opened = check h (lit "getting git worktree") h.worktree in
      let added = check h (lit "adding git files") h.add_all in
      let (c, (w1, e, r)) = chain-ok staged (push_if h creds) w w' hash k in
      let all = wrap-ok (lit "add and commit") (add_all_and_commit h repo.source_path w) c w1 e in
      let checked = ◌>>=◌ h status (commit_unless h repo.source_path) in
      let (_, (v1, _, r1)) = chain-ok opened (λ _. ◌>>=◌ h added (λ _. checked)) w w1 c all in
      let (_, (w3, _, r2)) = chain-ok added (λ _. checked) v1 w1 c r1 in
      let (clean, (w2, f, r3)) = chain-ok status (commit_unless h repo.source_path) w3 w1 c r2 in
      let answer = wrap-ok (lit "getting git status") (h.is_clean w3) clean w2 f in
      push_if-IsPushed clean repo creds c hash w3 w2 w1 w' answer r3 r

  local-IsPushed :
      (repo : GitRepository) (info : RepoInfo) (creds : Credentials) (hash : Text) (w w' : World)
      → reconcile_local_repo_content h repo info creds w ≡ (ok hash, w')
      → IsPushed repo creds hash w'
  unfolding reconcile_local_repo_content
  local-IsPushed repo info creds hash w w' k =
      let cloned = check h (lit "cloning repo " ++ info.clone_url) (h.clone_target info) in
      let written = check h (lit "writing repo contents") h.write_contents in
      let push = commit_and_push_clone h repo creds in
      let (_, (w1, _, r1)) = chain-ok cloned (λ _. ◌>>=◌ h written (λ _. push)) w w' hash k in
      let (_, (w2, _, r2)) = chain-ok written (λ _. push) w1 w' hash r1 in
      commit_and_push_clone-IsPushed repo creds hash w2 w' r2

  remote-IsPushed :
      (repo : GitRepository) (info : RepoInfo) (creds : Credentials) (hash : Text) (w w' : World)
      → reconcile_remote_repo_content h repo info creds w ≡ (ok hash, w')
      → IsPushed repo creds hash w'
  unfolding reconcile_remote_repo_content
  remote-IsPushed repo info creds hash w w' k =
      let from = check h (lit "cloning repo") h.clone_source in
      let to = check h (lit "cloning repo") (h.clone_target info) in
      let copied = check h (lit "copying contents, " ++ info.clone_url) h.copy_tree in
      let push = commit_and_push_clone h repo creds in
      let last = ◌>>=◌ h copied (λ _. push) in
      let (_, (w1, _, r1)) = chain-ok from (λ _. ◌>>=◌ h to (λ _. last)) w w' hash k in
      let (_, (w2, _, r2)) = chain-ok to (λ _. last) w1 w' hash r1 in
      let (_, (w3, _, r3)) = chain-ok copied (λ _. push) w2 w' hash r2 in
      commit_and_push_clone-IsPushed repo creds hash w3 w' r3

  -- The source of a repository is one that its provider does nothing with.
  abbrev pub IsPassedOver : ProviderName → SourceType → Type 0
  IsPassedOver provider source =
      ((provider ≡ gitea) × (source ≡ unknown)) ⊎ ((name : Text) × (provider ≡ other name))

  update-IsPushed :
      (provider : ProviderName) (source : SourceType) (repo : GitRepository) (info : RepoInfo)
      (creds : Credentials) (hash : Text) (w w' : World)
      → update_of h provider source repo info creds w ≡ (ok hash, w')
      → IsPassedOver provider source ⊎ IsPushed repo creds hash w'
  update-IsPushed github source repo info creds hash w w' k =
      inr (local-IsPushed repo info creds hash w w' k)
  update-IsPushed (other name) source repo info creds hash w w' k = inl (inr (name, refl))
  update-IsPushed gitea local repo info creds hash w w' k =
      inr (local-IsPushed repo info creds hash w w' k)
  update-IsPushed gitea embedded repo info creds hash w w' k =
      inr (local-IsPushed repo info creds hash w w' k)
  update-IsPushed gitea remote repo info creds hash w w' k =
      inr (remote-IsPushed repo info creds hash w w' k)
  update-IsPushed gitea unknown repo info creds hash w w' k = inl (inl (refl, refl))

  -- The provider told of a repository, or told that there is none and made it.
  abbrev pub IsProvided : RepoInfo → Type 0
  IsProvided info =
      ((w : World) × ((h.get_repository w).0 ≡ present info))
      ⊎ ((w : World) × ((h.get_repository w).0 ≡ absent)
          × ((h.create_repository (h.get_repository w).1).0 ≡ ok info))

  find-IsProvided :
      (a : Answer × World) (info : RepoInfo) (w w' : World)
      → h.get_repository w ≡ a
      → find_or_create h a ≡ (ok info, w')
      → IsProvided info
  find-IsProvided (present found, w1) info w w' e k =
      inl (w, ap (λ z. z.0) e ∙ ap present (ok-injective found info (ap (λ z. z.0) k)))
  find-IsProvided (absent, w1) info w w' e k =
      let made = wrap-ok (lit "creating repository") (h.create_repository w1) info w' k in
      inr (w, ap (λ z. z.0) e, ap (λ z. (h.create_repository z.1).0) e ∙ ap (λ z. z.0) made)
  find-IsProvided (failed f, w1) info w w' e k = absurd (no_value k)

  module _ (static_password : Option Text) where
    -- What stands behind a repository that is marked as synced.
    abbrev pub IsUpToDate : GitRepository → (after : GitRepository) → (end : World) → Type 0
    IsUpToDate repo after end =
        (info : RepoInfo) × (creds : Credentials) × IsProvided info
        × (IsPassedOver repo.provider repo.source_type
            ⊎ IsPushed repo creds after.latest_commit end)
        × (after.external_url ≡ info.clone_url)
        × (after.internal_url ≡ info.internal_git_repository_url)

    marked :
        (r : Outcome (RepoInfo × Text) × World) (repo : GitRepository)
        → (mark_repository h static_password repo r).0.synced ≡ true
        → (info : RepoInfo) × ((hash : Text) × ((w' : World) × (r ≡ (ok (info, hash), w'))))
    marked (err e, w) repo k = cc
    marked (ok (info, hash), w) repo k = (info, (hash, (w, refl)))

    update_repository-IsProvided :
        (repo : GitRepository) (info : RepoInfo) (hash : Text) (w w' : World)
        → update_repository h static_password repo w ≡ (ok (info, hash), w')
        → (creds : Credentials) × (IsProvided info
            × (IsPassedOver repo.provider repo.source_type ⊎ IsPushed repo creds hash w'))
    unfolding update_repository update_repo_content
    update_repository-IsProvided repo info hash w w' k =
        let started : Act h (Unit {0}) = λ v. (
          client_failure h static_password (get_git_provider h static_password repo.provider),
          v,
        ) in
        let password = with_password h static_password static_password in
        let given = credentials h static_password in
        let later : Credentials → Act h (RepoInfo × Text) =
          λ c. update_with h static_password repo (password c) in
        let (_, (w1, _, r1)) = chain-ok started (λ _. ◌>>=◌ h given later) w w' (info, hash) k in
        let (before, (w2, _, r2)) = chain-ok given later w1 w' (info, hash) r1 in
        let creds = password before in
        let content : RepoInfo → Act h Text = λ i v.
          wrap_answer h (lit "updating repository contents")
            (update_repo_content h repo i creds v) in
        let result : RepoInfo → Text → Act h (RepoInfo × Text) = λ i x. return h (i, x) in
        let filled : RepoInfo → Act h (RepoInfo × Text) = λ i. ◌>>=◌ h (content i) (result i) in
        let set = check h (lit "setting git provider credentials") (h.set_credentials creds) in
        let (_, (w3, _, r3)) =
          chain-ok set (λ _. ◌>>=◌ h (find_repository h) filled) w2 w' (info, hash) r2 in
        let (i, (w4, e, r4)) = chain-ok (find_repository h) filled w3 w' (info, hash) r3 in
        let (x, (w5, f, r5)) = chain-ok (content i) (result i) w4 w' (info, hash) r4 in
        let same : i ≡ info = ap (λ z. z.0) (ok-injective (i, x) (info, hash) (ap (λ z. z.0) r5)) in
        let updated =
          wrap-ok (lit "updating repository contents") (update_repo_content h repo i creds w4) x w5
            f in
        let kept : x ≡ hash = ap (λ z. z.1) (ok-injective (i, x) (info, hash) (ap (λ z. z.0) r5)) in
        let end : w5 ≡ w' = ap (λ z. z.1) r5 in
        (
          creds,
          (
            subst IsProvided same (find-IsProvided (h.get_repository w3) i w3 w4 refl e),
            subst (λ y. IsPassedOver repo.provider repo.source_type ⊎ IsPushed repo creds y w') kept
                (subst (λ y. IsPassedOver repo.provider repo.source_type ⊎ IsPushed repo creds x y)
                  end
                  (update-IsPushed repo.provider repo.source_type repo i creds x w4 w5 updated)),
          ),
        )

    -- A repository that `reconcileGitRepo` leaves marked as synced is one that the provider told of, or
    -- that it made since the provider told that there is none, and the URLs are those of that one; and
    -- unless the provider does nothing with its source, the last that was done was either git's
    -- status, which found nothing to commit, or the push of a commit, which succeeded, and the
    -- latest commit is that one or else the head.
    pub reconcile_git_repo_synced :
        (repo : GitRepository) (w : World)
        → (reconcile_git_repo h static_password repo w).0.synced ≡ true
        → IsUpToDate repo
            (reconcile_git_repo h static_password repo w).0
            (reconcile_git_repo h static_password repo w).2
    unfolding reconcile_git_repo
    reconcile_git_repo_synced repo w k =
        let (info, (hash, (w', e))) = marked (update_repository h static_password repo w) repo k in
        let (creds, (provided, pushed)) = update_repository-IsProvided repo info hash w w' e in
        subst
          (λ z.
            IsUpToDate repo (mark_repository h static_password repo z).0
              (mark_repository h static_password repo z).2)
          (sym e) (info, creds, provided, pushed, refl, refl)
