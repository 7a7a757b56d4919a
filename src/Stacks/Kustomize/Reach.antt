-- ===== src/Stacks/Kustomize/Reach.antt =====
-- Which files a path of the repository depends on, told by the tree alone: no state, no order of
-- visits and no fuel.
use idpbuilder.Base.{◌≡◌, true, false, ℕ, List, [], ◌∷◌, ◌&&◌, not, some, none, if◌then◌else◌, ok}
use idpbuilder.Base.Text.{Text}
use idpbuilder.Base.Names.{contains}
use idpbuilder.Stacks.Paths.{clean_repo_rel, join_repo_rel, dir_of}
use idpbuilder.Stacks.Kustomize.{
  Tree, Entry, unreadable, entry, Kustomization, local_path_refs, should_skip_kustomize_ref,
  is_manifest_name, find_kustomization_file,
}

-- The paths of the manifests among the entries of a directory.
unfoldable pub manifests : List Entry → List Text
manifests [] = []
manifests (unreadable e ∷ entries) = manifests entries
manifests (entry path name is_dir ∷ entries) =
    let rest = manifests entries in
    if not is_dir && is_manifest_name name then path ∷ rest else rest

module _ (tree : Tree) where
  -- The files that a path stands for itself: a file, the kustomization of a directory, or the
  -- manifests of a directory without one.
  pub data Direct (p f : Text) : Type 0 where
    file : tree.stat p ≡ ok false → p ≡ f → Direct p f
    kustomization : tree.stat p ≡ ok true → find_kustomization_file tree p ≡ some f → Direct p f
    manifest :
        tree.stat p ≡ ok true
        → find_kustomization_file tree p ≡ none
        → contains (manifests (tree.walk_dir p)) f ≡ true
        → Direct p f

  -- One reference, taken from a kustomization and not skipped, leads to the path `q`.
  pub record Leads (k ref q : Text) : Type 0 where
    pub kept : should_skip_kustomize_ref ref ≡ false
    pub next : Text
    pub joins : join_repo_rel (dir_of k) ref ≡ ok next
    pub cleans : clean_repo_rel next ≡ ok q

  -- The kustomization `k` refers to the path `q`.
  pub record Refers (k q : Text) : Type 0 where
    pub bytes : List ℕ
    pub reads : tree.read_file k ≡ ok bytes
    pub parsed : Kustomization
    pub parses : tree.parse_kustomization bytes ≡ ok parsed
    pub ref : Text
    pub listed : contains (local_path_refs parsed) ref ≡ true
    pub leads : Leads k ref q

  -- The directory `p` has a kustomization that refers to `q`.
  pub record Needs (p q : Text) : Type 0 where
    pub is_dir : tree.stat p ≡ ok true
    pub k : Text
    pub finds : find_kustomization_file tree p ≡ some k
    pub refers : Refers k q

  pub data Reaches : Text → Text → Type 0 where
    here : {p : Text} → Reaches p p
    next : {p q r : Text} → Needs p q → Reaches q r → Reaches p r

  -- `p` depends on the file `f`.
  pub record Depends (p f : Text) : Type 0 where
    pub at : Text
    pub reaches : Reaches p at
    pub direct : Direct at f
