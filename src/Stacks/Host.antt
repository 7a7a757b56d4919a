-- ===== src/Stacks/Host.antt =====
-- What the sync asks of the machine that it runs on: kubectl, git, the clock and the context. None
-- of it is code of the repository, so it is a parameter. An answer leaves the machine in a new
-- state, and nothing is assumed of the answers but where a law of `IsTicking` is asked for.
use idpbuilder.Base.{Bool, ℕ, ◌≤◌, ◌<◌, List, Option, none, Outcome, Error, ◌≡◌}
use idpbuilder.Base.Text.{Text}
use idpbuilder.Stacks.Apps.{Application}
use idpbuilder.Stacks.Kustomize.{Tree}

pub record Host : Type 1 where
  pub World : Type 0
  -- `kubectl get application -n argocd -o json`, parsed.
  pub get_applications : World → Outcome (List Application) × World
  -- `kubectl annotate application NAME argocd.argoproj.io/refresh=hard`
  pub annotate : Text → World → Option Error × World
  -- `git rev-parse --verify --quiet REVISION^{commit}` in the cache of the sync, trimmed.
  pub commit_revision : Text → World → Outcome Text × World
  -- `git merge-base --is-ancestor`
  pub is_ancestor : Text → Text → World → Bool × World
  -- `git fetch --quiet origin BRANCH`, whose error is dropped.
  pub fetch : Text → World → World
  pub now : World → ℕ
  -- Waits for the poll interval, or returns the cause if the context ends first.
  pub sleep : World → Option Error × World
  -- The working tree of the repository of the stacks.
  pub tree : World → Tree

-- The clock never turns back, and a wait that is not cut short moves it.
pub record IsTicking (h : Host) : Type 0 where
  pub applications : (w : h.World) → h.now w ≤ h.now (h.get_applications w).1
  pub revision : (r : Text) (w : h.World) → h.now w ≤ h.now (h.commit_revision r w).1
  pub ancestor : (a d : Text) (w : h.World) → h.now w ≤ h.now (h.is_ancestor a d w).1
  pub sleeping : (w : h.World) → (h.sleep w).0 ≡ none → h.now w < h.now (h.sleep w).1

-- The options of the command that the sync reads, and the branch and the place of its cache.
pub record Options : Type 0 where
  pub gitea_owner : Text
  pub gitea_repo : Text
  pub branch : Text
  pub refresh_mode : Text
  pub sync_wait_timeout : ℕ
  -- `syncCachePath` finds a directory.
  pub has_cache : Bool
