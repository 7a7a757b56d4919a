-- ===== src/Lib.antt =====
-- The `stacks` command of idpbuilder and its controllers: how a local copy of a repository of
-- Kubernetes manifests is synced into the Gitea of a development cluster, how ArgoCD is made to
-- apply it, and how a build places its packages and comes to its end.
--
-- The parts and how they interact. `pushSnapshotToRemote` lists the files of the repository, brings
-- a clone of the Gitea repository to the branch, reconciles its files with the snapshot, commits
-- and pushes. After a push `refreshAfterSync` lists the ArgoCD applications, has the planner find
-- those that the changed files affect, annotates them for a refresh, the root application first,
-- and waits until ArgoCD reports the commit for each. The planner builds an index of the files that
-- each application depends on by a traversal of kustomizations, whose paths are held inside the
-- repository by `cleanRepoRel`. Where the wait sees a newer commit, or finds one on the branch at
-- its deadline, it ends with an error that says so.
--
-- The controller of a build places the custom packages as objects of the cluster, the highest
-- priority first, and ends the run once all that the API server lists is synced.
--
-- Files, with the code of pkg/cmd/stacks that they model:
--   Stacks/Paths      cleanRepoRel and joinRepoRel of sync_planner.go, over filepath
--   Stacks/Kustomize  addKustomizeDependencies and the references of a kustomization
--   Stacks/Changes    normalizeChangedFiles, workingTreeChangedFiles, stagedChangedFiles
--   Stacks/Planner    buildApplicationDependencyIndex and planAffectedApplications
--   Stacks/Apps       argoApplication and listStackApplications of sync.go
--   Stacks/Names      sets of names: appendUniqueStrings, sortedUniqueStrings, sortedKeys
--   Stacks/Revisions, Stacks/Superseding   what ArgoCD reports against the pushed commit
--   Stacks/Wait       waitForApplicationsObserved
--   Stacks/Refresh    refreshAfterSync of sync.go
--   Stacks/Webhook    ensureGiteaArgoCDWebhook of sync.go
--   Stacks/Redaction  redactArgs of exec.go
--   Stacks/Cache      syncCachePath and prepareSyncCache of sync.go
--   Stacks/Bootstrap  planCacheReconcileFiles and its metadata
--   Stacks/Files      a directory of files, as the calls of os read and change it
--   Stacks/Worktree   reconcileCacheWorktree of sync.go: removeStaleCachePaths, snapshotPathMatches,
--                     copySnapshotPath, removeEmptyCacheDirs, regularFilesEqual
--   Stacks/Push       snapshotFiles, forceAddSnapshotFiles and pushSnapshotToRemote
--   Stacks/Gitea      ensureGiteaRepository
--   Stacks/Engine     container_engine.go
--   Stacks/Talos      arguments, ports, addresses and cleanup of talos.go and container_engine.go
--   Stacks/Status     the verdict of status.go
--   Stacks/Host       what is asked of kubectl, git, the clock and the context
-- Files, with the code of pkg/controllers that they model:
--   Controllers/Packages   reconcileCustomPkg, reconcileCustomPkgDir and reconcileCustomPkgFile of
--                          localbuild/controller.go
--   Controllers/Shutdown   shouldShutDown of it
--   Controllers/Localbuild        its Reconcile, ReconcileArgoAppsWithGitea, postProcessReconcile
--   Controllers/GitRepositories   reconcileGitRepo of gitrepository/controller.go, what it calls
--
-- Files, with the code of pkg/util that they model:
--   Util/Remotes      NewKustomizeRemote and CloneUrl of url.go
--
-- Shared:
--   Base              lists, bytes, results and sets of names that these share
--   Tests             the theorems at concrete inputs
--
-- How the model stands to the code. A string is the list of its bytes. strings.TrimSpace and
-- strings.ToLower are modelled for ASCII. A Go map that serves as a set is a list without
-- repetitions, whose order no result shows, and a map from names is a list of pairs. A path is
-- relative to the repository, since the code joins every path to it and takes it off again. An
-- error keeps its message and what it wraps or joins. The code mutates a result and maps that are
-- passed along: the model returns them.
--
-- What is no code of the repository is a parameter: the file system and the YAML parsers are the
-- record Tree, kubectl, git, the clock and the context are the record Host. The cache has a record
-- Shell for git, the bootstrap the two trees that it compares, and Gitea a record Api. The files
-- of the snapshot and of the cache are trees, in which links along a path are not followed; what
-- the operating system refuses beyond what the trees tell is the record Os, and the rest of the
-- machine of a push the record Workspace. The API server, the decoder and the files of the packages
-- are the record Cluster, and the rest of what a reconcile asks the record Machine. Git and the
-- provider of a repository are the record Server, and the parsers of URLs and of networks the
-- records Urls and Net. Among the fields of Machine and Server stand functions of the repository
-- that are not modelled: the installers, the change of passwords, reconcileEmbeddedApp,
-- reconcileCustomPkgUrl, the two requests for a refresh, the cloning of repositories and the
-- copying of their files.
--
-- Nothing is assumed of their answers but, by name, IsUniverse (the kustomizations of the tree are
-- among finitely many paths), IsTicking (the clock does not turn back and a wait moves it),
-- Withstands (what every call but another push keeps) and Serves (an API server that nobody else
-- uses lists what it has, and deletes and sets what it is told to), and, where a theorem says so,
-- what the package net returns and prints.
--
-- Fuel. The traversal takes a step of fuel for each level of references, and a kustomization is
-- read once, so fuel above their number is enough. The wait takes one for each poll, and a poll
-- moves the clock, so two more than the timeout are enough. The comparison of two files takes one
-- for each full buffer, so more than the bytes of the first are enough. A function that ran out of
-- fuel returns none, which no code returns.
--
-- The events that a refresh records are for the statements about its order; the code keeps none.
-- Printed text, timings and telemetry are not modelled. Of the other parts of the repository the
-- other controllers, the kind clusters and the other commands are not modelled.
mod Base
pub mod Stacks
pub mod Controllers
pub mod Util
mod Tests
