-- ===== src/Stacks/Gitea/Laws.antt =====
-- When ensureGiteaRepository returns no error, Gitea has the repository.
use idpbuilder.Base.{◌≡◌, ◌⊎◌, true, ℕ}
use idpbuilder.Base.Text.{Text}
use idpbuilder.Stacks.Gitea.{replied, Api, accepts}

module _ (api : Api) (name : Text) where
  open api use {World}

  -- The last request that was answered told that Gitea has the repository: a GET with the status
  -- 200, or a POST that made it or found it made.
  abbrev pub IsThere : World → Type 0
  IsThere w' =
      ((w : World) × (text : Text) × (api.get_repository w ≡ (replied 200 text, w')))
      ⊎ ((w : World) × (status : ℕ) × (text : Text) × (api.post_repository w
            ≡ (replied status text, w'))
          × (accepts status ≡ true))
