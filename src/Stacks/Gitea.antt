-- ===== src/Stacks/Gitea.antt =====
-- The repository on Gitea, made where it is missing: ensureGiteaRepository of sync.go. The requests
-- and the waits between them are a parameter.
pub mod Laws
use idpbuilder.Base.{
  Bool, true, false, ℕ, zero, suc, List, [], ◌∷◌, ◌++◌, ◌&&◌, ◌||◌, Option, none, some,
  if◌then◌else◌, ltb, leb, eqb, Outcome, ok, err, Error, message, wrapped,
}
use idpbuilder.Base.Text.{Text, lit, trim_space}

-- The answer to a request: the error of the client, or a status code and the text of the body.
pub data Reply : Type 0 where
  failed : Error → Reply
  replied : (status : ℕ) → (text : Text) → Reply

pub record Api : Type 1 where
  pub World : Type 0
  -- GET of the repository, and POST of a new one.
  pub get_repository : World → Reply × World
  pub post_repository : World → Reply × World
  -- A wait of some seconds, or the cause if the context ends first.
  pub wait : (seconds : ℕ) → World → Option Error × World

-- The part of `giteaRepositoryExists` after its request. `name` is "OWNER/REPOSITORY".
unfoldable pub repository_exists : (name : Text) → Reply → Outcome Bool
repository_exists name (failed e) = err (wrapped (lit "checking Gitea repository " ++ name) e)
repository_exists name (replied status text) =
    if eqb status 200
    then ok true
    else if eqb status 404
    then ok false
    else err
        (message (lit "checking Gitea repository " ++ name ++ lit " returned: " ++ trim_space text))

-- A status of a request that made the repository, or found it made.
abbrev pub accepts : (status : ℕ) → Bool
accepts status = (leb 200 status && ltb status 300) || eqb status 409 || eqb status 422

-- What an attempt does next: it returns, or goes on with the error that it would return last.
pub data Step : Type 0 where
  finish : Option Error → Step
  go_on : Error → Step

unfoldable pub posted : (name : Text) → Reply → Step
posted name (failed e) = go_on (wrapped (lit "creating Gitea repository " ++ name) e)
posted name (replied status text) =
    let last =
      message (lit "creating Gitea repository " ++ name ++ lit " returned: " ++ trim_space text) in
    if accepts status
    then finish none
    else if ltb status 500
    then finish (some last)
    else go_on last

unfoldable pub checked : (last : Error) → Outcome Bool → Step
checked last (err e) = go_on e
checked last (ok true) = finish none
checked last (ok false) = go_on last

module _ (api : Api) (name : Text) where
  open api use {World}

  -- The loop, with the attempts that are left and the number of the one at hand.
  unfoldable pub attempts :
      ℕ → (attempt : ℕ) → (last_err : Option Error) → World → Option Error × World
  unfolding repository_exists posted checked
  attempts zero attempt last_err w = (last_err, w)
  attempts (suc left) attempt last_err w =
      let (reply, w1) = api.post_repository w in
      elim (posted name reply) [
        | finish result ↦ (result, w1)
        | go_on last ↦
            let (answer, w2) = api.get_repository w1 in
            elim (checked last (repository_exists name answer)) [
              | finish result ↦ (result, w2)
              | go_on last' ↦
                  let (cause, w3) = api.wait attempt w2 in
                  elim cause [
                    | some e ↦ (some e, w3)
                    | none ↦ attempts left (suc attempt) (some last') w3
                  ]
            ]
      ]

  -- After the first check.
  abbrev pub create_missing : Outcome Bool → World → Option Error × World
  create_missing (err e) w = (some e, w)
  create_missing (ok true) w = (none, w)
  create_missing (ok false) w = attempts 6 1 none w

  unfoldable pub ensure_gitea_repository : World → Option Error × World
  unfolding attempts
  ensure_gitea_repository w =
      let (answer, w1) = api.get_repository w in create_missing (repository_exists name answer) w1
