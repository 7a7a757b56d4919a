-- ===== src/Stacks/Paths/Samples.antt =====
-- Runs of the path functions.
use idpbuilder.Base.{◌≡◌, refl, ok}
use idpbuilder.Base.Text.{lit, ◌==◌, split, join, has_prefix, trim_space}
use idpbuilder.Stacks.Paths.{clean_repo_rel, join_repo_rel, escapes}

samples : Unit {0}
unfolding clean_repo_rel join_repo_rel ◌==◌ split join has_prefix trim_space
samples = tt

clean_repo_rel-sample : clean_repo_rel (lit " ./a//b/../c/ ") ≡ ok (lit "a/c")
unfolding samples
clean_repo_rel-sample = refl

clean_repo_rel_escaping : clean_repo_rel (lit "a/../../b") ≡ escapes
unfolding samples
clean_repo_rel_escaping = refl

clean_repo_rel_absolute : clean_repo_rel (lit "/etc/passwd") ≡ escapes
unfolding samples
clean_repo_rel_absolute = refl

join_repo_rel-sample :
    join_repo_rel (lit "packages/overlays") (lit "../base/x") ≡ ok (lit "packages/base/x")
unfolding samples
join_repo_rel-sample = refl
