-- ===== src/Ingest/Approvals/Baseline.antt =====
-- `protectedMainBaseline` of src/ingest/approvals/service.ts: the commit that `main` stands at.
use web_comunidad_solar.Prelude.{
  ℕ, Bool, not, Option, List, [], ◌∷◌, ◌++◌, Text, codes, ◌===◌, leb, length, all, is_digit, trim,
  if◌then◌else◌, ◌&&◌, ◌||◌,
}
use web_comunidad_solar.Ingest.Failure.{
  Failure, Result, ok, err, ◌>>=◌, ◌>>◌, throw_if, or_throw, repository_unsafe, git_unsafe,
  git_not_independent, main_not_a_commit, main_unreadable,
}

-- What `lstat` finds at a path.
pub data Kind : Type 0 where
  directory other_kind absent : Kind

-- What node:fs, node:path and Git answer about the repository at hand.
pub record Checkout : Type 0 where
  -- `lstat(resolve(repositoryRoot))`
  pub lexical : Kind
  -- `realpath(resolve(repositoryRoot))`; `none` where it throws
  pub root : Option Text
  -- `lstat(join(root, ".git"))`
  pub git : Kind
  pub realpath : Text → Option Text
  -- `resolve(root, path)`
  pub resolve : Text → Text → Text
  -- the standard output of `git -C root …`; `none` where Git fails
  pub git_output : List Text → Option Text

-- A directory, or the failure that another kind of file throws.
abbrev expect_directory : Kind → Failure → Result (Unit {0})
expect_directory directory e = ok tt
expect_directory other_kind e = err e
expect_directory absent e = err main_unreadable

-- `join(root, ".git")` for an absolute path
unfoldable pub git_root_of : Text → Text
git_root_of root = if root === codes "/" then codes "/.git" else root ++ codes "/.git"

abbrev is_commit_unit : ℕ → Bool
is_commit_unit c = is_digit c || (leb b'a' c && leb c b'f')

-- /^[a-f0-9]{40,64}$/
unfoldable pub is_commit : Text → Bool
is_commit t = leb 40 (length t) && leb (length t) 64 && all is_commit_unit t

module _ (checkout : Checkout) where
  abbrev real : Text → Result Text
  real t = or_throw (checkout.realpath t) main_unreadable

  abbrev git_run : List Text → Result Text
  git_run args = or_throw (checkout.git_output args) main_unreadable

  -- The comparisons of the directories that Git names.
  abbrev check_git_directories : Text → Text → Text → Text → Result (Unit {0})
  check_git_directories root git_root absolute common = do
    throw_if
        (not (checkout.resolve root absolute === git_root)
          || not (checkout.resolve root common === git_root))
        git_not_independent
    real_absolute ← real (checkout.resolve root absolute)
    throw_if (not (real_absolute === git_root)) git_not_independent
    real_common ← real (checkout.resolve root common)
    throw_if (not (real_common === git_root)) git_not_independent

  unfoldable pub protected_main_baseline : Result Text
  protected_main_baseline = do
    expect_directory checkout.lexical repository_unsafe
    root ← or_throw checkout.root main_unreadable
    expect_directory checkout.git git_unsafe
    let git_root = git_root_of root
    real_git_root ← real git_root
    throw_if (not (real_git_root === git_root)) git_unsafe
    top_level ← git_run (codes "rev-parse" ∷ codes "--show-toplevel" ∷ [])
    absolute ← git_run (codes "rev-parse" ∷ codes "--absolute-git-dir" ∷ [])
    common ← git_run (codes "rev-parse" ∷ codes "--git-common-dir" ∷ [])
    throw_if (not (trim top_level === root)) repository_unsafe
    check_git_directories root git_root (trim absolute) (trim common)
    main ← git_run (codes "rev-parse" ∷ codes "--verify" ∷ codes "refs/heads/main^{commit}" ∷ [])
    throw_if (not (is_commit (trim main))) main_not_a_commit
    ok (trim main)
