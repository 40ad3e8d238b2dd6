-- ===== src/Team/Prompt/Repository.antt =====
-- research_team/controller.py: the GitHub repository of an agent.
use discovery_net.Base.{
  ℕ, ◌-◌, Bool, false, not, ◌&&◌, ◌||◌, Option, none, some, List, [], ◌∷◌, ◌++◌, ◌==◌, leb, eqb,
  all, length, keep_if, take, is_some, if◌then◌else◌,
}
use mathlib.Core.List.{reverse}
use discovery_net.Base.Parse.{is_lower, is_upper, is_digit, lower, ends_with, split_on}
use discovery_net.Base.Result.{Result, ok, err, controller_error, require, ◌>>=◌, ◌>>◌}
use discovery_net.Base.Text.{Str, text_eq, codes, is_blank, is_empty}
use discovery_net.Team.Host.{Host, Completed, SplitUrl}

abbrev is_alphanumeric : ℕ → Bool
is_alphanumeric c = is_lower c || is_upper c || is_digit c

starts_alphanumeric : Str → Bool
starts_alphanumeric [] = false
starts_alphanumeric (c ∷ s) = is_alphanumeric c

-- `GITHUB_OWNER_PATTERN`
unfoldable pub is_owner : Str → Bool
unfolding starts_alphanumeric
is_owner s =
    leb (length s) 39
    && all (λ c. is_alphanumeric c || eqb c b'-') s
    && starts_alphanumeric s
    && starts_alphanumeric (reverse s)

-- `GITHUB_REPOSITORY_PATTERN`
unfoldable pub is_repository : Str → Bool
is_repository s =
    leb 1 (length s)
    && leb (length s) 100
    && all (λ c. is_alphanumeric c || eqb c b'.' || eqb c b'_' || eqb c b'-') s

-- `repository.endswith(".git")`
unfoldable pub without_git : Str → Str
without_git s = if ends_with (codes ".git") s then take (length s - 4) s else s

pub record Remotes : Type 0 where
  pub web_url : Str
  pub ssh_url : Str

-- `netloc.lower() == "github.com"`: no letter outside ASCII has one of these as its lower case.
unfoldable pub is_github : SplitUrl → Bool
is_github url =
    (url.scheme == codes "https")
    && (lower url.netloc == codes "github.com")
    && not (is_some url.username)
    && not (is_some url.password)
    && is_empty url.query
    && is_empty url.fragment

unfoldable pub remotes_of : Bool → List Str → Result Remotes
unfolding is_owner is_repository without_git
remotes_of github (owner ∷ repository ∷ []) = do
  require github controller_error
  require (is_owner owner && is_repository (without_git repository)) controller_error
  ok (record {
    web_url = codes "https://github.com/" ++ owner ++ codes "/" ++ without_git repository;
    ssh_url =
        codes "git@github.com:" ++ owner ++ codes "/" ++ without_git repository ++ codes ".git";
  })
remotes_of github _ = err controller_error

unfoldable pub parse_github_repository : ⦃host : Host⦄ → Str → Result Remotes
unfolding is_github remotes_of
parse_github_repository ⦃host⦄ value = host.url_split value >>= λ url.
    remotes_of (is_github url) (keep_if (λ part. not (is_empty part)) (split_on b'/' url.path))

-- One call of `git ls-remote`
unfoldable pub is_accessible : Option Completed → Bool
is_accessible none = false
is_accessible (some result) = eqb result.returncode 0 && not (is_blank result.stdout)

unfoldable pub verify_github_repository : ⦃host : Host⦄ → Str → Result Str
unfolding parse_github_repository is_accessible
verify_github_repository ⦃host⦄ value = do
  remotes ← parse_github_repository value
  require host.has_git controller_error
  require
      (is_accessible (host.ls_remote remotes.ssh_url)
        || is_accessible (host.ls_remote (remotes.web_url ++ codes ".git")))
      controller_error
  ok remotes.web_url
