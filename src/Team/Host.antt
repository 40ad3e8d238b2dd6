-- ===== src/Team/Host.antt =====
-- What the controller takes from the system and from other packages: files, URLs, floats, git.
use discovery_net.Base.{ℕ, Bool, Option}
use discovery_net.Base.Result.{Result}
use discovery_net.Base.Text.{Str}

-- The parts of `urlsplit`
pub record SplitUrl : Type 0 where
  pub scheme : Str
  pub netloc : Str
  pub path : Str
  pub query : Str
  pub fragment : Str
  pub username : Option Str
  pub password : Option Str

-- What `git ls-remote` printed, with its exit code
pub record Completed : Type 0 where
  pub returncode : ℕ
  pub stdout : Str
  pub stderr : Str

-- A path is its text; a float is the 64 bits that represent it.
pub record Host : Type 0 where
  pub is_file : Str → Bool
  pub is_dir : Str → Bool
  pub expand_user : Str → Result Str
  pub resolve : Str → Str
  pub url_split : Str → Result SplitUrl
  -- `float`; none is its `ValueError`
  pub float : Str → Option ℕ
  -- the value of a decimal digit of Unicode
  pub decimal_digit : ℕ → Option ℕ
  -- `shutil.which("git")`, and `git ls-remote`; none is a timeout
  pub has_git : Bool
  pub ls_remote : Str → Option Completed
