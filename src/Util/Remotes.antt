-- ===== src/Util/Remotes.antt =====
-- The targets of packages at a URL: NewKustomizeRemote and CloneUrl of pkg/util/url.go. url.Parse,
-- url.ParseQuery, strconv and time.ParseDuration are a parameter.
pub mod Laws
use idpbuilder.Base.{
  Bool, true, false, ℕ, List, [], ◌∷◌, ◌++◌, ◌&&◌, Option, none, some, if◌then◌else◌, eqb, Outcome,
  ok, err, Error, message, wrapped, ◌>>=◌,
}
use idpbuilder.Base.Text.{Text, ◌==◌, lit, cut, has_byte, trim_prefix, trim_suffix}
use idpbuilder.Controllers.Packages.{ℤ}

-- The port is never set.
pub record KustomizeRemote : Type 0 where
  pub scheme : Text
  pub user : Text
  pub password : Text
  pub host : Text
  pub repo_path : Text
  pub file_path : Text
  pub ref : Text
  pub submodules : Bool
  -- In nanoseconds.
  pub timeout : ℤ

-- What url.Parse tells: the parts, that the first segment of a path has a colon, or another error.
pub record Parts : Type 0 where
  pub scheme : Text
  pub user : Text
  pub password : Option Text
  pub host : Text
  pub path : Text

pub data Parsed : Type 0 where
  parsed : Parts → Parsed
  has_colon : Parsed
  failed : Error → Parsed

pub record Urls : Type 0 where
  pub parse_url : Text → Parsed
  -- url.ParseQuery, and Get of its result.
  pub parse_query : Text → Outcome (Text → Text)
  pub atoi : Text → Option ℤ
  -- The product with time.Second, as an int64.
  pub times_second : ℤ → ℤ
  pub parse_duration : Text → Option ℤ
  pub parse_bool : Text → Option Bool
  -- 27 seconds.
  pub default_timeout : ℤ

-- The text before the first "//", and the text after it.
abbrev pub before_also : ℕ → Option (Text × Text) → Option (Text × Text)
before_also b none = none
before_also b (some (repo, file)) = some (b ∷ repo, file)

unfoldable pub cut_delimiter : Text → Option (Text × Text)
cut_delimiter [] = none
cut_delimiter (b ∷ []) = none
cut_delimiter (b ∷ b' ∷ rest) =
    let later = cut_delimiter (b' ∷ rest) in
    if eqb b 47 && eqb b' 47 then some ([], rest) else before_also b later

abbrev pub split_path : Option (Text × Text) → Outcome (Text × Text)
split_path none = err (
    message (
      lit
        "url must have // after the repository url. example: https://github.com/kubernetes-sigs/kustomize//examples"))
split_path (some (repo, file)) = ok (trim_prefix repo (lit "/"), trim_suffix file (lit "/"))

-- The repository and the path of the files in it.
unfoldable pub parse_path : Text → Outcome (Text × Text)
unfolding cut_delimiter
parse_path path = split_path (cut_delimiter path)

abbrev pub or_text : Option Text → Text
or_text none = lit ""
or_text (some t) = t

unfoldable pub clone_url : KustomizeRemote → Text
clone_url g =
    (if g.scheme == lit "" then lit "" else g.scheme ++ lit "://")
    ++ (if g.user == lit ""
        then lit ""
        else g.user ++ (if g.password == lit "" then lit "" else lit ":" ++ g.password) ++ lit "@")
    ++ g.host
    ++ (if g.scheme == lit "" then lit ":" else lit "/")
    ++ g.repo_path

module _ (u : Urls) where
  open u use {
    parse_url, parse_query, atoi, times_second, parse_duration, parse_bool, default_timeout,
  }

  abbrev pub Query : Type 0
  Query = Text × Bool × ℤ

  abbrev pub parsed_duration : Option ℤ → ℤ
  parsed_duration none = default_timeout
  parsed_duration (some t) = t

  abbrev pub timeout_number : Text → Option ℤ → ℤ
  timeout_number text (some n) = times_second n
  timeout_number text none = parsed_duration (parse_duration text)

  abbrev pub timeout_of : Text → ℤ
  timeout_of text = if text == lit "" then default_timeout else timeout_number text (atoi text)

  abbrev pub or_default : Option Bool → Bool
  or_default none = true
  or_default (some b) = b

  abbrev pub submodules_of : Text → Bool
  submodules_of text = if text == lit "" then true else or_default (parse_bool text)

  abbrev pub query_of : (Text → Text) → Query
  query_of get = (
    if get (lit "ref") == lit "" then get (lit "version") else get (lit "ref"),
    submodules_of (get (lit "submodules")),
    timeout_of (get (lit "timeout")),
  )

  unfoldable pub read_query : (raw : Text) → Outcome Query
  read_query raw = parse_query (or_text (cut 63 raw).1) >>= λ get. ok (query_of get)

  abbrev pub wrap_query : (raw : Text) → Outcome Query → Outcome Query
  wrap_query raw (ok q) = ok q
  wrap_query raw (err e) = err (wrapped (lit "parsing query parameters in package url: " ++ raw) e)

  abbrev pub build_remote :
      (scheme user password host path : Text) → Query → Outcome KustomizeRemote
  build_remote scheme user password host path (ref, submodules, timeout) = parse_path path >>= λ q.
      ok (record {
        scheme = scheme;
        user = user;
        password = password;
        host = host;
        repo_path = q.0;
        file_path = q.1;
        ref = ref;
        submodules = submodules;
        timeout = timeout;
      })

  -- The user and the host before the colon.
  abbrev pub user_and_host : Text × Option Text → Text × Text
  user_and_host (host, none) = (lit "", host)
  user_and_host (user, some host) = (user, host)

  -- The text before the colon, and the text after it. A question mark before the colon makes the
  -- code panic.
  abbrev pub parse_around : (raw : Text) → Text × Option Text → Outcome KustomizeRemote
  parse_around raw (before, none) = err (message (lit "not a valid SCP style URL"))
  parse_around raw (before, some after) = wrap_query raw (read_query raw) >>= λ query.
      if has_byte 63 before
      then err (message (lit "slice bounds out of range"))
      else build_remote (lit "") (user_and_host (cut 64 before)).0 (lit "")
          (user_and_host (cut 64 before)).1 (cut 63 after).0 query

  unfoldable pub parse_scp_style : (raw : Text) → Outcome KustomizeRemote
  unfolding parse_path read_query
  parse_scp_style raw = parse_around raw (cut 58 raw)

  abbrev pub parse_as : (raw : Text) → Parsed → Outcome KustomizeRemote
  parse_as raw (failed e) = err e
  parse_as raw has_colon = parse_scp_style raw
  parse_as raw (parsed p) =
      wrap_query raw (read_query raw)
      >>= build_remote p.scheme p.user (or_text p.password) p.host p.path

  unfoldable pub new_kustomize_remote : (uri : Text) → Outcome KustomizeRemote
  unfolding parse_scp_style
  new_kustomize_remote uri = parse_as uri (parse_url uri)
