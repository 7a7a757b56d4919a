-- ===== src/Util/Remotes/Laws.antt =====
-- A target in the style of scp is taken apart and put together again.
use idpbuilder.Base.{
  if◌then◌else◌, ◌≡◌, refl, ◌∙◌, ap, false, ℕ, [], ◌∷◌, ◌++◌, ◌&&◌, Option, none, some, eqb, ok,
  arith, Bool-cases, inl, inr,
}
use idpbuilder.Base.Text.{Text, ◌==◌, lit, cut, has_byte, trim_prefix, trim_suffix, has_byte-append}
use idpbuilder.Util.Remotes.{
  KustomizeRemote, Urls, has_colon, cut_delimiter, parse_path, clone_url, new_kustomize_remote,
  parse_scp_style, read_query, before_also, query_of, parse_around, parse_as,
}

append_nil : (s : Text) → s ++ [] ≡ s
append_nil [] = refl
append_nil (x ∷ s) = ap (◌∷◌ x) (append_nil s)

append_assoc : (s t v : Text) → (s ++ t) ++ v ≡ s ++ (t ++ v)
append_assoc [] t v = refl
append_assoc (x ∷ s) t v = ap (◌∷◌ x) (append_assoc s t v)

-- A cut at the first of a byte.
cut-append : (s t : Text) (b : ℕ) → has_byte b s ≡ false → cut b (s ++ b ∷ t) ≡ (s, some t)
unfolding cut
cut-append [] t b h = ground arith
cut-append (x ∷ s) t b h =
    let (here, later) : (eqb x b ≡ false) × (has_byte b s ≡ false) = ground (arith, h) in
    rw (here, cut-append s t b later) refl

cut-none : (s : Text) (b : ℕ) → has_byte b s ≡ false → cut b s ≡ (s, none)
unfolding cut
cut-none [] b h = refl
cut-none (x ∷ s) b h =
    let (here, later) : (eqb x b ≡ false) × (has_byte b s ≡ false) = ground (arith, h) in
    rw (here, cut-none s b later) refl

nothing : {A B : Type 0} {a : A} → some a ≡ none → B
nothing h = cc

before_none : (x : ℕ) (o : Option (Text × Text)) → before_also x o ≡ none → o ≡ none
before_none x none h = refl
before_none x (some (a, b)) h = cc

-- The delimiter is found where a text has none before it, and does not end as one begins.
cut_delimiter-append :
    (s t : Text)
    → cut_delimiter (s ++ 47 ∷ []) ≡ none
    → cut_delimiter (s ++ 47 ∷ 47 ∷ t) ≡ some (s, t)
unfolding cut_delimiter
cut_delimiter-append [] t h = refl
cut_delimiter-append (x ∷ []) t h = elim (Bool-cases (eqb x 47)) [
  | inl e ↦ absurd (ground (arith, h, e))
  | inr e ↦ rw e refl
]
cut_delimiter-append (x ∷ y ∷ s) t h = elim (Bool-cases (eqb x 47 && eqb y 47)) [
  | inl e ↦ absurd (nothing (rw e at h))
  | inr e ↦
      let later = before_none x (cut_delimiter (y ∷ s ++ 47 ∷ [])) (rw e at h) in
      rw (e, cut_delimiter-append (y ∷ s) t later) refl
]

-- A target user@host:repository//files, of which url.Parse tells that it is no URL, where the
-- empty query is read without an error: the user is not empty and has no "@", no ":" stands
-- before the end of the host, there is no question mark, the repository has no "//", and no
-- slash that is trimmed begins the repository, or ends it or the files. It is taken apart into
-- the user, the host, the repository and the files, with no scheme and no password; the
-- reference is what the empty query has for ref, or else for version; and the URL to clone is
-- user@host:repository.
pub new_kustomize_remote-clone_url :
    (u : Urls) (user host repo file : Text) (get : Text → Text)
    → u.parse_url ((user ++ 64 ∷ host) ++ 58 ∷ (repo ++ 47 ∷ 47 ∷ file)) ≡ has_colon
    → u.parse_query (lit "") ≡ ok get
    → (user == lit "") ≡ false
    → has_byte 64 user ≡ false
    → has_byte 58 (user ++ 64 ∷ host) ≡ false
    → has_byte 63 (user ++ 64 ∷ host) ≡ false
    → has_byte 63 (repo ++ 47 ∷ 47 ∷ file) ≡ false
    → cut_delimiter (repo ++ 47 ∷ []) ≡ none
    → trim_prefix repo (lit "/") ≡ repo
    → trim_suffix file (lit "/") ≡ file
    → (g : KustomizeRemote) × (new_kustomize_remote u
          ((user ++ 64 ∷ host) ++ 58 ∷ (repo ++ 47 ∷ 47 ∷ file))
        ≡ ok g)
      × (clone_url g ≡ user ++ (64 ∷ (host ++ (58 ∷ repo))))
      × (g.scheme ≡ lit "")
      × (g.user ≡ user)
      × (g.password ≡ lit "")
      × (g.host ≡ host)
      × (g.repo_path ≡ repo)
      × (g.file_path ≡ file)
      × (g.ref ≡ (if get (lit "ref") == lit "" then get (lit "version") else get (lit "ref")))
unfolding new_kustomize_remote parse_scp_style read_query parse_path clone_url ◌==◌
new_kustomize_remote-clone_url u user host repo file get style query named once colon mark mark'
      delimiter lead trail =
    let before = user ++ 64 ∷ host in
    let after = repo ++ 47 ∷ 47 ∷ file in
    let raw = before ++ 58 ∷ after in
    let g : KustomizeRemote = record {
      scheme = lit "";
      user = user;
      password = lit "";
      host = host;
      repo_path = repo;
      file_path = file;
      ref = (query_of u get).0;
      submodules = (query_of u get).1;
      timeout = (query_of u get).2;
    } in
    let unmarked : has_byte 63 raw ≡ false =
      ground (arith, has_byte-append 63 before (58 ∷ after), mark, mark') in
    let around : parse_around u raw (before, some after) ≡ ok g =
      rw
        (
          cut-none raw 63 unmarked,
          query,
          mark,
          cut-append user host 64 once,
          cut-none after 63 mark',
          cut_delimiter-append repo file delimiter,
          lead,
          trail,
        )
        refl in
    let whole : new_kustomize_remote u raw ≡ ok g =
      ap (parse_as u raw) style
      ∙ ap (parse_around u raw) (cut-append before after 58 colon)
      ∙ around in
    (
      g,
      whole,
      rw
          (
            named,
            append_nil user,
            append_assoc user (64 ∷ []) host,
            append_assoc user (64 ∷ host) (58 ∷ []),
            append_assoc user (64 ∷ (host ++ 58 ∷ [])) repo,
            append_assoc host (58 ∷ []) repo,
          )
          refl,
      refl,
      refl,
      refl,
      refl,
      refl,
      refl,
      refl,
    )
