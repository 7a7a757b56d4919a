-- ===== src/Stacks/Bootstrap/Laws.antt =====
-- Which files are copied again, and that none is after the hashes were saved.
use idpbuilder.Base.{
  ◌≡◌, refl, Bool, true, false, ℕ, List, [], ◌∷◌, inl, inr, not, arith, Outcome, ok, err,
  if◌then◌else◌, Bool-cases, ◌||◌, ◌&&◌, sym, subst, select, any,
}
use idpbuilder.Base.Text.{Text, ◌==◌, ==_iff}
use idpbuilder.Base.Names.{contains}
use idpbuilder.Stacks.Bootstrap.{
  Trees, Metadata, MetadataEntry, Read, contents, missing, unreadable, plan_files, collect_metadata,
  is_kept, hash_of, add_hashes, entry_of, put_entry, is_bootstrap_rewrite_input_path, add_input,
  add_other, cache_matches, then_metadata,
}

entry_of-put_entry :
    (metadata : Metadata) (file name : Text) (entry : MetadataEntry)
    → entry_of name (put_entry file entry metadata)
      ≡ (if name == file then entry else entry_of name metadata)
unfolding entry_of put_entry
entry_of-put_entry [] file name entry = refl
entry_of-put_entry ((n, old) ∷ metadata) file name entry = ground (
  arith,
  entry_of-put_entry metadata file name entry,
  ==_iff file n,
  ==_iff name n,
  ==_iff name file,
)

in_head : (x : Text) (xs : List Text) → contains (x ∷ xs) x ≡ true
unfolding contains
in_head x xs = ground (arith, ==_iff x x)

in_longer :
    (x : Text) (xs : List Text) (f : Text) → contains xs f ≡ true → contains (x ∷ xs) f ≡ true
unfolding contains
in_longer x xs f h = ground arith

in_rest :
    (x : Text) (xs : List Text) (f : Text)
    → contains (x ∷ xs) f ≡ true
    → (f == x) ≡ false
    → contains xs f ≡ true
unfolding contains
in_rest x xs f h n = ground arith

-- A file that the bootstrap rewrites is not one that it does not.
differs :
    (x f : Text)
    → is_bootstrap_rewrite_input_path x ≡ false
    → is_bootstrap_rewrite_input_path f ≡ true
    → (f == x) ≡ false
differs x f n i = elim (Bool-cases (f == x)) [
  | inl e ↦ absurd (
      ground (arith, n, subst (λ y. is_bootstrap_rewrite_input_path y ≡ true) ((==_iff f x).0 e) i))
  | inr e ↦ e
]

then_metadata-ok :
    (trees : Trees) (r : Outcome Metadata) (f : Metadata → Outcome Metadata) (m : Metadata)
    → then_metadata trees r f ≡ ok m
    → (m1 : Metadata) × (r ≡ ok m1) × (f m1 ≡ ok m)
then_metadata-ok trees (ok m1) f m h = (m1, refl, h)
then_metadata-ok trees (err e) f m h = cc

module _ (trees : Trees) where
  -- The file is as the metadata says, in both trees.
  abbrev pub reads_as : Read → Text → Bool
  reads_as (contents bytes) hash = hash == trees.sha256_hex bytes
  reads_as (missing e) hash = false
  reads_as (unreadable e) hash = false

  abbrev pub is_current : Metadata → Text → Bool
  is_current metadata file =
      reads_as (trees.source file) (entry_of file metadata).source_hash
      && reads_as (trees.cache file) (entry_of file metadata).cache_hash

  abbrev pub is_stale : Metadata → Text → Bool
  is_stale metadata file = is_bootstrap_rewrite_input_path file && not (is_current metadata file)

  abbrev pub is_copied : Metadata → Text → Bool
  is_copied metadata file = not (is_bootstrap_rewrite_input_path file) || is_stale metadata file

  cache_matches-ok :
      (file : Text) (entry : MetadataEntry) (c : Read) (kept : Bool)
      → cache_matches trees file entry c ≡ ok kept
      → kept ≡ reads_as c entry.cache_hash
  cache_matches-ok file entry (contents bytes) kept h = cc
  cache_matches-ok file entry (missing e) kept h = cc
  cache_matches-ok file entry (unreadable e) kept h = cc

  is_kept-ok :
      (file : Text) (entry : MetadataEntry) (s : Read) (kept : Bool)
      → is_kept trees file entry s ≡ ok kept
      → kept ≡ (reads_as s entry.source_hash && reads_as (trees.cache file) entry.cache_hash)
  is_kept-ok file entry (missing e) kept h = cc
  is_kept-ok file entry (unreadable e) kept h = cc
  is_kept-ok file entry (contents bytes) kept h =
      elim (Bool-cases (entry.source_hash == trees.sha256_hex bytes)) [
        | inl e ↦ rw e (cache_matches-ok file entry (trees.cache file) kept (rw e at h))
        | inr e ↦ ground (arith, e, h)
      ]

  abbrev Plan : Type 0
  Plan = List Text × Bool

  add_other-ok :
      (file : Text) (rest : Outcome Plan) (copied : List Text) (force : Bool)
      → add_other trees file rest ≡ ok (copied, force)
      → (c : List Text) × (rest ≡ ok (c, force)) × (copied ≡ file ∷ c)
  add_other-ok file (err e) copied force h = cc
  add_other-ok file (ok (c, f)) copied force h = (c, cc, cc)

  add_input-ok :
      (file : Text) (k : Outcome Bool) (rest : Outcome Plan) (copied : List Text) (force : Bool)
      → add_input trees file k rest ≡ ok (copied, force)
      → (kept : Bool) × (c : List Text) × (f : Bool) × (k ≡ ok kept)
        × (rest ≡ ok (c, f))
        × (copied ≡ (if kept then c else file ∷ c))
        × (force ≡ (if kept then f else true))
  add_input-ok file (err e) rest copied force h = cc
  add_input-ok file (ok true) rest copied force h = (true, copied, force, refl, h, refl, refl)
  add_input-ok file (ok false) (err e) copied force h = cc
  add_input-ok file (ok false) (ok (c, f)) copied force h = (false, c, f, refl, refl, cc, cc)

  -- Of the metadata and the files of a snapshot, where no read fails: copied again are exactly the
  -- files that the bootstrap does not rewrite and those of which the hash of one of the two trees
  -- is not the one in the metadata, in their order; and the rewrite is forced exactly if there is
  -- one of the latter.
  pub plan_files_exact :
      (metadata : Metadata) (files copied : List Text) (force : Bool)
      → plan_files trees metadata files ≡ ok (copied, force)
      → (copied ≡ select (is_copied metadata) files) × (force ≡ any (is_stale metadata) files)
  unfolding plan_files select any
  plan_files_exact metadata [] copied force h = (cc, cc)
  plan_files_exact metadata (file ∷ files) copied force h =
      elim (Bool-cases (is_bootstrap_rewrite_input_path file)) [
        | inr n ↦
            let (c, e, a) =
              add_other-ok file (plan_files trees metadata files) copied force (rw n at h) in
            let (copied', force') = plan_files_exact metadata files c force e in
            (ground (arith, n, a, copied'), ground (arith, n, force'))
        | inl i ↦
            let (kept, c, f, k, e, a, b) =
              add_input-ok file (is_kept trees file (entry_of file metadata) (trees.source file))
                (plan_files trees metadata files) copied force (rw i at h) in
            let (copied', force') = plan_files_exact metadata files c f e in
            let current = is_kept-ok file (entry_of file metadata) (trees.source file) kept k in
            (ground (arith, i, current, a, copied'), ground (arith, i, current, b, force'))
      ]

  module _ (file : Text) (a b : List ℕ) (metadata : Metadata) where
    put_current :
        trees.source file ≡ contents a
        → trees.cache file ≡ contents b
        → is_current
            (put_entry file
              (record { source_hash = trees.sha256_hex a; cache_hash = trees.sha256_hex b })
              metadata)
            file
          ≡ true
    put_current p q =
        rw
          (
            entry_of-put_entry metadata file file
                (record { source_hash = trees.sha256_hex a; cache_hash = trees.sha256_hex b }),
            (==_iff file file).1 refl,
            p,
            q,
            (==_iff (trees.sha256_hex a) (trees.sha256_hex a)).1 refl,
            (==_iff (trees.sha256_hex b) (trees.sha256_hex b)).1 refl,
          )
          refl

    put_others :
        trees.source file ≡ contents a
        → trees.cache file ≡ contents b
        → (f : Text) → is_current metadata f ≡ true
        → is_current
            (put_entry file
              (record { source_hash = trees.sha256_hex a; cache_hash = trees.sha256_hex b })
              metadata)
            f
          ≡ true
    put_others p q f old = elim (Bool-cases (f == file)) [
      | inl e ↦
          subst
            (λ x.
              is_current
                (put_entry file
                  (record { source_hash = trees.sha256_hex a; cache_hash = trees.sha256_hex b })
                  metadata)
                x
              ≡ true)
            (sym ((==_iff f file).0 e)) (put_current p q)
      | inr n ↦
          rw
            (
              entry_of-put_entry metadata file f
                  (record { source_hash = trees.sha256_hex a; cache_hash = trees.sha256_hex b }),
              n,
            )
            old
    ]

  put_entry-current :
      (file : Text) (s c : Read) (metadata metadata' : Metadata)
      → trees.source file ≡ s
      → trees.cache file ≡ c
      → add_hashes trees file (hash_of trees file s) (hash_of trees file c) metadata ≡ ok metadata'
      → (is_current metadata' file ≡ true)
        × ((f : Text) → is_current metadata f ≡ true → is_current metadata' f ≡ true)
  put_entry-current file (missing e) c metadata metadata' p q h = cc
  put_entry-current file (unreadable e) c metadata metadata' p q h = cc
  put_entry-current file (contents a) (missing e) metadata metadata' p q h = cc
  put_entry-current file (contents a) (unreadable e) metadata metadata' p q h = cc
  put_entry-current file (contents a) (contents b) metadata metadata' p q h =
      let entry : MetadataEntry = record {
        source_hash = trees.sha256_hex a;
        cache_hash = trees.sha256_hex b;
      } in
      let now = put_current file a b metadata p q in
      let whole : put_entry file entry metadata ≡ metadata' = cc in
      (
        subst (λ m. is_current m file ≡ true) whole now,
        (λ f old.
            subst (λ m. is_current m f ≡ true) whole (put_others file a b metadata p q f old)),
      )

  collect_metadata-current :
      (files : List Text) (metadata metadata' : Metadata)
      → collect_metadata trees files metadata ≡ ok metadata'
      → ((f : Text) → is_current metadata f ≡ true → is_current metadata' f ≡ true)
        × ((f : Text)
            → contains files f ≡ true
            → is_bootstrap_rewrite_input_path f ≡ true
            → is_current metadata' f ≡ true)
  unfolding collect_metadata contains
  collect_metadata-current [] metadata metadata' h =
      let same : metadata ≡ metadata' = cc in
      ((λ f old. subst (λ m. is_current m f ≡ true) same old), (λ f has i. cc))
  collect_metadata-current (file ∷ files) metadata metadata' h =
      elim (Bool-cases (is_bootstrap_rewrite_input_path file)) [
        | inr n ↦
            let (kept, new) = collect_metadata-current files metadata metadata' (rw n at h) in
            (kept, (λ f has i. new f (in_rest file files f has (differs file f n i)) i))
        | inl i ↦
            let (m1, added, rest) =
              then_metadata-ok trees
                (add_hashes trees file (hash_of trees file (trees.source file))
                  (hash_of trees file (trees.cache file)) metadata)
                (collect_metadata trees files) metadata' (rw i at h) in
            let (here, others) =
              put_entry-current file (trees.source file) (trees.cache file) metadata m1 refl refl
                added in
            let (kept, new) = collect_metadata-current files m1 metadata' rest in
            (
              (λ f old. kept f (others f old)),
              (λ f has j. elim (Bool-cases (f == file)) [
                | inl e ↦
                    subst (λ x. is_current metadata' x ≡ true) (sym ((==_iff f file).0 e))
                      (kept file here)
                | inr n ↦ new f (in_rest file files f has n) j
              ]),
            )
      ]

  is_kept-current :
      (file : Text) (entry : MetadataEntry) (s c : Read)
      → trees.cache file ≡ c
      → (reads_as s entry.source_hash && reads_as c entry.cache_hash) ≡ true
      → is_kept trees file entry s ≡ ok true
  is_kept-current file entry (missing e) c p h = cc
  is_kept-current file entry (unreadable e) c p h = cc
  is_kept-current file entry (contents a) (missing e) p h = ground arith
  is_kept-current file entry (contents a) (unreadable e) p h = ground arith
  is_kept-current file entry (contents a) (contents b) p h =
      let same_source : (entry.source_hash == trees.sha256_hex a) ≡ true = ground (arith, h) in
      let same_cache : (entry.cache_hash == trees.sha256_hex b) ≡ true = ground (arith, h) in
      rw (p, same_source, same_cache) refl

  plan_files-current :
      (metadata : Metadata) (files : List Text)
      → ((f : Text)
          → contains files f ≡ true
          → is_bootstrap_rewrite_input_path f ≡ true
          → is_current metadata f ≡ true)
      → plan_files trees metadata files
        ≡ ok (select (λ f. not (is_bootstrap_rewrite_input_path f)) files, false)
  unfolding plan_files contains select
  plan_files-current metadata [] all = refl
  plan_files-current metadata (file ∷ files) all =
      let rest =
        plan_files-current metadata files (λ f has i. all f (in_longer file files f has) i) in
      elim (Bool-cases (is_bootstrap_rewrite_input_path file)) [
        | inr n ↦ rw (n, rest) refl
        | inl i ↦
            rw
              (
                i,
                is_kept-current file (entry_of file metadata) (trees.source file) (trees.cache file)
                    refl (all file (in_head file files) i),
                rest,
              )
              refl
      ]

  -- Where the hashes of a snapshot were collected without an error, a plan made with them, as long
  -- as neither tree changes, copies exactly the files that the bootstrap does not rewrite and does
  -- not force the rewrite.
  pub plan_files-collect_metadata :
      (files : List Text) (metadata : Metadata)
      → collect_metadata trees files [] ≡ ok metadata
      → plan_files trees metadata files
        ≡ ok (select (λ f. not (is_bootstrap_rewrite_input_path f)) files, false)
  plan_files-collect_metadata files metadata h =
      plan_files-current metadata files (collect_metadata-current files [] metadata h).1
