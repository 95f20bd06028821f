-- ===== src/Volume/Walk.antt =====
-- Following a path from directory to directory: `traverse` and `stat`.
use craft_osos.Base.{
  ℕ, ◌<◌, ◌≡◌, ◌≢◌, ◌⊎◌, Option, none, some, List, [], ◌∷◌, ◌++◌, append-nil, arith, refl, sym, ap,
  ◌∙◌, inl, inr,
}
use craft_osos.Lua.{Text}
use craft_osos.Fat.{Fat, Device, u32}
use craft_osos.Directory.{Slot, Dirent, dir}
use craft_osos.Volume.{
  not_dir, no_entry, ok, failed, Cache, look_up, invalid_dirent, find_name, int_ls, walk,
  start_cluster, traverse, stat_in, stat, on_found,
}
use craft_osos.Volume.Listing.{Listed, Cached, int_ls-Cached}
use craft_osos.Volume.Match.{
  NoMatch, FirstMatch, look_up-dir, look_up-file, look_up-none, find_name-first, back-last,
  pop_back-last,
}

module _ (device : Device) (slots_in : List ℕ → List Slot) (f : Fat) (fuel : ℕ) where
  -- A directory that the fuel is enough for.
  abbrev pub Holds : ℕ → List Dirent → Type 0
  Holds c ents = (n : ℕ) × Listed device slots_in f c n ents × (n < fuel)

  -- The way from a directory along the names of a path, by their first matches.
  pub data Leads : ℕ → List Text → ℕ → Type 0 where
    here : (c : ℕ) → Leads c [] c
    into :
        (c : ℕ) (ents : List Dirent) (name : Text) (d : Dirent) (path : List Text) (end : ℕ)
        → Holds c ents
        → FirstMatch name ents d
        → d.entry_type ≡ dir
        → Leads (u32 d.block) path end
        → Leads c (name ∷ path) end

  walk-step :
      (cache cache' : Cache) (c : ℕ) (found : Dirent) (ents : List Dirent) (name : Text)
      (path : List Text)
      → int_ls device slots_in f fuel cache c ≡ (ok ents, cache')
      → walk device slots_in f fuel cache c found (name ∷ path)
        ≡ on_found name
            (look_up name ents found)
            cache'
            (λ d. walk device slots_in f fuel cache' (u32 d.block) d path)
  unfolding walk
  walk-step cache cache' c found ents name path e = rw e

  walk-listing :
      (cache : Cache) (c : ℕ) (found : Dirent)
      → walk device slots_in f fuel cache c found [] ≡ int_ls device slots_in f fuel cache c
  unfolding walk
  walk-listing cache c found = refl

  -- A name that is matched by a directory.
  walk-dir :
      (cache : Cache) (c : ℕ) (found : Dirent) (ents : List Dirent) (name : Text) (path : List Text)
      (d : Dirent)
      → Cached device slots_in f cache
      → Holds c ents
      → FirstMatch name ents d
      → d.entry_type ≡ dir
      → (cache' : Cache) × Cached device slots_in f cache'
        × (walk device slots_in f fuel cache c found (name ∷ path)
            ≡ walk device slots_in f fuel cache' (u32 d.block) d path)
  walk-dir cache c found ents name path d held (n, listed, enough) (before, after, at, others, same)
        is_dir =
      let (cache', read, _, held') =
        int_ls-Cached device slots_in f fuel c n ents cache listed enough held in
      let looked : look_up name ents found ≡ some d =
        rw at (look_up-dir name before after d found others same is_dir) in
      (cache', held', walk-step cache cache' c found ents name path read ∙ rw (looked, is_dir))

  abbrev AtEnd : ℕ → Dirent → Type 0
  AtEnd end found = (found.entry_type ≡ dir) × (u32 found.block ≡ end)

  -- The whole way, and the names that are left.
  walk-Leads :
      {c : ℕ} {path : List Text} {end : ℕ}
      → Leads c path end
      → (cache : Cache) (found : Dirent) (left : List Text) → Cached device slots_in f cache
      → (cache' : Cache) × (found' : Dirent) × Cached device slots_in f cache'
        × (((path ≡ []) × (found' ≡ found) × (c ≡ end)) ⊎ AtEnd end found')
        × (walk device slots_in f fuel cache c found (path ++ left)
            ≡ walk device slots_in f fuel cache' end found' left)
  walk-Leads (here c) cache found left held = (cache, found, held, inl (refl, refl, refl), refl)
  walk-Leads (into c ents name d path end holds first is_dir way) cache found left held =
      let (cache1, held1, step) =
        walk-dir cache c found ents name (path ++ left) d held holds first is_dir in
      let (cache2, found2, held2, reached, rest) = walk-Leads way cache1 d left held1 in
      let at_end : AtEnd end found2 = elim reached [
        | inl (_, same, on) ↦
            (ap (λ x. x.entry_type) same ∙ is_dir, ap (λ x. u32 x.block) same ∙ on)
        | inr at ↦ at
      ] in
      (cache2, found2, held2, inr at_end, step ∙ rest)

  -- A name that nothing matches, behind the directory `found`.
  walk-none :
      (cache : Cache) (c : ℕ) (found : Dirent) (ents : List Dirent) (name : Text) (path : List Text)
      → Cached device slots_in f cache
      → Holds c ents
      → NoMatch name ents
      → (cache' : Cache) × Cached device slots_in f cache'
        × (walk device slots_in f fuel cache c found (name ∷ path)
            ≡ on_found name
                (some found)
                cache'
                (λ d. walk device slots_in f fuel cache' (u32 d.block) d path))
  walk-none cache c found ents name path held (n, listed, enough) others =
      let (cache', read, _, held') =
        int_ls-Cached device slots_in f fuel c n ents cache listed enough held in
      (
        cache',
        held',
        walk-step cache cache' c found ents name path read
            ∙ rw (look_up-none name ents found others),
      )

  -- A name that is matched by a file.
  walk-file :
      (cache : Cache) (c : ℕ) (found : Dirent) (ents : List Dirent) (name : Text) (path : List Text)
      (d : Dirent)
      → Cached device slots_in f cache
      → Holds c ents
      → FirstMatch name ents d
      → d.entry_type ≢ dir
      → (cache' : Cache) × Cached device slots_in f cache'
        × (walk device slots_in f fuel cache c found (name ∷ path) ≡ (failed not_dir, cache'))
  walk-file cache c found ents name path d held (n, listed, enough)
        (before, after, at, others, same) no_dir =
      let (cache', read, _, held') =
        int_ls-Cached device slots_in f fuel c n ents cache listed enough held in
      let looked : look_up name ents found ≡ none =
        rw at (look_up-file name before after d found others same no_dir) in
      (cache', held', walk-step cache cache' c found ents name path read ∙ rw looked)

  walk-Listed :
      (cache : Cache) (end : ℕ) (found : Dirent) (ents : List Dirent)
      → Cached device slots_in f cache
      → Holds end ents
      → (cache' : Cache) × Cached device slots_in f cache'
        × (walk device slots_in f fuel cache end found [] ≡ (ok ents, cache'))
  walk-Listed cache end found ents held (n, listed, enough) =
      let (cache', read, _, held') =
        int_ls-Cached device slots_in f fuel end n ents cache listed enough held in
      (cache', held', walk-listing cache end found ∙ read)

  -- When the names of a path lead, by the first matches of their directories, to a directory,
  -- `traverse` returns its entries, with any cache that holds only what is on the disk, and leaves
  -- such a cache. The fuel must be enough for each directory on the way.
  pub traverse-Leads :
      (cache : Cache) (path : List Text) (start : Option Dirent) (end : ℕ) (ents : List Dirent)
      → Cached device slots_in f cache
      → Leads (start_cluster start) path end
      → Holds end ents
      → (cache' : Cache) × Cached device slots_in f cache'
        × (traverse device slots_in f fuel cache path start ≡ (ok ents, cache'))
  unfolding traverse
  traverse-Leads cache path start end ents held way holds =
      let (cache1, found, held1, _, rest) = walk-Leads way cache invalid_dirent [] held in
      let (cache2, held2, last) = walk-Listed cache1 end found ents held1 holds in
      (
        cache2,
        held2,
        ap (λ p. walk device slots_in f fuel cache (start_cluster start) invalid_dirent p)
              (sym (append-nil path))
            ∙ rest
            ∙ last,
      )

  -- A name that nothing in the starting directory matches is an error as a path of its own. Behind
  -- a path of at least one name that leads to a directory in which nothing matches it either, it is
  -- skipped: `traverse` returns the entries of that directory. The cache holds only what is on the
  -- disk, and the fuel is enough for each directory.
  pub traverse-missing :
      (cache : Cache) (first : Text) (path : List Text) (name : Text) (start : Option Dirent)
      (end : ℕ) (root ents : List Dirent)
      → Cached device slots_in f cache
      → Holds (start_cluster start) root
      → NoMatch name root
      → Leads (start_cluster start) (first ∷ path) end
      → Holds end ents
      → NoMatch name ents
      → ((cache' : Cache) × (traverse device slots_in f fuel cache (name ∷ []) start
            ≡ (failed (no_entry name), cache')))
        × ((cache' : Cache) × (traverse device slots_in f fuel cache
                (first ∷ (path ++ (name ∷ [])))
                start
              ≡ (ok ents, cache')))
  unfolding traverse
  traverse-missing cache first path name start end root ents held top none_top way holds none_end =
      let (cache0, _, alone) =
        walk-none cache (start_cluster start) invalid_dirent root name [] held top none_top in
      let (cache1, found, held1, reached, rest) =
        walk-Leads way cache invalid_dirent (name ∷ []) held in
      let (is_dir, on) : AtEnd end found = elim reached [
        | inl (empty, _, _) ↦ absurd (ground arith)
        | inr at ↦ at
      ] in
      let (cache2, held2, skipped) = walk-none cache1 end found ents name [] held1 holds none_end in
      let (cache3, held3, last) = walk-Listed cache2 end found ents held2 holds in
      ((cache0, alone), (cache3, rest ∙ skipped ∙ simp (is_dir, on) last))

  -- A name whose first match is not a directory ends `traverse` with an error, behind any path that
  -- leads to the directory that the match is in and whatever names follow. The cache holds only
  -- what is on the disk, and so does the one that is left; the fuel is enough for each directory.
  pub traverse-not_dir :
      (cache : Cache) (path : List Text) (name : Text) (left : List Text) (start : Option Dirent)
      (end : ℕ) (ents : List Dirent) (d : Dirent)
      → Cached device slots_in f cache
      → Leads (start_cluster start) path end
      → Holds end ents
      → FirstMatch name ents d
      → d.entry_type ≢ dir
      → (cache' : Cache) × Cached device slots_in f cache'
        × (traverse device slots_in f fuel cache (path ++ (name ∷ left)) start
            ≡ (failed not_dir, cache'))
  unfolding traverse
  traverse-not_dir cache path name left start end ents d held way holds first no_dir =
      let (cache1, found, held1, _, rest) =
        walk-Leads way cache invalid_dirent (name ∷ left) held in
      let (cache2, held2, stop) =
        walk-file cache1 end found ents name left d held1 holds first no_dir in
      (cache2, held2, rest ∙ stop)

  stat-last :
      (cache : Cache) (path : List Text) (name : Text) (start : Option Dirent)
      → stat device slots_in f fuel cache (path ++ (name ∷ [])) start ≡ (
        stat_in name (traverse device slots_in f fuel cache path start).0,
        (traverse device slots_in f fuel cache path start).1,
      )
  unfolding stat
  stat-last cache [] name start = refl
  stat-last cache (n ∷ path) name start = rw (back-last n path name, pop_back-last n path name)

  -- `stat` of a path whose last name is in the directory that the others lead to, by the first
  -- matches of their directories, is the first entry that matches it, of whatever type. The cache
  -- holds only what is on the disk, and so does the one that is left; the fuel must be enough for
  -- each directory on the way.
  pub stat-first :
      (cache : Cache) (path : List Text) (name : Text) (start : Option Dirent) (end : ℕ)
      (ents : List Dirent) (d : Dirent)
      → Cached device slots_in f cache
      → Leads (start_cluster start) path end
      → Holds end ents
      → FirstMatch name ents d
      → (cache' : Cache) × Cached device slots_in f cache'
        × (stat device slots_in f fuel cache (path ++ (name ∷ [])) start ≡ (d, cache'))
  stat-first cache path name start end ents d held way holds (before, after, at, others, same) =
      let (cache', held', e) = traverse-Leads cache path start end ents held way holds in
      (
        cache',
        held',
        stat-last cache path name start
            ∙ ap (λ r. (stat_in name r.0, r.1)) e
            ∙ ap (λ x. (x, cache')) {x = find_name name ents} {y = d}
                (rw at (find_name-first name before after d others same)),
      )
