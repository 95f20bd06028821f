-- ===== src/Async/Lookup.antt =====
-- Paths that the asynchronous functions follow, and the cache of `cstat`.
use craft_osos.Base.{
  ℕ, ◌≡◌, inl, inr, true, false, none, some, List, [], ◌∷◌, ◌++◌, arith, refl, sym, ap, ◌∙◌,
  Option-cases,
}
use craft_osos.Lua.{Text}
use craft_osos.Os.Filter.{text_eq_refl}
use craft_osos.Fat.{Fat, Device, cl_to_sector, u32}
use craft_osos.Directory.{Slot, Dirent, dir}
use craft_osos.Volume.{Outcome, ok, failed, no_entry, is_dir}
use craft_osos.Async.{
  names_match, match_in, on_outcome, StatCache, StatResult, cached, cached_or, cstat, int_ls, walk,
  traverse,
}

cached_first :
    (path : Text) (e : Dirent) (cache : StatCache) → cached path ((path, e) ∷ cache) ≡ some e
unfolding cached
cached_first path e cache = rw (text_eq_refl path)

cstat_hit :
    (stat : Text → StatResult) (path : Text) (cache : StatCache) (e : Dirent)
    → cached path cache ≡ some e
    → cstat stat path cache ≡ ((none, e), cache)
unfolding cstat
cstat_hit stat path cache e h =
    ap (λ o. cached_or o cache (stat path, (path, (stat path).1) ∷ cache)) h

cstat_miss :
    (stat : Text → StatResult) (path : Text) (cache : StatCache)
    → cached path cache ≡ none
    → cstat stat path cache ≡ (stat path, (path, (stat path).1) ∷ cache)
unfolding cstat
cstat_miss stat path cache h =
    ap (λ o. cached_or o cache (stat path, (path, (stat path).1) ∷ cache)) h

-- The answer of `cstat` for a path that it was asked for just before: it is the same entry and never
-- an error, whatever the file system says by now, and even when the first answer was an error; the
-- cache does not change again.
pub cstat-cstat :
    (stat stat' : Text → StatResult) (path : Text) (cache : StatCache)
    → cstat stat' path ((cstat stat path cache).1)
      ≡ ((none, (cstat stat path cache).0.1), (cstat stat path cache).1)
cstat-cstat stat stat' path cache = elim (Option-cases (cached path cache)) [
  | inl miss ↦
      (let first = cstat_miss stat path cache miss in
        ap (λ r. cstat stat' path (r.1)) first
        ∙ cstat_hit stat' path ((path, (stat path).1) ∷ cache) ((stat path).1)
            (cached_first path ((stat path).1) cache)
        ∙ ap (λ r. ((none, r.0.1), r.1)) (sym first))
  | inr (e, hit) ↦
      (let first = cstat_hit stat path cache e hit in
        ap (λ r. cstat stat' path (r.1)) first
        ∙ cstat_hit stat' path cache e hit
        ∙ ap (λ r. ((none, r.0.1), r.1)) (sym first))
]

abbrev pub NoMatch : Text → List Dirent → Type 0
NoMatch name [] = Unit {0}
NoMatch name (e ∷ ents) = (names_match (e.name) name ≡ false) × NoMatch name ents

-- The first entry that matches is a directory, and this one.
abbrev pub Enters : Text → List Dirent → Dirent → Type 0
Enters name ents d =
    (before after : List Dirent) × (ents ≡ before ++ (d ∷ after))
    × NoMatch name before
    × (names_match (d.name) name ≡ true)
    × (d.entry_type ≡ dir)

match_in-Enters :
    (name : Text) (before after : List Dirent) (d : Dirent)
    → NoMatch name before
    → names_match (d.name) name ≡ true
    → d.entry_type ≡ dir
    → match_in name (before ++ (d ∷ after)) ≡ ok d
unfolding match_in
match_in-Enters name [] after d others same entered =
    let test : is_dir (d.entry_type) ≡ true = ap is_dir entered in ground arith
match_in-Enters name (e ∷ before) after d (other, others) same entered =
    rw other (match_in-Enters name before after d others same entered)

match_in-NoMatch :
    (name : Text) (ents : List Dirent)
    → NoMatch name ents
    → match_in name ents ≡ failed (no_entry name)
unfolding match_in
match_in-NoMatch name [] h = refl
match_in-NoMatch name (e ∷ ents) (other, h) = rw other (match_in-NoMatch name ents h)

module _ (device : Device) (slots_in : List ℕ → List Slot) (f : Fat) (fuel : ℕ) where
  -- The way from a directory along the names of a path, by their first matches.
  pub data Leads : ℕ → List Text → ℕ → Type 0 where
    here : (c : ℕ) → Leads c [] c
    into :
        (c : ℕ) (ents : List Dirent) (name : Text) (d : Dirent) (path : List Text) (end : ℕ)
        → int_ls device slots_in f fuel (cl_to_sector f c) ≡ ok ents
        → Enters name ents d
        → Leads (u32 (d.block)) path end
        → Leads c (name ∷ path) end

  walk_step :
      (c : ℕ) (name : Text) (path : List Text) (ents : List Dirent) (o : Outcome Dirent)
      → int_ls device slots_in f fuel (cl_to_sector f c) ≡ ok ents
      → match_in name ents ≡ o
      → walk device slots_in f fuel c (name ∷ path)
        ≡ on_outcome o (λ e. walk device slots_in f fuel (u32 (e.block)) path)
  unfolding walk
  walk_step c name path ents o listed matched =
      ap
        (λ r. on_outcome r (λ ents.
          on_outcome (match_in name ents) (λ e. walk device slots_in f fuel (u32 (e.block)) path)))
        listed
      ∙ ap (λ r. on_outcome r (λ e. walk device slots_in f fuel (u32 (e.block)) path)) matched

  walk-Leads :
      {c : ℕ} {path : List Text} {end : ℕ}
      → Leads c path end
      → (left : List Text)
      → walk device slots_in f fuel c (path ++ left) ≡ walk device slots_in f fuel end left
  walk-Leads (here c) left = refl
  walk-Leads (into c ents name d path end listed (before, after, at, others, same, entered) way)
        left =
      walk_step c name (path ++ left) ents (ok d) listed
        (ap (match_in name) at ∙ match_in-Enters name before after d others same entered)
      ∙ walk-Leads way left

  -- A path whose first names lead from the root to a directory in which nothing matches the next name
  -- is an error that names it, `E_NOENT`, however the path goes on. Each directory on the way must
  -- be listed without error.
  pub traverse-no_entry :
      (path left : List Text) (name : Text) (end : ℕ) (ents : List Dirent)
      → Leads 0 path end
      → int_ls device slots_in f fuel (cl_to_sector f end) ≡ ok ents
      → NoMatch name ents
      → traverse device slots_in f fuel (path ++ (name ∷ left)) none ≡ failed (no_entry name)
  unfolding traverse
  traverse-no_entry path left name end ents way listed others =
      walk-Leads way (name ∷ left)
      ∙ walk_step end name left ents (failed (no_entry name)) listed
          (match_in-NoMatch name ents others)
