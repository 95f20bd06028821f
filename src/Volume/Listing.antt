-- ===== src/Volume/Listing.antt =====
-- `int_ls` on the clusters of a directory, and its cache.
use craft_osos.Base.{
  ℕ, suc, ◌+◌, ◌-◌, ◌^◌, ◌<◌, ◌≡◌, Bool, true, false, ◌||◌, none, some, List, [], ◌∷◌, ◌++◌,
  append-nil, append_assoc, ◌⊎◌, arith, sym, ap, ◌∙◌, inl, inr, length, Option-cases,
}
use craft_osos.Fat.{Fat, Device, fat32, cl_to_sector, next_cluster, is_end}
use craft_osos.Fat.Chain.{is_end-fat32}
use craft_osos.Directory.{Slot, Dirent}
use craft_osos.Volume.{Cache, Outcome, ok, failed, io_error, find, cluster_entries, ls_loop, int_ls}

-- The numbers of a chain, none of which the loop takes for an end.
abbrev pub GoesOn : Fat → List ℕ → Type 0
GoesOn f [] = Unit {0}
GoesOn f (c ∷ cs) = (is_end f.fat_type c ≡ false) × GoesOn f cs

abbrev pub Below28 : List ℕ → Type 0
Below28 [] = Unit {0}
Below28 (c ∷ cs) = (c < 2 ^ 28) × Below28 cs

below-GoesOn : (f : Fat) (cs : List ℕ) → f.fat_type ≡ fat32 → Below28 cs → GoesOn f cs
below-GoesOn f [] e h = tt
below-GoesOn f (c ∷ cs) e (small, h) =
    (ap (λ t. is_end t c) e ∙ is_end-fat32 c small, below-GoesOn f cs e h)

module _ (device : Device) (slots_in : List ℕ → List Slot) (f : Fat) where
  -- `Full c nexts ents e`: the clusters from `c` along `nexts`, without the last number `e` of
  -- them, can be read, hold `ents`, and have no end mark.
  pub data Full : ℕ → List ℕ → List Dirent → ℕ → Type 0 where
    stop : (c : ℕ) → Full c [] [] c
    more :
        (c next : ℕ) (bytes : List ℕ) (new : List Dirent) (nexts : List ℕ) (ents : List Dirent)
        (e : ℕ)
        → device (cl_to_sector f c) f.sectors_per_cluster ≡ some bytes
        → next_cluster f c ≡ some next
        → cluster_entries device slots_in f c bytes ≡ (new, false)
        → Full next nexts ents e
        → Full c (next ∷ nexts) (new ++ ents) e

  -- The last cluster: it has an end mark, or its entry in the table is one.
  abbrev pub Last : ℕ → List Dirent → Type 0
  Last c new =
      (bytes : List ℕ) × (next : ℕ) × (done : Bool) × (device (cl_to_sector f c)
          f.sectors_per_cluster
        ≡ some bytes)
      × (next_cluster f c ≡ some next)
      × (cluster_entries device slots_in f c bytes ≡ (new, done))
      × ((is_end f.fat_type next || done) ≡ true)

  -- A directory of `suc n` clusters from `c` on, which holds `ents`.
  abbrev pub Listed : ℕ → ℕ → List Dirent → Type 0
  Listed c n ents =
      (nexts : List ℕ) × (front : List Dirent) × (e : ℕ) × (new : List Dirent) × Full c nexts front
        e
      × GoesOn f nexts
      × (length nexts ≡ n)
      × Last e new
      × (ents ≡ front ++ new)

  ls_loop-more :
      (fuel c next : ℕ) (acc : List Dirent) (bytes : List ℕ) (new : List Dirent)
      → device (cl_to_sector f c) f.sectors_per_cluster ≡ some bytes
      → next_cluster f c ≡ some next
      → cluster_entries device slots_in f c bytes ≡ (new, false)
      → is_end f.fat_type next ≡ false
      → ls_loop device slots_in f (suc fuel) c acc
        ≡ ls_loop device slots_in f fuel next (acc ++ new)
  unfolding ls_loop
  ls_loop-more fuel c next acc bytes new answer entry found on = rw (answer, entry, found, on)

  ls_loop-Last :
      (fuel c : ℕ) (acc new : List Dirent)
      → Last c new
      → ls_loop device slots_in f (suc fuel) c acc ≡ ok (acc ++ new)
  unfolding ls_loop
  ls_loop-Last fuel c acc new (bytes, next, done, answer, entry, found, end) =
      rw (answer, entry, found, end)

  ls_loop-none :
      (fuel c : ℕ) (acc : List Dirent)
      → device (cl_to_sector f c) f.sectors_per_cluster ≡ none
      → ls_loop device slots_in f (suc fuel) c acc ≡ failed io_error
  unfolding ls_loop
  ls_loop-none fuel c acc answer = rw answer

  ls_loop-Full :
      {c : ℕ} {nexts : List ℕ} {front : List Dirent} {e : ℕ}
      → Full c nexts front e
      → GoesOn f nexts
      → (fuel : ℕ) (acc : List Dirent)
      → ls_loop device slots_in f (length nexts + fuel) c acc
        ≡ ls_loop device slots_in f fuel e (acc ++ front)
  ls_loop-Full (stop c) on fuel acc =
      ap (λ k. ls_loop device slots_in f k c acc) {x = 0 + fuel} {y = fuel} (omega arith)
      ∙ ap (λ l. ls_loop device slots_in f fuel c l) (sym (append-nil acc))
  ls_loop-Full (more c next bytes new nexts ents e answer entry found full) (on, ons) fuel acc =
      ap (λ k. ls_loop device slots_in f k c acc) {x = suc (length nexts) + fuel}
        {y = suc (length nexts + fuel)} (omega arith)
      ∙ ls_loop-more (length nexts + fuel) c next acc bytes new answer entry found on
      ∙ ls_loop-Full full ons fuel (acc ++ new)
      ∙ ap (λ l. ls_loop device slots_in f fuel e l) (append_assoc acc new ents)

  ls_loop-Listed :
      (fuel c n : ℕ) (ents : List Dirent)
      → Listed c n ents
      → n < fuel
      → ls_loop device slots_in f fuel c [] ≡ ok ents
  ls_loop-Listed fuel c n ents (nexts, front, e, new, full, ons, len, last, sum) h =
      let enough : fuel ≡ length nexts + suc (fuel - n - 1) = omega arith in
      ap (λ k. ls_loop device slots_in f k c []) enough
      ∙ ls_loop-Full full ons (suc (fuel - n - 1)) []
      ∙ ls_loop-Last (fuel - n - 1) e front new last
      ∙ ap ok (sym sum)

  -- What a directory holds does not depend on how it was read.
  ok_inj : (a b : List Dirent) → ◌≡◌ {A = Outcome (List Dirent)} (ok a) (ok b) → a ≡ b
  ok_inj a b e = ground arith

  Listed-unique : (c n m : ℕ) (a b : List Dirent) → Listed c n a → Listed c m b → a ≡ b
  Listed-unique c n m a b h k = ok_inj a b (
      sym (ls_loop-Listed (suc (n + m)) c n a h (omega arith))
      ∙ ls_loop-Listed (suc (n + m)) c m b k (omega arith))

  -- A cache that holds what is on the disk.
  abbrev pub Cached : Cache → Type 0
  Cached cache = (c : ℕ) (ents : List Dirent) → find c cache ≡ some ents → (n : ℕ) × Listed c n ents

  int_ls-hit :
      (fuel c : ℕ) (ents : List Dirent) (cache : Cache)
      → find c cache ≡ some ents
      → int_ls device slots_in f fuel cache c ≡ (ok ents, cache)
  unfolding int_ls
  int_ls-hit fuel c ents cache hit = rw hit

  int_ls-miss :
      (fuel c n : ℕ) (ents : List Dirent) (cache : Cache)
      → Listed c n ents
      → n < fuel
      → find c cache ≡ none
      → int_ls device slots_in f fuel cache c ≡ (ok ents, (c, ents) ∷ cache)
  unfolding int_ls
  int_ls-miss fuel c n ents cache h enough miss = rw (miss, ls_loop-Listed fuel c n ents h enough)

  find_self : (c : ℕ) (ents : List Dirent) (cache : Cache) → find c ((c, ents) ∷ cache) ≡ some ents
  unfolding find
  find_self c ents cache = ground arith

  find_cons :
      (c c' : ℕ) (ents ents' : List Dirent) (cache : Cache)
      → find c' ((c, ents) ∷ cache) ≡ some ents'
      → ((c ≡ c') × (ents ≡ ents')) ⊎ (find c' cache ≡ some ents')
  unfolding find
  find_cons c c' ents ents' cache h = ground arith

  Cached-cons :
      (c n : ℕ) (ents : List Dirent) (cache : Cache)
      → Listed c n ents
      → Cached cache
      → Cached ((c, ents) ∷ cache)
  Cached-cons c n ents cache listed held c' ents' hit = elim (find_cons c c' ents ents' cache hit) [
    | inl (same, same') ↦ (n, rw (sym same, sym same') listed)
    | inr old ↦ held c' ents' old
  ]

  -- For a directory on the disk and a cache that holds nothing but what is on the disk, `int_ls`
  -- returns the entries of the directory, cached or not, if the fuel is more than the clusters
  -- behind the first one, and leaves a cache that holds this directory and still nothing but what
  -- is on the disk.
  pub int_ls-Cached :
      (fuel c n : ℕ) (ents : List Dirent) (cache : Cache)
      → Listed c n ents
      → n < fuel
      → Cached cache
      → (cache' : Cache) × (int_ls device slots_in f fuel cache c ≡ (ok ents, cache'))
        × (find c cache' ≡ some ents)
        × Cached cache'
  int_ls-Cached fuel c n ents cache h enough held = elim (Option-cases (find c cache)) [
    | inl miss ↦ (
      (c, ents) ∷ cache,
      int_ls-miss fuel c n ents cache h enough miss,
      find_self c ents cache,
      Cached-cons c n ents cache h held,
    )
    | inr (old, hit) ↦
        let (m, listed) = held c old hit in
        let same = Listed-unique c m n old ents listed h in
        (cache, int_ls-hit fuel c ents cache (hit ∙ ap some same), hit ∙ ap some same, held)
  ]

  -- On FAT32, where the numbers of a table have 28 bits, a directory whose clusters are full, so
  -- that no end mark is in them, is not listed when it is not in the cache: `int_ls` reads on at
  -- the number that ends the chain, and fails if the device has no sector there. The fuel is more
  -- than the clusters.
  pub int_ls-fat32-Full :
      (fuel c : ℕ) (nexts : List ℕ) (ents : List Dirent) (e : ℕ) (cache : Cache)
      → f.fat_type ≡ fat32
      → Full c nexts ents e
      → Below28 nexts
      → device (cl_to_sector f e) f.sectors_per_cluster ≡ none
      → find c cache ≡ none
      → length nexts < fuel
      → int_ls device slots_in f fuel cache c ≡ (failed io_error, cache)
  unfolding int_ls
  int_ls-fat32-Full fuel c nexts ents e cache big full small gone new enough =
      let loop : ls_loop device slots_in f fuel c [] ≡ failed io_error =
        ap (λ k. ls_loop device slots_in f k c [])
          {y = length nexts + suc (fuel - length nexts - 1)} (omega arith)
        ∙ ls_loop-Full full (below-GoesOn f nexts big small) (suc (fuel - length nexts - 1)) []
        ∙ ls_loop-none (fuel - length nexts - 1) e ents gone in
      rw (new, loop)
