-- ===== src/Reading/Parts.antt =====
-- The bytes that `read` gives, against the bytes of the clusters that it visits.
use craft_osos.Base.{
  ℕ, zero, suc, ◌+◌, ◌-◌, ◌*◌, ◌%◌, ◌≤◌, ◌<◌, ◌≡◌, ◌≢◌, ◌⊎◌, some, List, [], ◌∷◌, ◌++◌, append-nil,
  append_assoc, length, take, drop, arith, refl, sym, ap, ◌∙◌,
}
use native.Mathlib.Nat.{mod-eq_of_lt, mod_self, mod-eq-sub-mod}
use native.Mathlib.Decide.{dec_lt}
use craft_osos.Fat.{Fat, Device, cl_to_sector, next_cluster, ready}
use craft_osos.Reading.{slice, part, read_loop}

abbrev pub concat : List (List ℕ) → List ℕ
concat [] = []
concat (bytes ∷ clusters) = bytes ++ concat clusters

pub take-all : (n : ℕ) (xs : List ℕ) → length xs ≤ n → take n xs ≡ xs
take-all zero [] h = refl
take-all (suc n) [] h = refl
take-all zero (x ∷ xs) h = absurd (omega arith)
take-all (suc n) (x ∷ xs) h = ap (λ l. x ∷ l) (take-all n xs (omega arith))

pub take-append :
    (n : ℕ) (xs ys : List ℕ) → length xs ≤ n → take n (xs ++ ys) ≡ xs ++ take (n - length xs) ys
take-append n [] ys h = ap (λ k. take k ys) (omega arith)
take-append zero (x ∷ xs) ys h = absurd (omega arith)
take-append (suc n) (x ∷ xs) ys h =
    ap (λ l. x ∷ l)
      (take-append n xs ys (omega arith)
        ∙ ap (λ k. xs ++ take k ys) {x = n - length xs} {y = suc n - suc (length xs)} (omega arith))

pub take-front : (n : ℕ) (xs ys : List ℕ) → n ≤ length xs → take n (xs ++ ys) ≡ take n xs
take-front zero xs ys h = refl
take-front (suc n) [] ys h = absurd (omega arith)
take-front (suc n) (x ∷ xs) ys h = ap (λ l. x ∷ l) (take-front n xs ys (omega arith))

pub drop-front : (n : ℕ) (xs ys : List ℕ) → n ≤ length xs → drop n (xs ++ ys) ≡ drop n xs ++ ys
drop-front zero xs ys h = refl
drop-front (suc n) [] ys h = absurd (omega arith)
drop-front (suc n) (x ∷ xs) ys h = drop-front n xs ys (omega arith)

-- One part of a cluster: a middle one, the last one, and the first one.
pub slice-some :
    (from to : ℕ) (bytes : List ℕ)
    → from ≤ to
    → to ≤ length bytes
    → slice from to bytes ≡ some (take (to - from) (drop from bytes))
unfolding slice
slice-some from to bytes h k = ground arith

part-middle :
    (size nclust cn stapos endpos : ℕ) (bytes : List ℕ)
    → suc cn < nclust
    → 0 < cn
    → part size nclust cn stapos endpos bytes ≡ some bytes
unfolding part
part-middle size nclust cn stapos endpos bytes h k = ground arith

part-cut :
    (size nclust cn stapos endpos : ℕ) (bytes : List ℕ)
    → suc cn ≡ nclust
    → 0 < cn
    → endpos % size ≢ 0
    → part size nclust cn stapos endpos bytes ≡ slice 0 (endpos % size) bytes
unfolding part
part-cut size nclust cn stapos endpos bytes h k ne = ground arith

part-whole :
    (size nclust cn stapos endpos : ℕ) (bytes : List ℕ)
    → 0 < cn
    → endpos % size ≡ 0
    → part size nclust cn stapos endpos bytes ≡ some bytes
unfolding part
part-whole size nclust cn stapos endpos bytes k e = ground arith

pub part-only :
    (size stapos endpos : ℕ) (bytes : List ℕ)
    → endpos % size ≢ 0
    → part size 1 0 stapos endpos bytes ≡ slice (stapos % size) (endpos % size) bytes
unfolding part
part-only size stapos endpos bytes ne = ground arith

pub part-first :
    (size nclust stapos endpos : ℕ) (bytes : List ℕ)
    → (1 < nclust) ⊎ (endpos % size ≡ 0)
    → part size nclust 0 stapos endpos bytes ≡ slice (stapos % size) (length bytes) bytes
unfolding part
part-first size nclust stapos endpos bytes h = ground arith

suc_mul : (n size : ℕ) → suc n * size ≡ n * size + size
suc_mul n size = grind arith

module _ (device : Device) (f : Fat) (block_size : ℕ) where
  -- The size of a cluster.
  abbrev pub cluster_size : ℕ
  cluster_size = block_size * f.sectors_per_cluster

  -- Clusters that can be read along the chain from `c`, with what is in them.
  pub data Visits : ℕ → List (List ℕ) → Type 0 where
    nothing : (c : ℕ) → Visits c []
    visit :
        (c next : ℕ) (bytes : List ℕ) (clusters : List (List ℕ))
        → device (cl_to_sector f c) f.sectors_per_cluster ≡ some bytes
        → length bytes ≡ cluster_size
        → next_cluster f c ≡ some next
        → Visits next clusters
        → Visits c (bytes ∷ clusters)

  pub read_loop-step :
      (left nclust cn stapos endpos c next : ℕ) (acc bytes taken : List ℕ)
      → device (cl_to_sector f c) f.sectors_per_cluster ≡ some bytes
      → part cluster_size nclust cn stapos endpos bytes ≡ some taken
      → next_cluster f c ≡ some next
      → read_loop device f block_size (suc left) nclust cn stapos endpos c acc
        ≡ read_loop device f block_size left nclust (suc cn) stapos endpos next (acc ++ taken)
  unfolding read_loop
  read_loop-step left nclust cn stapos endpos c next acc bytes taken answer cut entry =
      rw (answer, cut, entry)

  -- The last cluster, of which `rest` bytes are in the file.
  part-last :
      (nclust cn stapos endpos rest : ℕ) (bytes : List ℕ)
      → suc cn ≡ nclust
      → 0 < cn
      → 0 < rest
      → rest ≤ cluster_size
      → length bytes ≡ cluster_size
      → endpos % cluster_size ≡ rest % cluster_size
      → part cluster_size nclust cn stapos endpos bytes ≡ some (take rest bytes)
  part-last nclust cn stapos endpos rest bytes last later some_left small full same =
      elim (dec_lt rest cluster_size) [
        | yes less ↦
            let at : endpos % cluster_size ≡ rest = same ∙ mod-eq_of_lt less in
            part-cut cluster_size nclust cn stapos endpos bytes last later
              (λ e. omega (arith, at, e, some_left))
            ∙ ap (λ k. slice 0 k bytes) at
            ∙ slice-some 0 rest bytes (omega arith) (omega arith)
            ∙ ap (λ k. some (take k bytes)) {x = rest - 0} {y = rest} (omega arith)
        | no more ↦
            let whole : rest ≡ cluster_size = omega arith in
            part-whole cluster_size nclust cn stapos endpos bytes later
              (same ∙ ap (λ k. k % cluster_size) whole ∙ mod_self cluster_size)
            ∙ ap some (sym (take-all rest bytes (omega arith)))
      ]

  pub read_loop-rest :
      {c : ℕ} {clusters : List (List ℕ)}
      → Visits c clusters
      → (nclust cn stapos endpos rest : ℕ) (acc : List ℕ) → 0 < cn
      → nclust ≡ length clusters + cn
      → rest ≤ length clusters * cluster_size
      → length clusters * cluster_size < rest + cluster_size
      → endpos % cluster_size ≡ rest % cluster_size
      → read_loop device f block_size (length clusters) nclust cn stapos endpos c acc
        ≡ ready (acc ++ take rest (concat clusters))
  unfolding read_loop
  read_loop-rest (nothing c) nclust cn stapos endpos zero acc later count most least same =
      ap ready (sym (append-nil acc))
  read_loop-rest (nothing c) nclust cn stapos endpos (suc rest) acc later count most least same =
      absurd (omega arith)
  read_loop-rest (visit c next bytes [] answer full entry way) nclust cn stapos endpos rest acc
        later count most least same =
      read_loop-step 0 nclust cn stapos endpos c next acc bytes (take rest bytes) answer
        (part-last nclust cn stapos endpos rest bytes (omega arith) later (omega arith)
          (omega arith) full same)
        entry
      ∙ ap (λ l. ready (acc ++ l)) (sym (ap (take rest) (append-nil bytes)))
  read_loop-rest (visit c next bytes (b ∷ bs) answer full entry way) nclust cn stapos endpos rest
        acc later count most least same =
      let n = length bs in
      let two = suc_mul (suc n) cluster_size in
      let one = suc_mul n cluster_size in
      let enough : cluster_size ≤ rest = omega arith in
      read_loop-step (suc n) nclust cn stapos endpos c next acc bytes bytes answer
        (part-middle cluster_size nclust cn stapos endpos bytes (omega arith) later) entry
      ∙ read_loop-rest way nclust (suc cn) stapos endpos (rest - cluster_size) (acc ++ bytes)
          (omega arith) (omega arith) (omega arith) (omega arith) (same ∙ mod-eq-sub-mod enough)
      ∙ ap ready (
          append_assoc acc bytes (take (rest - cluster_size) (b ++ concat bs))
          ∙ ap (λ l. acc ++ l)
              (ap (λ k. bytes ++ take k (b ++ concat bs)) {x = rest - cluster_size}
                  {y = rest - length bytes} (omega arith)
                ∙ sym (take-append rest bytes (b ++ concat bs) (omega arith))))
