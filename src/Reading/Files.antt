-- ===== src/Reading/Files.antt =====
-- `read` of a part of a file.
use craft_osos.Base.{
  ℕ, suc, ◌+◌, ◌-◌, ◌*◌, ◌/◌, ◌%◌, ◌^◌, ◌≤◌, ◌<◌, ◌≡◌, ◌≢◌, some, List, [], ◌∷◌, ◌++◌, append-nil,
  ==_ne, length, take, drop, min, length-drop, arith, sym, ap, ◌∙◌, inl, inr,
}
use native.Mathlib.Nat.{
  mod-lt, mod-eq_of_lt, mod_self, div-add-mod', mul-add-mod_self_right, mul-div_cancel,
  le-div_iff_mul-le,
}
use native.Mathlib.Decide.{dec_lt}
use craft_osos.Fat.{Fat, Device, u32, ready}
use craft_osos.Directory.{Dirent}
use craft_osos.Reading.{part, read_loop, read, roundup, u64}
use craft_osos.Reading.Parts.{
  concat, take-all, take-append, drop-front, slice-some, part-only, part-first, cluster_size,
  Visits, nothing, visit, read_loop-step, read_loop-rest,
}

-- The only cluster of a part: `d` of its bytes are in front of the end.
part-one :
    (size c r d : ℕ) (bytes : List ℕ)
    → r < size
    → r ≤ d
    → 0 < d
    → d ≤ size
    → length bytes ≡ size
    → part size 1 0 (c * size + r) (c * size + d) bytes ≡ some (take (d - r) (drop r bytes))
part-one size c r d bytes inside order some_left small full =
    let start : (c * size + r) % size ≡ r = mul-add-mod_self_right c size r ∙ mod-eq_of_lt inside in
    elim (dec_lt d size) [
      | yes less ↦
          let end : (c * size + d) % size ≡ d =
            mul-add-mod_self_right c size d ∙ mod-eq_of_lt less in
          part-only size (c * size + r) (c * size + d) bytes (λ e. omega (arith, end, e, some_left))
          ∙ rw (start, end) (slice-some r d bytes order (omega arith))
      | no more ↦
          let whole : d ≡ size = omega arith in
          let end : (c * size + d) % size ≡ 0 =
            mul-add-mod_self_right c size d ∙ ap (λ k. k % size) whole ∙ mod_self size in
          part-first size 1 (c * size + r) (c * size + d) bytes (inr end)
          ∙ rw start (slice-some r (length bytes) bytes (omega arith) (omega arith))
          ∙ ap (λ k. some (take (k - r) (drop r bytes))) {x = length bytes} {y = d} (omega arith)
    ]

add_mul : (a b size : ℕ) → (a + b) * size ≡ a * size + b * size
add_mul a b size = grind arith

module _ (device : Device) (f : Fat) (block_size : ℕ) where
  -- The clusters from the one where the part starts, which holds it from byte `r` on, up to byte
  -- `d` behind the start of this cluster.
  read_loop-Visits :
      {cl : ℕ} {clusters : List (List ℕ)}
      → Visits device f block_size cl clusters
      → (c r d : ℕ) → r < cluster_size device f block_size
      → r ≤ d
      → d ≤ length clusters * cluster_size device f block_size
      → length clusters * cluster_size device f block_size < d + cluster_size device f block_size
      → read_loop device f block_size
          (length clusters)
          (length clusters)
          0
          (c * cluster_size device f block_size + r)
          (c * cluster_size device f block_size + d)
          cl
          []
        ≡ ready (take (d - r) (drop r (concat clusters)))
  unfolding read_loop
  read_loop-Visits (nothing cl) c r d inside order most least =
      ap (λ k. ready (take k (drop r []))) {x = 0} {y = d - r} (omega arith)
  read_loop-Visits (visit cl next bytes [] answer full entry way) c r d inside order most least =
      let size = cluster_size device f block_size in
      read_loop-step device f block_size 0 1 0 (c * size + r) (c * size + d) cl next [] bytes
        (take (d - r) (drop r bytes)) answer
        (part-one size c r d bytes inside order (omega arith) (omega arith) full) entry
      ∙ ap (λ l. ready (take (d - r) (drop r l))) (sym (append-nil bytes))
  read_loop-Visits (visit cl next bytes (b ∷ bs) answer full entry way) c r d inside order most
        least =
      let size = cluster_size device f block_size in
      let n = suc (length bs) in
      let more_mul = add_mul 1 n size in
      let start : (c * size + r) % size ≡ r =
        mul-add-mod_self_right c size r ∙ mod-eq_of_lt inside in
      let first : part size (suc n) 0 (c * size + r) (c * size + d) bytes ≡ some (drop r bytes) =
        part-first size (suc n) (c * size + r) (c * size + d) bytes (inl (omega arith))
        ∙ rw start (slice-some r (length bytes) bytes (omega arith) (omega arith))
        ∙ ap some
            (take-all (length bytes - r) (drop r bytes) (omega (arith, length-drop r bytes))) in
      let same : (c * size + d) % size ≡ (d - size) % size =
        mul-add-mod_self_right c size d
        ∙ ap (λ k. k % size) {x = d} {y = 1 * size + (d - size)} (omega arith)
        ∙ mul-add-mod_self_right 1 size (d - size) in
      let split : take (d - r) (drop r (bytes ++ concat (b ∷ bs)))
          ≡ drop r bytes ++ take (d - size) (concat (b ∷ bs)) =
        ap (take (d - r)) (drop-front r bytes (concat (b ∷ bs)) (omega arith))
        ∙ take-append (d - r) (drop r bytes) (concat (b ∷ bs)) (omega (arith, length-drop r bytes))
        ∙ ap (λ k. drop r bytes ++ take k (concat (b ∷ bs))) (omega (arith, length-drop r bytes)) in
      read_loop-step device f block_size n (suc n) 0 (c * size + r) (c * size + d) cl next [] bytes
        (drop r bytes) answer first entry
      ∙ read_loop-rest device f block_size way (suc n) 1 (c * size + r) (c * size + d) (d - size)
          (drop r bytes) (omega arith) (omega arith) (omega arith) (omega arith) same
      ∙ ap ready (sym split)

-- Where a part starts and ends in the file, and the size of the file's clusters.
abbrev pub start_of : Dirent → ℕ → ℕ
start_of ent pos = min ent.size pos

abbrev pub end_of : Dirent → ℕ → ℕ → ℕ
end_of ent pos n = min ent.size (pos + n)

abbrev pub size_of : Fat → ℕ
size_of f = f.sector_size * f.sectors_per_cluster

mul_mono : (a b k : ℕ) → a ≤ b → a * k ≤ b * k
mul_mono a b k h = grind arith

-- Fewer clusters than bytes.
quotient_le : (size end k : ℕ) → 0 < size → k * size < end + size → k ≤ end
quotient_le size end k some_size h = elim (dec_lt end k) [
  | yes more ↦
      let mono = mul_mono (end + 1) k size (omega arith) in
      let split = add_mul end 1 size in
      let least : end * 1 ≤ end * size = grind arith in absurd (omega arith)
  | no less ↦ omega arith
]

-- Division, upwards for the end.
cut_up :
    (size start end : ℕ)
    → 0 < size
    → start ≤ end
    → (start / size * size + start % size ≡ start)
      × (start % size < size)
      × (end ≤ (end + size - 1) / size * size)
      × ((end + size - 1) / size * size < end + size)
      × (start / size ≤ (end + size - 1) / size)
      × ((end + size - 1) / size ≤ end)
cut_up size start end some_size order =
    let up = div-add-mod' (end + size - 1) size in
    let small = mod-lt (end + size - 1) some_size in
    let low = div-add-mod' start size in
    let (_, from) =
      le-div_iff_mul-le {k = size} {x = start / size} {y = end + size - 1} some_size in
    (
      low,
      mod-lt start some_size,
      omega arith,
      omega arith,
      from (omega arith),
      quotient_le size end ((end + size - 1) / size) some_size (omega arith),
    )

read-loop :
    (device : Device) (f : Fat) (ent : Dirent) (pos n : ℕ)
    → size_of f ≢ 0
    → pos + n < 2 ^ 64
    → read device f f.sector_size ent pos n
      ≡ read_loop device f f.sector_size
          ((end_of ent pos n + size_of f - 1) / size_of f - start_of ent pos / size_of f)
          ((end_of ent pos n + size_of f - 1) / size_of f - start_of ent pos / size_of f)
          0
          (start_of ent pos)
          (end_of ent pos n)
          (u32 (ent.block + start_of ent pos / size_of f))
          []
unfolding read roundup
read-loop device f ent pos n ne small =
    let size = size_of f in
    let start = start_of ent pos in
    let end = end_of ent pos n in
    let up = (end + size - 1) / size in
    let (_, _, _, _, order, few) = cut_up size start end (omega arith) (omega arith) in
    let count : u64 (up + 2 ^ 64 - start / size) ≡ up - start / size = omega arith in
    rw (mod-eq_of_lt small, ==_ne size 0 ne, mul-div_cancel up {n = size} (omega arith), count)

-- From a position in a file, `read` gives the bytes up to the end of the file or of the part, as
-- the clusters hold them that follow each other in the table from the number `block + position /
-- cluster size`, as many as the part touches: for a position in the first cluster these are the
-- clusters of the file. Clusters are not empty and can be read, positions do not pass 2 ^ 64, and
-- the device's blocks are the sectors of the volume.
pub read-Visits :
    (device : Device) (f : Fat) (ent : Dirent) (pos n : ℕ) (clusters : List (List ℕ))
    → size_of f ≢ 0
    → pos + n < 2 ^ 64
    → Visits device f f.sector_size (u32 (ent.block + start_of ent pos / size_of f)) clusters
    → length clusters
      ≡ (end_of ent pos n + size_of f - 1) / size_of f - start_of ent pos / size_of f
    → read device f f.sector_size ent pos n
      ≡ ready (
          take
            (end_of ent pos n - start_of ent pos)
            (drop (start_of ent pos % size_of f) (concat clusters)))
read-Visits device f ent pos n clusters ne small way count =
    let size = size_of f in
    let start = start_of ent pos in
    let end = end_of ent pos n in
    let c = start / size in
    let r = start % size in
    let (low, inside, high, least, order, _) = cut_up size start end (omega arith) (omega arith) in
    let whole : (end + size - 1) / size * size ≡ c * size + length clusters * size =
      ap (λ k. k * size) {x = (end + size - 1) / size} {y = c + length clusters} (omega arith)
      ∙ add_mul c (length clusters) size in
    let d = end - c * size in
    read-loop device f ent pos n ne small
    ∙ ap (λ k. read_loop device f f.sector_size k k 0 start end (u32 (ent.block + c)) [])
        (sym count)
    ∙ ap
        (λ s.
          read_loop device f f.sector_size (length clusters) (length clusters) 0 s end
            (u32 (ent.block + c)) [])
        (sym low)
    ∙ ap
        (λ e.
          read_loop device f f.sector_size (length clusters) (length clusters) 0 (c * size + r) e
            (u32 (ent.block + c)) [])
        {x = end} {y = c * size + d} (omega arith)
    ∙ read_loop-Visits device f f.sector_size way c r d inside (omega arith) (omega arith)
        (omega arith)
    ∙ ap (λ k. ready (take k (drop r (concat clusters)))) {x = d - r} {y = end - start}
        (omega arith)
