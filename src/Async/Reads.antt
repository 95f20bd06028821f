-- ===== src/Async/Reads.antt =====
-- The asynchronous `read` of a file whose clusters follow each other on the disk.
use craft_osos.Base.{
  ℕ, zero, suc, ◌+◌, ◌-◌, ◌*◌, ◌/◌, ◌%◌, ◌^◌, ◌≤◌, ◌<◌, ◌≡◌, inl, inr, ◌==◌, some, List, [], ◌∷◌,
  length, take, drop, replicate, min, arith, refl, sym, ap, ◌∙◌, Bool-cases, length-take,
  length-drop, ==_iff, ==_ne,
}
use craft_osos.Fat.{Fat, Device, cl_to_sector, u32}
use craft_osos.Directory.{Dirent}
use craft_osos.Volume.{ok, failed, io_error, out_of_bounds, or_fail}
use craft_osos.Reading.{roundup, slice, u64}
use craft_osos.Reading.Parts.{take-front, slice-some}
use craft_osos.Ide.Buffers.{if_true, if_false}
use craft_osos.Async.{resize, cut, read_by, read}

take-take : (n m : ℕ) (xs : List ℕ) → n ≤ m → take n (take m xs) ≡ take n xs
take-take zero m xs h = refl
take-take (suc n) zero xs h = absurd (omega arith)
take-take (suc n) (suc m) [] h = refl
take-take (suc n) (suc m) (x ∷ xs) h = ap (λ l. x ∷ l) (take-take n m xs (omega arith))

take-nil : (k : ℕ) → ◌≡◌ {A = List ℕ} [] (take k [])
take-nil zero = refl
take-nil (suc k) = refl

drop-nil : (k : ℕ) → ◌≡◌ {A = List ℕ} (drop k []) []
drop-nil zero = refl
drop-nil (suc k) = refl

drop-take : (o m : ℕ) (xs : List ℕ) → drop o (take m xs) ≡ take (m - o) (drop o xs)
drop-take zero m xs = ap (λ k. take k xs) (omega arith)
drop-take (suc o) zero xs = ap (λ k. take k (drop (suc o) xs)) {x = 0} {y = 0 - suc o} (omega arith)
drop-take (suc o) (suc m) [] = take-nil (suc m - suc o)
drop-take (suc o) (suc m) (x ∷ xs) =
    drop-take o m xs ∙ ap (λ k. take k (drop o xs)) {x = m - o} {y = suc m - suc o} (omega arith)

drop-drop : (a b : ℕ) (xs : List ℕ) → drop a (drop b xs) ≡ drop (b + a) xs
drop-drop a zero xs = ap (λ k. drop k xs) {x = a} {y = 0 + a} (omega arith)
drop-drop a (suc b) [] = drop-nil a ∙ sym (drop-nil (suc b + a))
drop-drop a (suc b) (x ∷ xs) =
    drop-drop a b xs ∙ ap (λ k. drop k (x ∷ xs)) {x = suc (b + a)} {y = suc b + a} (omega arith)

-- A range of the sectors from `front` on, as a range of the whole content.
cut-range :
    (content : List ℕ) (front ofs count size : ℕ)
    → ofs + count ≤ size
    → front + ofs + count ≤ length content
    → cut ofs count (take size (drop front content)) ≡ ok (take count (drop (front + ofs) content))
unfolding slice
cut-range content front ofs count size inside there =
    let bytes = take size (drop front content) in
    let long : ofs + count ≤ length bytes =
      omega (arith, length-take size (drop front content), length-drop front content) in
    let range : take count (drop ofs bytes) ≡ take count (drop (front + ofs) content) =
      ap (take count) (drop-take ofs size (drop front content))
      ∙ take-take count (size - ofs) (drop ofs (drop front content)) (omega arith)
      ∙ ap (take count) (drop-drop ofs front content) in
    elim (Bool-cases (ofs == 0)) [
      | inl e ↦
          (let zero_ofs : 0 ≡ ofs = sym ((==_iff ofs 0).0 e) in
            if_true (ofs == 0) (ok (resize count bytes)) _ e
            ∙ ap ok (
                take-front count bytes (replicate count 0) (omega arith)
                ∙ ap (λ k. take count (drop k bytes)) zero_ofs
                ∙ range))
      | inr e ↦
          if_false (ofs == 0) (ok (resize count bytes)) _ e
          ∙ ap (λ o. or_fail out_of_bounds o ok)
              (slice-some ofs (ofs + count) bytes (omega arith) long)
          ∙ ap (λ k. ok (take k (drop ofs bytes))) {x = ofs + count - ofs} {y = count} (omega arith)
          ∙ ap ok range
    ]

module _ (device : Device) (f : Fat) (ent : Dirent) (content : List ℕ) where
  -- The device has the content of the file in the sectors behind each other from its first cluster
  -- on. Nothing is assumed of a read of no sectors, which `IDE::read` refuses.
  abbrev pub Contiguous : Type 0
  Contiguous =
      (sector count : ℕ)
      → 0 < count
      → (sector + count) * 512 < ent.size + 512
      → device (u32 (cl_to_sector f (ent.block) + sector)) count
        ≡ some (take (count * 512) (drop (sector * 512) content))

  -- For a file whose content lies in one piece on a device with sectors of 512 bytes, `read` of at
  -- least one byte, from a place inside the file on, gives the part that is asked for, as much of it
  -- as lies in the file. The file is smaller than 2 ^ 31 bytes, the content has at least its size,
  -- and the end of the part is below 2 ^ 64.
  pub read-content :
      (pos n : ℕ)
      → f.sector_size ≡ 512
      → Contiguous
      → ent.size ≤ length content
      → ent.size < 2 ^ 31
      → pos + n < 2 ^ 64
      → 0 < n
      → pos < ent.size
      → read device f 512 ent pos n
        ≡ ok (
            take
              (min (ent.size) (pos + n) - min (ent.size) pos)
              (drop (min (ent.size) pos) content))
  unfolding read roundup
  read-content pos n size contiguous whole small end some_bytes in_file =
      let st = min (ent.size) pos in
      let en = min (ent.size) (pos + n) in
      let front = st / 512 in
      let sectors = (en + 511) / 512 - front in
      let begin = u32 (min (ent.size) pos) in
      let past = u32 (min (ent.size) (u64 (pos + n))) in
      let count = u32 (past + 2 ^ 32 - begin) in
      let nsect = u32 (roundup past 512 / 512 + 2 ^ 32 - begin / 512) in
      ap (λ size. read_by device f size 512 ent pos n) size
      ∙ if_false (n == 0) (failed io_error) _ (==_ne n 0 (λ e. absurd (omega arith)))
      ∙ ap
          (λ s.
            or_fail io_error (device (u32 (cl_to_sector f (ent.block) + s)) nsect)
              (cut (begin % 512) count))
          {x = begin / 512} {y = front} (omega arith)
      ∙ ap
          (λ k.
            or_fail io_error (device (u32 (cl_to_sector f (ent.block) + front)) k)
              (cut (begin % 512) count))
          {x = nsect} {y = sectors} (omega arith)
      ∙ ap (λ o. or_fail io_error o (cut (begin % 512) count))
          (contiguous front sectors (omega arith) (omega arith))
      ∙ ap (λ o. cut o count (take (sectors * 512) (drop (front * 512) content))) {x = begin % 512}
          {y = st % 512} (omega arith)
      ∙ ap (λ c. cut (st % 512) c (take (sectors * 512) (drop (front * 512) content))) {x = count}
          {y = en - st} (omega arith)
      ∙ cut-range content (front * 512) (st % 512) (en - st) (sectors * 512) (omega arith)
          (omega arith)
      ∙ ap (λ k. ok (take (en - st) (drop k content))) {x = front * 512 + st % 512} {y = st}
          (omega arith)
