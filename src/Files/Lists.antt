-- ===== src/Files/Lists.antt =====
-- The table that `fs_list` returns.
use craft_osos.Base.{
  ℕ, suc, ◌-◌, ◌≤◌, ◌≡◌, none, some, List, [], ◌∷◌, if◌then◌else◌, arith, refl, ap, ◌∙◌, Bool-cases,
  inl, inr,
}
use craft_osos.Lua.{Text, Api}
use craft_osos.Directory.{Dirent}
use craft_osos.Volume.{is_dir}
use craft_osos.Files.{left_out, list_loop, fs_list}

-- The names that are shown, and a table that numbers them.
abbrev pub shown : List Dirent → List Text
shown [] = []
shown (d ∷ ds) = if left_out d then shown ds else d.name ∷ shown ds

abbrev pub numbered : ℕ → List Text → List (ℕ × Text)
numbered k [] = []
numbered k (n ∷ ns) = (k, n) ∷ numbered (suc k) ns

list_loop-numbered :
    (i io : ℕ) (ds : List Dirent) → io ≤ i → list_loop i io ds ≡ numbered (i - io) (shown ds)
unfolding list_loop
list_loop-numbered i io [] h = refl
list_loop-numbered i io (d ∷ ds) h = elim (Bool-cases (left_out d)) [
  | inl out ↦ rw out (
      list_loop-numbered (suc i) (suc io) ds (omega arith)
      ∙ ap (λ k. numbered k (shown ds)) {x = suc i - suc io} {y = i - io} (omega arith))
  | inr shows ↦ rw shows (
      ap (λ l. (i - io, d.name) ∷ l)
        (list_loop-numbered (suc i) io ds (omega arith)
          ∙ ap (λ k. numbered k (shown ds)) {x = suc i - io} {y = suc (i - io)} (omega arith)))
]

-- `fs.list` of a directory numbers the names that are shown, in the order of the sort, without a
-- gap and from 0 on, however many entries are left out; of anything else it is an error.
pub fs_list-numbered :
    (api : Api) (stat_path : Text → Dirent) (sort : List Dirent → List Dirent)
    (entries : Dirent → List Dirent) (path : Text)
    → fs_list api stat_path entries sort path ≡ (
        if is_dir (stat_path path).entry_type
        then some (numbered 0 (shown (sort (entries (stat_path path)))))
        else none)
unfolding fs_list
fs_list-numbered api stat_path sort entries path =
    ap (λ l. if is_dir (stat_path path).entry_type then some l else none)
      (list_loop-numbered 0 0 (sort (entries (stat_path path))) (omega arith)
        ∙ ap (λ k. numbered k (shown (sort (entries (stat_path path))))) {x = 0 - 0} {y = 0} refl)
