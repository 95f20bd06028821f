-- ===== src/Files/Paths.antt =====
-- Putting paths together and taking them apart: `fs_combine`, `fs_getName` and `fs_getDir`.
use craft_osos.Base.{
  ℕ, suc, ◌≡◌, ◌≢◌, Bool, true, false, none, some, [], ◌∷◌, ◌++◌, append_assoc, ◌==◌, ==_ne,
  if◌then◌else◌, length, length-append, take, drop, arith, refl, sym, ap, ◌∙◌,
}
use craft_osos.Lua.{Text}
use craft_osos.Os.{c_string}
use craft_osos.Files.{
  slash, backslash, strrchr, behind, basename, no_lead, cut, dirname, last_of, drop_last, base_of,
  combine,
}

-- A text without a character.
abbrev pub Free : ℕ → Text → Type 0
Free c [] = Unit {0}
Free c (x ∷ xs) = (x ≢ c) × Free c xs

strrchr-Free : (c : ℕ) (t : Text) → Free c t → strrchr c t ≡ none
unfolding strrchr
strrchr-Free c [] h = refl
strrchr-Free c (x ∷ xs) (ne, h) = rw (strrchr-Free c xs h, ==_ne x c ne)

strrchr-last : (c : ℕ) (p n : Text) → Free c n → strrchr c (p ++ (c ∷ n)) ≡ some (length p)
unfolding strrchr
strrchr-last c [] n h = rw (strrchr-Free c n h) (ground arith)
strrchr-last c (x ∷ p) n h = rw (strrchr-last c p n h)

c_string-Free : (t : Text) → Free 0 t → c_string t ≡ t
unfolding c_string
c_string-Free [] h = refl
c_string-Free (x ∷ xs) (ne, h) = rw (==_ne x 0 ne) (ap (λ l. x ∷ l) (c_string-Free xs h))

Free-append : (c : ℕ) (s t : Text) → Free c s → Free c t → Free c (s ++ t)
Free-append c [] t h k = k
Free-append c (x ∷ s) t (ne, h) k = (ne, Free-append c s t h k)

last_of-append : (c d : ℕ) (s : Text) → last_of c (s ++ (d ∷ [])) ≡ d
last_of-append c d [] = refl
last_of-append c d (x ∷ s) = last_of-append x d s

take-length : (s t : Text) → take (length s) (s ++ t) ≡ s
take-length [] t = refl
take-length (x ∷ s) t = ap (λ l. x ∷ l) (take-length s t)

drop-length : (s : Text) (c : ℕ) (t : Text) → drop (suc (length s)) (s ++ (c ∷ t)) ≡ t
drop-length [] c t = refl
drop-length (x ∷ s) c t = drop-length s c t

drop_last-append : (s : Text) (c : ℕ) → drop_last (s ++ (c ∷ [])) ≡ some s
drop_last-append [] c = refl
drop_last-append (x ∷ s) c =
    ap (λ n. some (take n (x ∷ (s ++ (c ∷ []))))) {x = length (s ++ (c ∷ []))} {y = length (x ∷ s)}
      (omega (arith, length-append s (c ∷ [])))
    ∙ ap some (take-length (x ∷ s) (c ∷ []))

-- A path that neither starts nor ends with a slash, and that C can hold.
abbrev pub Relative : ℕ → Text → Type 0
Relative c cs = (c ≢ slash) × (last_of c cs ≢ slash) × Free 0 (c ∷ cs)

-- A path with a slash in front of it and behind it, or not.
abbrev pub lead : Bool → Text → Text
lead true t = slash ∷ t
lead false t = t

abbrev pub trail : Bool → Text → Text
trail true t = t ++ (slash ∷ [])
trail false t = t

one_slash : Free 0 (slash ∷ [])
one_slash = (ground arith, tt)

trail-Free : (b : Bool) (t : Text) → Free 0 t → Free 0 (trail b t)
trail-Free true t h = Free-append 0 t (slash ∷ []) h one_slash
trail-Free false t h = h

-- A path with these slashes, by its first character.
abbrev Shape : Bool → Bool → ℕ → Text → ℕ → Text → Type 0
Shape a b c cs x xs =
    (lead a (trail b (c ∷ cs)) ≡ x ∷ xs)
    × (no_lead (x ∷ xs) ≡ trail b (c ∷ cs))
    × ((last_of x xs == slash) ≡ b)

no_lead-same : (c : ℕ) (cs : Text) → c ≢ slash → no_lead (c ∷ cs) ≡ c ∷ cs
no_lead-same c cs ne = rw (==_ne c slash ne)

shape :
    (a b : Bool) (c : ℕ) (cs : Text) → Relative c cs → (x : ℕ) × (xs : Text) × Shape a b c cs x xs
shape true true c cs (first, last, free) = (
  slash,
  (c ∷ cs) ++ (slash ∷ []),
  (refl, refl, ap (λ k. k == slash) (last_of-append slash slash (c ∷ cs))),
)
shape true false c cs (first, last, free) =
    (slash, c ∷ cs, (refl, refl, ==_ne (last_of c cs) slash last))
shape false true c cs (first, last, free) = (
  c,
  cs ++ (slash ∷ []),
  (
    refl,
    no_lead-same c (cs ++ (slash ∷ [])) first,
    ap (λ k. k == slash) (last_of-append c slash cs),
  ),
)
shape false false c cs (first, last, free) =
    (c, cs, (refl, no_lead-same c cs first, ==_ne (last_of c cs) slash last))

base-Shape :
    (a b : Bool) (c : ℕ) (cs : Text) (x : ℕ) (xs : Text)
    → Relative c cs
    → Shape a b c cs x xs
    → base_of x xs ≡ (c ∷ cs) ++ (slash ∷ [])
base-Shape a b c cs x xs (first, last, free) (_, inner, end) =
    let copied : c_string (no_lead (x ∷ xs)) ≡ trail b (c ∷ cs) =
      ap c_string inner ∙ c_string-Free (trail b (c ∷ cs)) (trail-Free b (c ∷ cs) free) in
    ap (λ k. if k then c_string (no_lead (x ∷ xs)) else c_string (no_lead (x ∷ xs)) ++ (slash ∷ []))
      end
    ∙ ap (λ l. if b then l else l ++ (slash ∷ [])) copied
    ∙ both b (c ∷ cs)
  where
    both :
        (b : Bool) (t : Text)
        → (if b then trail b t else trail b t ++ (slash ∷ [])) ≡ t ++ (slash ∷ [])
    both true t = refl
    both false t = refl

end-Shape :
    (a b : Bool) (c : ℕ) (cs : Text) (x : ℕ) (xs base : Text)
    → Relative c cs
    → Shape a b c cs x xs
    → (if last_of x xs == slash
        then drop_last (base ++ c_string (no_lead (x ∷ xs)))
        else some (base ++ c_string (no_lead (x ∷ xs))))
      ≡ some (base ++ (c ∷ cs))
end-Shape a b c cs x xs base (first, last, free) (_, inner, end) =
    let copied : c_string (no_lead (x ∷ xs)) ≡ trail b (c ∷ cs) =
      ap c_string inner ∙ c_string-Free (trail b (c ∷ cs)) (trail-Free b (c ∷ cs) free) in
    ap
      (λ k.
        if k
        then drop_last (base ++ c_string (no_lead (x ∷ xs)))
        else some (base ++ c_string (no_lead (x ∷ xs))))
      end
    ∙ ap (λ l. if b then drop_last (base ++ l) else some (base ++ l)) copied
    ∙ both b (c ∷ cs)
  where
    both :
        (b : Bool) (t : Text)
        → (if b then drop_last (base ++ trail b t) else some (base ++ trail b t)) ≡ some (base ++ t)
    both true t =
        ap drop_last (sym (append_assoc base t (slash ∷ []))) ∙ drop_last-append (base ++ t) slash
    both false t = refl

combine-cons :
    (x y : ℕ) (xs ys : Text)
    → combine (x ∷ xs) (y ∷ ys) ≡ (
        if last_of y ys == slash
        then drop_last (base_of x xs ++ c_string (no_lead (y ∷ ys)))
        else some (base_of x xs ++ c_string (no_lead (y ∷ ys))))
unfolding combine
combine-cons x y xs ys = refl

-- `fs.combine` of two paths is the one, one slash, and the other, whether or not they have a slash
-- in front or at the end. Without those the paths are not empty and neither start nor end with a
-- slash; they have no NUL.
pub combine-slashes :
    (a b a' b' : Bool) (c d : ℕ) (cs ds : Text)
    → Relative c cs
    → Relative d ds
    → combine (lead a (trail b (c ∷ cs))) (lead a' (trail b' (d ∷ ds)))
      ≡ some ((c ∷ cs) ++ (slash ∷ (d ∷ ds)))
combine-slashes a b a' b' c d cs ds base local =
    let (x, xs, shape_x) = shape a b c cs base in
    let (y, ys, shape_y) = shape a' b' d ds local in
    ap (λ l. combine l (lead a' (trail b' (d ∷ ds)))) shape_x.0
    ∙ ap (combine (x ∷ xs)) shape_y.0
    ∙ combine-cons x y xs ys
    ∙ end-Shape a' b' d ds y ys (base_of x xs) local shape_y
    ∙ ap (λ l. some (l ++ (d ∷ ds))) (base-Shape a b c cs x xs base shape_x)
    ∙ ap some (append_assoc (c ∷ cs) (slash ∷ []) (d ∷ ds))

basename-last : (p n : Text) → Free slash n → basename (p ++ (slash ∷ n)) ≡ n
unfolding basename
basename-last p n free =
    ap (behind (p ++ (slash ∷ n))) (strrchr-last slash p n free) ∙ drop-length p slash n

-- `fs.getName` and `fs.getDir` take apart what `fs.combine` puts together from a directory and a
-- name without a slash, whether or not there is a slash in front. Both are not empty and have no
-- NUL, and the directory neither starts nor ends with a slash.
pub combine-parts :
    (a : Bool) (c d : ℕ) (cs ds : Text)
    → Relative c cs
    → Relative d ds
    → Free slash (d ∷ ds)
    → (path : Text) × (combine (c ∷ cs) (d ∷ ds) ≡ some path)
      × (basename (lead a path) ≡ d ∷ ds)
      × (dirname (lead a path) ≡ c ∷ cs)
unfolding dirname
combine-parts a c d cs ds base local free =
    let path = (c ∷ cs) ++ (slash ∷ (d ∷ ds)) in
    let at : strrchr slash path ≡ some (length (c ∷ cs)) =
      strrchr-last slash (c ∷ cs) (d ∷ ds) free in
    (
      path,
      combine-slashes false false false false c d cs ds base local,
      name_of a,
      ap (λ p. cut p (strrchr slash p) (strrchr backslash p)) (plain a)
          ∙ ap (λ o. cut path o (strrchr backslash path)) at
          ∙ take-length (c ∷ cs) (slash ∷ (d ∷ ds)),
    )
  where
    plain :
        (a : Bool)
        → no_lead (lead a ((c ∷ cs) ++ (slash ∷ (d ∷ ds)))) ≡ (c ∷ cs) ++ (slash ∷ (d ∷ ds))
    plain true = refl
    plain false = no_lead-same c (cs ++ (slash ∷ (d ∷ ds))) base.0

    name_of : (a : Bool) → basename (lead a ((c ∷ cs) ++ (slash ∷ (d ∷ ds)))) ≡ d ∷ ds
    name_of true = basename-last (slash ∷ c ∷ cs) (d ∷ ds) free
    name_of false = basename-last (c ∷ cs) (d ∷ ds) free
