-- ===== src/Services/Filesystem/Inside.antt =====
-- A path of honeytrap/services/filesystem never leads out of the root, and `ChangeDir` keeps to that.
use dynamic_labyrinth.Base.{
  ℕ, ◌≡◌, ◌||◌, Bool, true, false, List, [], ◌∷◌, ◌++◌, All, Outcome, ok, err, panic, refl, sym, ap,
  ◌∙◌, Bool-cases, inl, inr, append_nil, if◌then◌else◌,
}
use dynamic_labyrinth.Base.Text.{codes, same_text, same_text_refl, split_at}
use dynamic_labyrinth.Services.Filesystem.{
  FilePath, Htfs, is_rooted, elements, go_up, keep, clean_onto, reverse_onto, clean, join, rel,
  real_path, enter, change_dir,
}

-- An element that names something: not empty, no dot and not two dots.
abbrev pub IsName : List ℕ → Type 0
IsName p =
    ((same_text p [] || same_text p (codes ".")) ≡ false) × (same_text p (codes "..") ≡ false)

-- The root is made of names, and the working directory begins with the separator.
abbrev pub IsSound : Htfs → Type 0
IsSound f = All IsName f.root.parts × (f.cwd.rooted ≡ true)

reverse_onto-twice :
    (xs ys zs : List (List ℕ)) → reverse_onto (reverse_onto xs ys) zs ≡ reverse_onto ys (xs ++ zs)
unfolding reverse_onto
reverse_onto-twice [] ys zs = refl
reverse_onto-twice (x ∷ xs) ys zs = reverse_onto-twice xs (x ∷ ys) zs

reverse_onto-All :
    (xs ys : List (List ℕ)) → All IsName xs → All IsName ys → All IsName (reverse_onto xs ys)
unfolding reverse_onto
reverse_onto-All [] ys a b = b
reverse_onto-All (x ∷ xs) ys a b = reverse_onto-All xs (x ∷ ys) a.1 (a.0, b)

clean_onto-append :
    (rooted : Bool) (kept xs ys : List (List ℕ))
    → clean_onto rooted kept (xs ++ ys) ≡ clean_onto rooted (clean_onto rooted kept xs) ys
unfolding clean_onto
clean_onto-append rooted kept [] ys = refl
clean_onto-append rooted kept (x ∷ xs) ys = clean_onto-append rooted (keep rooted x kept) xs ys

clean_onto-names :
    (rooted : Bool) (xs kept : List (List ℕ))
    → All IsName xs
    → clean_onto rooted kept xs ≡ reverse_onto xs kept
unfolding clean_onto reverse_onto
clean_onto-names rooted [] kept a = refl
clean_onto-names rooted (x ∷ xs) kept a =
    let (d, u) = a.0 in
    let k : keep rooted x kept ≡ x ∷ kept = rw (d, u) refl in
    rw k (clean_onto-names rooted xs (x ∷ kept) a.1)

go_up-All : (kept : List (List ℕ)) → All IsName kept → All IsName (go_up true kept)
go_up-All [] a = tt
go_up-All (p ∷ kept) a = rw a.0.1 a.1

keep-All : (p : List ℕ) (kept : List (List ℕ)) → All IsName kept → All IsName (keep true p kept)
keep-All p kept a = elim (Bool-cases (same_text p [] || same_text p (codes "."))) [
  | inl e ↦ rw e a
  | inr e ↦ elim (Bool-cases (same_text p (codes ".."))) [
    | inl u ↦ rw (e, u) (go_up-All kept a)
    | inr u ↦ rw (e, u) ((e, u), a)
  ]
]

clean_onto-All : (xs kept : List (List ℕ)) → All IsName kept → All IsName (clean_onto true kept xs)
unfolding clean_onto
clean_onto-All [] kept a = a
clean_onto-All (x ∷ xs) kept a = clean_onto-All xs (keep true x kept) (keep-All x kept a)

clean-All : (xs : List (List ℕ)) → All IsName (clean true xs)
clean-All xs = reverse_onto-All (clean_onto true [] xs) [] (clean_onto-All xs [] tt) tt

clean-names :
    (rooted : Bool) (xs ys : List (List ℕ))
    → All IsName xs
    → All IsName ys
    → clean rooted (xs ++ ys) ≡ xs ++ ys
unfolding reverse_onto
clean-names rooted xs ys a b =
    ap (λ l. reverse_onto l [])
      (clean_onto-append rooted [] xs ys
        ∙ ap (λ l. clean_onto rooted l ys) (clean_onto-names rooted xs [] a)
        ∙ clean_onto-names rooted ys (reverse_onto xs []) b)
    ∙ reverse_onto-twice ys (reverse_onto xs []) []
    ∙ reverse_onto-twice xs [] (ys ++ [])
    ∙ ap (λ l. xs ++ l) (append_nil ys)

-- What `RealPath` puts behind the root.
abbrev behind : Htfs → List ℕ → List (List ℕ)
behind f path =
    if is_rooted path
    then clean true (elements path)
    else clean f.cwd.rooted (f.cwd.parts ++ elements path)

behind-All : (f : Htfs) (path : List ℕ) → IsSound f → All IsName (behind f path)
behind-All f path (a, r) = elim (Bool-cases (is_rooted path)) [
  | inl e ↦ rw e (clean-All (elements path))
  | inr e ↦ rw (e, r) (clean-All (f.cwd.parts ++ elements path))
]

real_path-join : (f : Htfs) (path : List ℕ) → real_path f path ≡ join f.root (behind f path)
unfolding real_path
real_path-join f path = elim (Bool-cases (is_rooted path)) [ inl e ↦ rw e refl | inr e ↦ rw e refl ]

real_path-behind :
    (f : Htfs) (path : List ℕ)
    → IsSound f
    → real_path f path ≡ record f.root { parts = f.root.parts ++ behind f path }
real_path-behind f path s =
    real_path-join f path
    ∙ ap (λ l. record f.root { parts = l })
        (clean-names f.root.rooted f.root.parts (behind f path) s.0 (behind-All f path s))

-- In a sound file system, whatever the path, `RealPath` is the root followed by names: none of its
-- elements behind the root is empty, a dot or two dots.
pub real_path-IsInside :
    (f : Htfs) (path : List ℕ)
    → IsSound f
    → (names : List (List ℕ)) × All IsName names
      × (real_path f path ≡ record f.root { parts = f.root.parts ++ names })
real_path-IsInside f path s = (behind f path, behind-All f path s, real_path-behind f path s)

rel-append : (base names : List (List ℕ)) → rel base (base ++ names) ≡ names
unfolding rel
rel-append [] names = refl
rel-append (b ∷ base) names = rw (same_text_refl b) (rel-append base names)

clean_names-eq : (xs : List (List ℕ)) → All IsName xs → clean true xs ≡ xs
clean_names-eq xs a =
    ap (clean true) (sym (append_nil xs)) ∙ clean-names true xs [] a tt ∙ append_nil xs

-- The file system after a `ChangeDir` that succeeds.
abbrev moved : Htfs → List ℕ → Htfs
moved f path = record f { cwd = record { rooted = true; parts = behind f path } }

enter-moved :
    (f : Htfs) (path : List ℕ)
    → IsSound f
    → enter (ok true) (real_path f path) f path ≡ ok (moved f path)
enter-moved f path s =
    ap (λ t. enter (ok true) t f path) (real_path-behind f path s)
    ∙ ap (λ l. ok (record f { cwd = record { rooted = true; parts = clean true l } }))
        (rel-append f.root.parts (behind f path))
    ∙ ap (λ l. ok (record f { cwd = record { rooted = true; parts = l } }))
        (clean_names-eq (behind f path) (behind-All f path s))

change_dir-moved :
    (r : Outcome (List ℕ) Bool) (f f' : Htfs) (path : List ℕ)
    → IsSound f
    → enter r (real_path f path) f path ≡ ok f'
    → f' ≡ moved f path
change_dir-moved (ok true) f f' path s q = cc (q, enter-moved f path s)
change_dir-moved (ok false) f f' path s q = absurd (cc q)
change_dir-moved (err e) f f' path s q = absurd (cc q)
change_dir-moved panic f f' path s q = absurd (cc q)

clean-trailing : (xs : List (List ℕ)) → clean true (xs ++ ([] ∷ [])) ≡ clean true xs
unfolding clean_onto
clean-trailing xs = ap (λ l. reverse_onto l []) (clean_onto-append true [] xs ([] ∷ []))

moved-real_path :
    (f : Htfs) (path : List ℕ) → IsSound f → real_path (moved f path) [] ≡ real_path f path
unfolding split_at
moved-real_path f path s =
    real_path-behind (moved f path) [] (s.0, refl)
    ∙ ap (λ l. record f.root { parts = f.root.parts ++ l })
        (clean-trailing (behind f path) ∙ clean_names-eq (behind f path) (behind-All f path s))
    ∙ sym (real_path-behind f path s)

-- A `ChangeDir` that succeeds, whatever os.Lstat says, leaves the file system sound and its root as it was, and the
-- directory that it leads to is the one that `RealPath` gave for the path.
pub change_dir-real_path :
    (lstat : FilePath → Outcome (List ℕ) Bool) (f f' : Htfs) (path : List ℕ)
    → IsSound f
    → change_dir lstat f path ≡ ok f'
    → IsSound f' × (f'.root ≡ f.root) × (real_path f' [] ≡ real_path f path)
unfolding change_dir
change_dir-real_path lstat f f' path s q =
    let e = change_dir-moved (lstat (real_path f path)) f f' path s q in
    rw e ((s.0, refl), refl, moved-real_path f path s)
