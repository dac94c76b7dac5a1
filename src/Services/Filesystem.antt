-- ===== src/Services/Filesystem.antt =====
-- honeytrap/services/filesystem/htfs.go: the sandboxed file system of the services. A path is whether it begins with
-- the separator, and its elements; the functions of path/filepath are those for Unix.
pub mod Inside
mod Paths
use dynamic_labyrinth.Base.{
  ℕ, Bool, true, false, Option, none, some, List, [], ◌∷◌, ◌++◌, ◌==◌, ◌||◌, if◌then◌else◌, Outcome,
  ok, err, panic,
}
use dynamic_labyrinth.Base.Text.{codes, same_text, split_at}

pub record FilePath : Type 0 where
  pub rooted : Bool
  pub parts : List (List ℕ)

abbrev pub is_rooted : List ℕ → Bool
is_rooted [] = false
is_rooted (c ∷ text) = c == 47

abbrev pub elements : List ℕ → List (List ℕ)
elements text = split_at 47 text

-- filepath.Clean, on the elements already kept, the last first: an empty element and a dot are
-- dropped, and two dots take the last one away where there is one.
abbrev pub go_up : Bool → List (List ℕ) → List (List ℕ)
go_up true [] = []
go_up false [] = codes ".." ∷ []
go_up rooted (p ∷ kept) = if same_text p (codes "..") then codes ".." ∷ (p ∷ kept) else kept

abbrev pub keep : Bool → List ℕ → List (List ℕ) → List (List ℕ)
keep rooted p kept =
    if same_text p [] || same_text p (codes ".")
    then kept
    else (if same_text p (codes "..") then go_up rooted kept else p ∷ kept)

unfoldable pub clean_onto : Bool → List (List ℕ) → List (List ℕ) → List (List ℕ)
clean_onto rooted kept [] = kept
clean_onto rooted kept (p ∷ ps) = clean_onto rooted (keep rooted p kept) ps

unfoldable pub reverse_onto {ℓ} : {A : Type ℓ} → List A → List A → List A
reverse_onto [] ys = ys
reverse_onto (x ∷ xs) ys = reverse_onto xs (x ∷ ys)

abbrev pub clean : Bool → List (List ℕ) → List (List ℕ)
clean rooted ps = reverse_onto (clean_onto rooted [] ps) []

-- filepath.Join of a cleaned path and further elements.
abbrev pub join : FilePath → List (List ℕ) → FilePath
join p ps = record { rooted = p.rooted; parts = clean p.rooted (p.parts ++ ps) }

-- filepath.Rel of two paths that both begin with the separator.
unfoldable pub ups : List (List ℕ) → List (List ℕ)
ups [] = []
ups (p ∷ ps) = codes ".." ∷ ups ps

unfoldable pub rel : List (List ℕ) → List (List ℕ) → List (List ℕ)
rel [] target = target
rel base [] = ups base
rel (b ∷ base) (t ∷ target) =
    let rest = rel base target in if same_text b t then rest else ups (b ∷ base) ++ (t ∷ target)

pub record Htfs : Type 0 where
  pub root : FilePath
  pub cwd : FilePath

-- `RealPath`
unfoldable pub real_path : Htfs → List ℕ → FilePath
real_path f path =
    if is_rooted path
    then join f.root (clean true (elements path))
    else join f.root (join f.cwd (elements path)).parts

-- The errors of `ChangeDir`.
pub data Refusal : Type 0 where
  failed : List ℕ → Refusal
  not_directory : List ℕ → Refusal

-- `ChangeDir`, with what os.Lstat says of a path: an error, or whether it is a directory.
abbrev pub enter : Outcome (List ℕ) Bool → FilePath → Htfs → List ℕ → Outcome Refusal Htfs
enter (err e) target f path = err (failed e)
enter panic target f path = panic
enter (ok false) target f path = err (not_directory path)
enter (ok true) target f path = ok (record f {
  cwd = record { rooted = true; parts = clean true (rel f.root.parts target.parts) };
})

unfoldable pub change_dir :
    (FilePath → Outcome (List ℕ) Bool) → Htfs → List ℕ → Outcome Refusal Htfs
change_dir lstat f path = enter (lstat (real_path f path)) (real_path f path) f path
