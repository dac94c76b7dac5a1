-- ===== src/Services/Filesystem/Paths.antt =====
-- Paths in a file system of honeytrap/services/filesystem.
use dynamic_labyrinth.Base.{ℕ, ◌≡◌, Bool, true, List, [], ◌∷◌, All, Outcome, ok, refl}
use dynamic_labyrinth.Base.Text.{codes, split_at}
use dynamic_labyrinth.Services.Filesystem.{
  FilePath, Htfs, clean_onto, reverse_onto, rel, real_path, change_dir,
}
use dynamic_labyrinth.Services.Filesystem.Inside.{
  IsName, IsSound, real_path-IsInside, change_dir-real_path,
}

-- The root /ht/ftp, and the directory /pub in it.
abbrev sandbox : Htfs
sandbox = record {
  root = record { rooted = true; parts = codes "ht" ∷ codes "ftp" ∷ [] };
  cwd = record { rooted = true; parts = codes "pub" ∷ [] };
}

sandbox-IsSound : IsSound sandbox
sandbox-IsSound = (((refl, refl), ((refl, refl), tt)), refl)

escape :
    real_path sandbox (codes "../../.././etc//passwd")
    ≡ record { rooted = true; parts = codes "ht" ∷ codes "ftp" ∷ codes "etc" ∷ codes "passwd" ∷ [] }
unfolding real_path split_at clean_onto reverse_onto
escape = refl

real_path-IsInside_example :
    (names : List (List ℕ)) × All IsName names
    × (real_path sandbox (codes "../..")
        ≡ record { rooted = true; parts = codes "ht" ∷ codes "ftp" ∷ names })
real_path-IsInside_example = real_path-IsInside sandbox (codes "../..") sandbox-IsSound

-- Every path is a directory.
abbrev everywhere : FilePath → Outcome (List ℕ) Bool
everywhere p = ok true

abbrev entered : Htfs
entered = record sandbox { cwd = record { rooted = true; parts = codes "etc" ∷ [] } }

entered_run : change_dir everywhere sandbox (codes "/../etc") ≡ ok entered
unfolding change_dir real_path split_at clean_onto reverse_onto rel
entered_run = refl

change_dir-real_path_example :
    IsSound entered
    × (entered.root ≡ sandbox.root)
    × (real_path entered [] ≡ real_path sandbox (codes "/../etc"))
change_dir-real_path_example =
    change_dir-real_path everywhere sandbox entered (codes "/../etc") sandbox-IsSound entered_run
