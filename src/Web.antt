-- ===== src/Web.antt =====
-- honeytrap/web/safe_array.go: the events that the web interface keeps. The lock makes each call one step; the
-- JSON text of the array is a library's.
pub mod Newest
mod Examples
use dynamic_labyrinth.Base.{ℕ, Bool, List, [], ◌∷◌, ◌++◌, length, drop, ltb, ◌==◌, if◌then◌else◌}

pub record SafeArray {ℓ} (A : Type ℓ) : Type ℓ where
  pub array : List A
  pub limit : ℕ

abbrev pub new_limited {ℓ} : {A : Type ℓ} → ℕ → SafeArray A
new_limited limit = record { array = []; limit = limit }

-- `Append`: above the limit the oldest item goes first.
unfoldable pub append {ℓ} : {A : Type ℓ} → A → SafeArray A → SafeArray A
append v sa =
    if sa.limit == 0
    then record sa { array = sa.array ++ (v ∷ []) }
    else (if ltb sa.limit (length sa.array)
        then record sa { array = drop 1 sa.array ++ (v ∷ []) }
        else record sa { array = sa.array ++ (v ∷ []) })

-- One `Append` after the other.
unfoldable pub append_all {ℓ} : {A : Type ℓ} → List A → SafeArray A → SafeArray A
append_all [] sa = sa
append_all (v ∷ vs) sa = append_all vs (append v sa)

-- The items that `Range` calls the function on.
unfoldable pub visited {ℓ} : {A : Type ℓ} → (A → Bool) → List A → List A
visited fn [] = []
visited fn (v ∷ vs) = let rest = visited fn vs in if fn v then v ∷ rest else v ∷ []

abbrev pub range {ℓ} : {A : Type ℓ} → (A → Bool) → SafeArray A → List A
range fn sa = visited fn sa.array
