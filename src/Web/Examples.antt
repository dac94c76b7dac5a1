-- ===== src/Web/Examples.antt =====
-- A limit of two keeps three items.
use dynamic_labyrinth.Base.{ℕ, ◌≡◌, [], ◌∷◌, ltb, arith, refl}
use dynamic_labyrinth.Web.{new_limited, append, append_all, range, visited}
use dynamic_labyrinth.Web.Newest.{append_all-new_limited}

append_all-new_limited_example :
    append_all {A = ℕ} (1 ∷ 2 ∷ 3 ∷ 4 ∷ 5 ∷ []) (new_limited 2)
    ≡ record { array = 3 ∷ 4 ∷ 5 ∷ []; limit = 2 }
append_all-new_limited_example = append_all-new_limited 2 (1 ∷ 2 ∷ 3 ∷ 4 ∷ 5 ∷ []) (omega arith)

-- `Range` stops behind the first item that the function refuses.
range-run : range (λ v. ltb v 4) (append_all {A = ℕ} (3 ∷ 4 ∷ 5 ∷ []) (new_limited 2)) ≡ 3 ∷ 4 ∷ []
unfolding append append_all visited
range-run = refl
