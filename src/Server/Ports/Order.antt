-- ===== src/Server/Ports/Order.antt =====
-- The candidates of `findService` do not depend on the order in which Go walks the map.
use dynamic_labyrinth.Base.{
  ◌≡◌, ◌∙◌, Bool, true, false, List, [], ◌∷◌, ◌++◌, All, if◌then◌else◌, refl, Bool-cases, inl, inr,
  sym, ap,
}
use mathlib.Core.Path.{subst}
use mathlib.Core.List.{Permᴰ}
use dynamic_labyrinth.Server.Addr.{
  Addr, compare_addr, compare_addr_comm, compare_addr_join, IsSpecific,
}
use dynamic_labyrinth.Server.Ports.{Table, candidates}

module _ {S : Type 0} where
  -- No key of the table matches that one.
  abbrev pub IsApart : Addr → Table S → Type 0
  IsApart a t = All (λ e. compare_addr e.0 a ≡ false) t

  -- No two keys match.
  abbrev pub IsDistinct : Table S → Type 0
  IsDistinct [] = Unit {0}
  IsDistinct (e ∷ t) = IsApart e.0 t × IsDistinct t

  All-perm {κ} : (P : Addr × List S → Type κ) (t u : Table S) → Permᴰ t u → All P t → All P u
  All-perm P t u Permᴰ.nil a = tt
  All-perm P (x ∷ t) (y ∷ u) (Permᴰ.cons e p) a = (subst P e a.0, All-perm P t u p a.1)
  All-perm P (x ∷ y ∷ t) (y' ∷ x' ∷ _) (Permᴰ.swap e f) a =
      (subst P f a.1.0, (subst P e a.0, a.1.1))
  All-perm P t v (Permᴰ.trans {l₂ = u} p q) a = All-perm P u v q (All-perm P t u p a)

  IsDistinct-perm : (t u : Table S) → Permᴰ t u → IsDistinct t → IsDistinct u
  IsDistinct-perm t u Permᴰ.nil d = tt
  IsDistinct-perm (x ∷ t) (y ∷ u) (Permᴰ.cons e p) d =
      (subst (λ z. IsApart z.0 u) e (All-perm _ t u p d.0), IsDistinct-perm t u p d.1)
  IsDistinct-perm (x ∷ y ∷ t) (y' ∷ x' ∷ _) (Permᴰ.swap e f) d =
      subst (λ z. IsDistinct (y' ∷ z ∷ t)) e
        (subst (λ z. IsDistinct (z ∷ x ∷ t)) f
          ((compare_addr_comm x.0 y.0 ∙ d.0.0, d.1.0), (d.0.1, d.1.1)))
  IsDistinct-perm t v (Permᴰ.trans {l₂ = u} p q) d = IsDistinct-perm u v q (IsDistinct-perm t u p d)

  -- Where no two keys match, the candidates for an address with an IP are the same in every order of
  -- the table.
  pub candidates-order :
      (l : Addr) (sc : List S) (t u : Table S)
      → IsSpecific l
      → IsDistinct t
      → Permᴰ t u
      → candidates l sc t ≡ candidates l sc u
  unfolding candidates
  candidates-order l sc t u s d Permᴰ.nil = refl
  candidates-order l sc (x ∷ t) (y ∷ u) s d (Permᴰ.cons e p) =
      candidates-order l (if compare_addr x.0 l then x.1 else sc) t u s d.1 p
      ∙ ap (λ (z : Addr × List S). candidates l (if compare_addr z.0 l then z.1 else sc) u) e
  candidates-order l sc (x ∷ y ∷ t) (y' ∷ x' ∷ _) s d (Permᴰ.swap e f) =
      subst (λ z. candidates l sc (x ∷ y ∷ t) ≡ candidates l sc (y' ∷ z ∷ t)) e
        (subst (λ z. candidates l sc (x ∷ y ∷ t) ≡ candidates l sc (z ∷ x ∷ t)) f
          (elim (Bool-cases (compare_addr x.0 l)) [
            | inl h ↦ elim (Bool-cases (compare_addr y.0 l)) [
              | inl k ↦ absurd (cc (compare_addr_join y.0 x.0 l s k h, d.0.0))
              | inr k ↦ rw (h, k) refl
            ]
            | inr h ↦ rw h refl
          ]))
  candidates-order l sc t v s d (Permᴰ.trans {l₂ = u} p q) =
      candidates-order l sc t u s d p ∙ candidates-order l sc u v s (IsDistinct-perm t u p d) q

  candidates-apart :
      (l k : Addr) (sc : List S) (t : Table S)
      → IsSpecific l
      → compare_addr k l ≡ true
      → IsApart k t
      → candidates l sc t ≡ sc
  unfolding candidates
  candidates-apart l k sc [] s h a = refl
  candidates-apart l k sc (x ∷ t) s h a = elim (Bool-cases (compare_addr x.0 l)) [
    | inl m ↦ absurd (cc (compare_addr_join x.0 k l s m h, a.0))
    | inr m ↦ rw m (candidates-apart l k sc t s h a.1)
  ]

  candidates-at :
      (l k : Addr) (ss sc : List S) (front back : Table S)
      → IsSpecific l
      → compare_addr k l ≡ true
      → IsDistinct (front ++ ((k, ss) ∷ back))
      → candidates l sc (front ++ ((k, ss) ∷ back)) ≡ ss
  unfolding candidates
  candidates-at l k ss sc [] back s h d =
      ap (λ (b : Bool). candidates l (if b then ss else sc) back) h
      ∙ candidates-apart l k ss back s h d.0
  candidates-at l k ss sc (x ∷ front) back s h d =
      candidates-at l k ss (if compare_addr x.0 l then x.1 else sc) front back s h d.1

  -- Where no two keys match, the candidates for an address with an IP are the services of the
  -- entry whose key matches it, in whatever order the map is walked.
  pub candidates_found :
      (l k : Addr) (ss : List S) (front back u : Table S)
      → IsSpecific l
      → compare_addr k l ≡ true
      → IsDistinct (front ++ ((k, ss) ∷ back))
      → Permᴰ (front ++ ((k, ss) ∷ back)) u
      → candidates l [] u ≡ ss
  candidates_found l k ss front back u s h d p =
      sym (candidates-order l [] (front ++ ((k, ss) ∷ back)) u s d p)
      ∙ candidates-at l k ss [] front back s h d
