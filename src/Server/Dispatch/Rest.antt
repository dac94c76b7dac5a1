-- ===== src/Server/Dispatch/Rest.antt =====
-- What the service that `findService` chooses can still read of the connection.
use dynamic_labyrinth.Base.{
  ◌≡◌, ◌≢◌, ◌∙◌, ℕ, Bool, true, false, Option, none, some, List, [], ◌∷◌, ◌++◌, ◌⊎◌, inl, inr, refl,
  ap, sym,
}
use mathlib.Core.Path.{subst}
use dynamic_labyrinth.Server.Addr.{Addr}
use dynamic_labyrinth.Server.Ports.{Table, candidates}
use dynamic_labyrinth.Server.Stream.{
  Conn, IsStream, Peeked, timeout_conn, timeout_conn-IsStream, peek, begin_peek, peeked_rest,
  peek_connection-IsStream,
}
use dynamic_labyrinth.Server.Dispatch.{
  Handed, Peek, Found, first_peek, peek_result, find_among, find_service, try_services, offer,
  accept,
}
use dynamic_labyrinth.Server.Dispatch.Choice.{try_services-peeked}

module _ (c : Conn) (rest : c.State → List ℕ) {S : Type 0}
    (can_handle : S → Option (List ℕ → Bool)) where
  -- What is left to read of a connection that is handed over.
  abbrev pub handed_rest : Handed c can_handle → List ℕ
  handed_rest (Handed.raw s) = rest s
  handed_rest (Handed.peeked p) = peeked_rest (timeout_conn c) rest p

  -- After the peek: a service that asks nothing gets the connection below the buffer.
  abbrev IsHanded : Peeked (timeout_conn c) → S → Handed c can_handle → Type 0
  IsHanded p s h =
      ((can_handle s ≡ none) × (h ≡ Handed.raw p.inner))
      ⊎ ((can_handle s ≢ none) × (h ≡ Handed.peeked p))

  accept-IsHanded :
      (p : Peeked (timeout_conn c)) (b : Bool) (x s : S) (h : Handed c can_handle)
      (next : Found c can_handle)
      → can_handle x ≢ none
      → (next ≡ inr (s, h) → IsHanded p s h)
      → accept c can_handle b x p next ≡ inr (s, h)
      → IsHanded p s h
  accept-IsHanded p true x s h next ne ih q =
      let e : x ≡ s = cc q in
      let g : h ≡ Handed.peeked p = cc q in inr (subst (λ y. can_handle y ≢ none) e ne, g)
  accept-IsHanded p false x s h next ne ih q = ih q

  offer-IsHanded :
      (p : Peeked (timeout_conn c)) (bytes : List ℕ) (o : Option (List ℕ → Bool)) (x s : S)
      (h : Handed c can_handle) (next : Peek c can_handle → Found c can_handle)
      → can_handle x ≡ o
      → (next (Peek.done p bytes) ≡ inr (s, h) → IsHanded p s h)
      → offer c can_handle o x (Peek.done p bytes) next ≡ inr (s, h)
      → IsHanded p s h
  offer-IsHanded p bytes none x s h next e ih q =
      let f : x ≡ s = cc q in
      let g : Handed.raw p.inner ≡ h = cc q in inl (subst (λ y. can_handle y ≡ none) f e, sym g)
  offer-IsHanded p bytes (some f) x s h next e ih q =
      accept-IsHanded p (f bytes) x s h (next (Peek.done p bytes)) (λ n. absurd (cc (n, e))) ih q

  try_services-IsHanded :
      (p : Peeked (timeout_conn c)) (bytes : List ℕ) (ss : List S) (s : S) (h : Handed c can_handle)
      → try_services c can_handle ss (Peek.done p bytes) ≡ inr (s, h)
      → IsHanded p s h
  unfolding try_services
  try_services-IsHanded p bytes [] s h q = absurd (cc q)
  try_services-IsHanded p bytes (x ∷ ss) s h q =
      offer-IsHanded p bytes (can_handle x) x s h (try_services c can_handle ss) refl
        (try_services-IsHanded p bytes ss s h) q

  -- The peek that `findService` makes.
  peek_result-rest :
      (conn : c.State) (p : Peeked (timeout_conn c)) (bytes : List ℕ)
      (r : (List ℕ × Option c.Error) × Peeked (timeout_conn c))
      → peek_result c can_handle r ≡ inr (p, bytes)
      → peeked_rest (timeout_conn c) rest r.1 ≡ rest conn
      → r.0.0 ++ rest r.1.inner ≡ rest conn
      → (peeked_rest (timeout_conn c) rest p ≡ rest conn) × (bytes ++ rest p.inner ≡ rest conn)
  peek_result-rest conn p bytes ((bs, some e), p') q g h = absurd (cc q)
  peek_result-rest conn p bytes ((bs, none), p') q g h =
      let e : p' ≡ p = cc q in
      let f : bs ≡ bytes = cc q in
      (
        subst (λ x. peeked_rest (timeout_conn c) rest x ≡ rest conn) e g,
        subst (λ (x : List ℕ). x ++ rest p.inner ≡ rest conn) f
            (subst (λ (x : Peeked (timeout_conn c)). bs ++ rest x.inner ≡ rest conn) e h),
      )

  first_peek-rest :
      (conn : c.State) (p : Peeked (timeout_conn c)) (bytes : List ℕ)
      → IsStream c rest
      → first_peek c can_handle (Peek.fresh conn) ≡ inr (p, bytes)
      → (peeked_rest (timeout_conn c) rest p ≡ rest conn) × (bytes ++ rest p.inner ≡ rest conn)
  first_peek-rest conn p bytes i q =
      let (keeps, takes) =
        (peek_connection-IsStream (timeout_conn c) rest (timeout_conn-IsStream c rest i)).1 1024
          (begin_peek (timeout_conn c) conn) in
      peek_result-rest conn p bytes (peek (timeout_conn c) 1024 (begin_peek (timeout_conn c) conn))
        q keeps takes

  -- A connection that findService hands over with a service that looks at the first bytes has every byte
  -- left to read; one with a service that does not, if it was not the first to be tried, has lost
  -- the bytes that were peeked.
  pub find_service-rest :
      (ports : Table S) (l : Addr) (conn : c.State) (t u : S) (ss : List S)
      (p : Peeked (timeout_conn c)) (bytes : List ℕ) (s : S) (h : Handed c can_handle)
      → IsStream c rest
      → candidates l [] ports ≡ t ∷ u ∷ ss
      → can_handle t ≢ none
      → first_peek c can_handle (Peek.fresh conn) ≡ inr (p, bytes)
      → find_service c can_handle ports l conn ≡ inr (s, h)
      → ((can_handle s ≢ none) × (handed_rest h ≡ rest conn))
        ⊎ ((can_handle s ≡ none) × (bytes ++ handed_rest h ≡ rest conn))
  unfolding find_service
  find_service-rest ports l conn t u ss p bytes s h i e ne q f =
      let (whole, behind) = first_peek-rest conn p bytes i q in
      let g : try_services c can_handle (t ∷ u ∷ ss) (Peek.done p bytes) ≡ inr (s, h) =
        sym (try_services-peeked c can_handle conn p bytes t (u ∷ ss) (can_handle t) refl ne q)
        ∙ sym (ap (λ x. find_among c can_handle x conn) e)
        ∙ f in
      elim (try_services-IsHanded p bytes (t ∷ u ∷ ss) s h g) [
        | inl (k, r) ↦ inr (k, ap (λ x. bytes ++ handed_rest x) r ∙ behind)
        | inr (k, r) ↦ inl (k, ap handed_rest r ∙ whole)
      ]
