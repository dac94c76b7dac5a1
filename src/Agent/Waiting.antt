-- ===== src/Agent/Waiting.antt =====
-- A call of `Read` of honeytrap/listener/agent/connection.go that waits, while other steps are taken.
use dynamic_labyrinth.Base.{
  ℕ, zero, suc, ◌≡◌, ◌≢◌, ◌∙◌, Bool, true, false, List, [], ◌∷◌, ◌++◌, length, refl, sym, ap,
}
use dynamic_labyrinth.Agent.{
  Phase, between, waiting, woken, ended, returned, at, set, Stream, read_buffered, on_select,
  on_expire, on_wake, Action, arrive, begin_read, enter_select, expire, wake, close, act,
}

-- A call that is not in its select.
abbrev pub IsAwake : Phase → Type 0
IsAwake (waiting n) = ⊥
IsAwake _ = Unit {0}

-- Any step but more data, a `Close`, and the timeout of the k-th call.
abbrev pub IsQuiet : ℕ → Action → Type 0
IsQuiet k (begin_read n) = Unit {0}
IsQuiet k (enter_select j) = Unit {0}
IsQuiet k (wake j) = Unit {0}
IsQuiet k (expire j) = j ≢ k
IsQuiet k _ = ⊥

-- The calls: one that waits is not changed by what is done to others.
at-append :
    (k n : ℕ) (calls more : List Phase) → at k calls ≡ waiting n → at k (calls ++ more) ≡ waiting n
at-append k n [] more e = absurd (cc e)
at-append zero n (p ∷ calls) more e = e
at-append (suc k) n (p ∷ calls) more e = at-append k n calls more e

at-set : (j k : ℕ) (p : Phase) (calls : List Phase) → j ≢ k → at k (set j p calls) ≡ at k calls
at-set j k p [] h = refl
at-set zero zero p (q ∷ calls) h = absurd (h refl)
at-set zero (suc k) p (q ∷ calls) h = refl
at-set (suc j) zero p (q ∷ calls) h = refl
at-set (suc j) (suc k) p (q ∷ calls) h = at-set j k p calls (λ e. h (ap suc e))

apart :
    (j k n : ℕ) (p : Phase) (calls : List Phase)
    → at k calls ≡ waiting n
    → at j calls ≡ p
    → IsAwake p
    → j ≢ k
apart j k n p calls e f a q = elim_awake p (sym f ∙ ap (λ i. at i calls) q ∙ e) a
  where
    elim_awake : (r : Phase) → r ≡ waiting n → IsAwake r → ⊥
    elim_awake (waiting m) g b = b
    elim_awake (between m) g b = cc g
    elim_awake (woken m) g b = cc g
    elim_awake ended g b = cc g
    elim_awake returned g b = cc g

pub at-last : (calls : List Phase) (p : Phase) → at (length calls) (calls ++ (p ∷ [])) ≡ p
at-last [] p = refl
at-last (q ∷ calls) p = at-last calls p

pub set-last :
    (calls : List Phase) (p q : Phase)
    → set (length calls) q (calls ++ (p ∷ [])) ≡ calls ++ (q ∷ [])
set-last [] p q = refl
set-last (r ∷ calls) p q = ap (λ l. r ∷ l) (set-last calls p q)

-- A quiet step leaves the call where it is.
unfoldable pub Stays : ℕ → ℕ → Stream → Type 0
Stays k n s = at k s.calls ≡ waiting n

read_buffered-Stays :
    (k n m : ℕ) (buff : List ℕ) (s : Stream) → Stays k n s → Stays k n (read_buffered m buff s).0
unfolding Stays
read_buffered-Stays k n m [] s e = at-append k n s.calls (between m ∷ []) e
read_buffered-Stays k n m (b ∷ buff) s e = e

on_select-Stays :
    (j k n : ℕ) (p : Phase) (closed : Bool) (s : Stream)
    → at j s.calls ≡ p
    → s.closed ≡ closed
    → Stays k n s
    → Stays k n (on_select j p s).0
unfolding Stays
on_select-Stays j k n (between m) true s q c e =
    rw c (at-set j k returned s.calls (apart j k n (between m) s.calls e q tt) ∙ e)
on_select-Stays j k n (between m) false s q c e =
    rw c (at-set j k (waiting m) s.calls (apart j k n (between m) s.calls e q tt) ∙ e)
on_select-Stays j k n (waiting m) closed s q c e = e
on_select-Stays j k n (woken m) closed s q c e = e
on_select-Stays j k n ended closed s q c e = e
on_select-Stays j k n returned closed s q c e = e

on_wake-Stays :
    (j k n : ℕ) (p : Phase) (s : Stream)
    → at j s.calls ≡ p
    → Stays k n s
    → Stays k n (on_wake j p s).0
unfolding Stays
on_wake-Stays j k n (woken m) s q e =
    at-set j k returned s.calls (apart j k n (woken m) s.calls e q tt) ∙ e
on_wake-Stays j k n ended s q e = at-set j k returned s.calls (apart j k n ended s.calls e q tt) ∙ e
on_wake-Stays j k n (between m) s q e = e
on_wake-Stays j k n (waiting m) s q e = e
on_wake-Stays j k n returned s q e = e

on_expire-Stays :
    (j k n : ℕ) (p : Phase) (s : Stream) → j ≢ k → Stays k n s → Stays k n (on_expire j p s).0
unfolding Stays
on_expire-Stays j k n (between m) s h e = at-set j k returned s.calls h ∙ e
on_expire-Stays j k n (waiting m) s h e = at-set j k returned s.calls h ∙ e
on_expire-Stays j k n (woken m) s h e = e
on_expire-Stays j k n ended s h e = e
on_expire-Stays j k n returned s h e = e

pub act-Stays :
    (k n : ℕ) (a : Action) (s : Stream) → IsQuiet k a → Stays k n s → Stays k n (act a s).0
unfolding act
act-Stays k n (begin_read m) s q e = read_buffered-Stays k n m s.buff s e
act-Stays k n (enter_select j) s q e = on_select-Stays j k n (at j s.calls) s.closed s refl refl e
act-Stays k n (wake j) s q e = on_wake-Stays j k n (at j s.calls) s refl e
act-Stays k n (expire j) s q e = on_expire-Stays j k n (at j s.calls) s q e
act-Stays k n (arrive bytes j) s q e = absurd q
act-Stays k n close s q e = absurd q
