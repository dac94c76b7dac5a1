-- ===== src/Services/Decoder/Monad.antt =====
-- Calls of the reader of honeytrap/services/decoder, one after the other.
use dynamic_labyrinth.Base.{ok, err, panic, ◌≡◌, refl}
use dynamic_labyrinth.Base.Int.{ℤ}
use dynamic_labyrinth.Services.Decoder.{Decode, Read, Stuck, stuck, seek}

infixl 5 ◌>>=◌ ◌>>◌
abbrev pub ◌>>=◌ {ℓ κ} : {A : Type ℓ} {B : Type κ} → Read A → (A → Read B) → Read B
(m >>= f) d = elim (m d) [ ok (a, d') ↦ f a d' | err e ↦ err e | panic ↦ panic ]

abbrev pub ◌>>◌ {ℓ} : {B : Type ℓ} → Read (Unit {0}) → Read B → Read B
m >> k = m >>= λ _. k

abbrev pub return {ℓ} : {A : Type ℓ} → A → Read A
return a d = ok (a, d)

abbrev pub out_of_fuel {ℓ} : {A : Type ℓ} → Read A
out_of_fuel d = err stuck

abbrev pub nil_call {ℓ} : {A : Type ℓ} → Read A
nil_call d = panic

abbrev pub seek_by : ℤ → Read (Unit {0})
seek_by n d = ok (tt, seek n d)

pub bind-eq {ℓ κ} :
    {A : Type ℓ} {B : Type κ} (m : Read A) (f : A → Read B) (d : Decode) {a : A} {d' : Decode}
    → m d ≡ ok (a, d')
    → (m >>= f) d ≡ f a d'
bind-eq m f d q = rw (◌>>=◌, q) refl

pub bind-err {ℓ κ} :
    {A : Type ℓ} {B : Type κ} (m : Read A) (f : A → Read B) (d : Decode) {e : Stuck}
    → m d ≡ err e
    → (m >>= f) d ≡ err e
bind-err m f d q = rw (◌>>=◌, q) refl
