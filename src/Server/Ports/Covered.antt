-- ===== src/Server/Ports/Covered.antt =====
-- A valid port of the configuration is served: the loop of `Run` over the ports does not lose it.
use dynamic_labyrinth.Base.{
  ℕ, ◌≡◌, ◌≢◌, Bool, true, false, Option, none, some, List, [], ◌∷◌, ◌++◌, ◌⊎◌, inl, inr, refl,
}
use dynamic_labyrinth.Server.Addr.{Addr, IsIp}
use dynamic_labyrinth.Server.Ports.{
  Names, PortConfig, BadAddr, Ports, is_defined, named, add_new, enter, add_addr, add_ports,
  ports_of, configure, to_addr,
}
use dynamic_labyrinth.Server.Ports.Configured.{is_defined-snoc, is_defined-new, to_addr-IsIp}

module _ (net : Names) {S : Type 0} (service_of : List ℕ → Option S) (adds : Bool) (a : Addr) where
  abbrev IsDefined : Ports S → Type 0
  IsDefined c = is_defined a c.table ≡ true

  add_new-IsDefined :
      (b : Addr) (ss : List S) (old : Bool) (c : Ports S)
      → IsDefined c
      → IsDefined (add_new net service_of adds b ss old c)
  add_new-IsDefined b ss true c h = h
  add_new-IsDefined b ss false c h = is_defined-snoc a c.table (b, ss) h

  enter-IsDefined :
      (b : Addr) (ss : List S) (c : Ports S)
      → IsDefined c
      → IsDefined (enter net service_of adds b ss c)
  enter-IsDefined b [] c h = h
  enter-IsDefined b (s ∷ ss) c h = add_new-IsDefined b (s ∷ ss) (is_defined b c.table) c h

  add_addr-IsDefined :
      (names : List (List ℕ)) (r : BadAddr ⊎ Addr) (c : Ports S)
      → IsDefined c
      → IsDefined (add_addr net service_of adds names r c)
  add_addr-IsDefined names (inl e) c h = h
  add_addr-IsDefined names (inr b) c h = enter-IsDefined b (named net service_of adds names) _ h

  add_ports-IsDefined :
      (names ps : List (List ℕ)) (c : Ports S)
      → IsDefined c
      → IsDefined (add_ports net service_of adds names ps c)
  unfolding add_ports
  add_ports-IsDefined names [] c h = h
  add_ports-IsDefined names (p ∷ ps) c h =
      add_ports-IsDefined names ps (add_addr net service_of adds names (to_addr net p) c)
        (add_addr-IsDefined names (to_addr net p) c h)

  configure-IsDefined :
      (xs : List (Option PortConfig)) (c : Ports S)
      → IsDefined c
      → IsDefined (configure net service_of adds xs c)
  unfolding configure
  configure-IsDefined [] c h = h
  configure-IsDefined (none ∷ xs) c h = configure-IsDefined xs c h
  configure-IsDefined (some x ∷ xs) c h =
      configure-IsDefined xs (add_ports net service_of adds x.services (ports_of x) c)
        (add_ports-IsDefined x.services (ports_of x) c h)

  add_new-defines :
      (ss : List S) (old : Bool) (c : Ports S)
      → IsIp a
      → is_defined a c.table ≡ old
      → IsDefined (add_new net service_of adds a ss old c)
  add_new-defines ss true c ip e = e
  add_new-defines ss false c ip e = is_defined-new a ss c.table ip

  enter-defines :
      (ss : List S) (c : Ports S) → IsIp a → ss ≢ [] → IsDefined (enter net service_of adds a ss c)
  enter-defines [] c ip ne = absurd (ne refl)
  enter-defines (s ∷ ss) c ip ne = add_new-defines (s ∷ ss) (is_defined a c.table) c ip refl

  add_ports-defines :
      (names front back : List (List ℕ)) (p : List ℕ) (c : Ports S)
      → to_addr net p ≡ inr a
      → named net service_of adds names ≢ []
      → IsDefined (add_ports net service_of adds names (front ++ (p ∷ back)) c)
  unfolding add_ports
  add_ports-defines names [] back p c e ne =
      add_ports-IsDefined names back _
        (rw e (enter-defines (named net service_of adds names) _ (to_addr-IsIp net p a e) ne))
  add_ports-defines names (q ∷ front) back p c e ne =
      add_ports-defines names front back p (add_addr net service_of adds names (to_addr net q) c) e
        ne

  -- Wherever an entry of the configuration has a port that `ToAddr` accepts, and a service that is
  -- configured, a key that matches the address of the port is in the table when the loop has ended.
  pub configure-defines :
      (before after : List (Option PortConfig)) (x : PortConfig) (front back : List (List ℕ))
      (p : List ℕ) (c : Ports S)
      → ports_of x ≡ front ++ (p ∷ back)
      → to_addr net p ≡ inr a
      → named net service_of adds x.services ≢ []
      → is_defined a (configure net service_of adds (before ++ (some x ∷ after)) c).table ≡ true
  unfolding configure
  configure-defines [] after x front back p c split e ne =
      configure-IsDefined after (add_ports net service_of adds x.services (ports_of x) c)
        (rw split (add_ports-defines x.services front back p c e ne))
  configure-defines (none ∷ before) after x front back p c split e ne =
      configure-defines before after x front back p c split e ne
  configure-defines (some y ∷ before) after x front back p c split e ne =
      configure-defines before after x front back p
        (add_ports net service_of adds y.services (ports_of y) c) split e ne
