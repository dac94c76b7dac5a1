-- ===== src/Server/Ports/Configured.antt =====
-- What the loop over the configured ports of `Run` keeps.
use dynamic_labyrinth.Base.{
  ℕ, if◌then◌else◌, ◌≡◌, ◌≢◌, ◌∙◌, Bool, true, false, ◌||◌, Option, none, some, List, [], ◌∷◌, ◌++◌,
  map, All, refl, Bool-cases, inl, inr, ◌⊎◌, ap, sym,
}
use mathlib.Core.Path.{subst}
use dynamic_labyrinth.Base.Ip.{Ip}
use dynamic_labyrinth.Base.Text.{codes, same_text, split_at}
use dynamic_labyrinth.Server.Addr.{
  Addr, tcp_addr, udp_addr, compare_addr, compare_addr_comm, compare_addr_refl, IsIp,
}
use dynamic_labyrinth.Server.Ports.{
  Names, PortConfig, BadAddr, Table, Ports, is_defined, named, known, keep, add_new, enter,
  add_addr, add_ports, ports_of, configure, to_addr, to_addr_parts, to_addr_of, by_protocol,
  resolved, host_and_port,
}
use dynamic_labyrinth.Server.Ports.Order.{IsApart, IsDistinct}

or_false : (a b : Bool) → (a || b) ≡ false → (a ≡ false) × (b ≡ false)
or_false true b h = absurd (cc h)
or_false false b h = (refl, h)

or_true : (a : Bool) → (a || true) ≡ true
or_true true = refl
or_true false = refl

listened-snoc :
    (adds : Bool) (a : Addr) (l m : List Addr)
    → l ≡ (if adds then m else [])
    → (if adds then l ++ (a ∷ []) else l) ≡ (if adds then m ++ (a ∷ []) else [])
listened-snoc true a l m h = ap (λ x. x ++ (a ∷ [])) h
listened-snoc false a l m h = h

module _ {S : Type 0} where
  is_defined-IsApart : (a : Addr) (t : Table S) → is_defined a t ≡ false → IsApart a t
  unfolding is_defined
  is_defined-IsApart a [] h = tt
  is_defined-IsApart a ((k, ss) ∷ t) h =
      let (e, rest) = or_false (compare_addr k a) (is_defined a t) h in
      (e, is_defined-IsApart a t rest)

  All-snoc {κ} :
      (P : Addr × List S → Type κ) (t : Table S) (e : Addr × List S)
      → All P t
      → P e
      → All P (t ++ (e ∷ []))
  All-snoc P [] e a h = (h, tt)
  All-snoc P (x ∷ t) e a h = (a.0, All-snoc P t e a.1 h)

  IsDistinct-snoc :
      (a : Addr) (ss : List S) (t : Table S)
      → IsApart a t
      → IsDistinct t
      → IsDistinct (t ++ ((a, ss) ∷ []))
  IsDistinct-snoc a ss [] h d = (tt, tt)
  IsDistinct-snoc a ss (x ∷ t) h d = (
    All-snoc (λ e. compare_addr e.0 x.0 ≡ false) t (a, ss) d.0 (compare_addr_comm a x.0 ∙ h.0),
    IsDistinct-snoc a ss t h.1 d.1,
  )

  map-snoc :
      (t : Table S) (a : Addr) (ss : List S)
      → map (λ (e : Addr × List S). e.0) (t ++ ((a, ss) ∷ []))
        ≡ map (λ (e : Addr × List S). e.0) t ++ (a ∷ [])
  map-snoc [] a ss = refl
  map-snoc (x ∷ t) a ss = ap (λ l. x.0 ∷ l) (map-snoc t a ss)

  -- A table with more entries defines the same addresses.
  pub is_defined-snoc :
      (a : Addr) (t : Table S) (e : Addr × List S)
      → is_defined a t ≡ true
      → is_defined a (t ++ (e ∷ [])) ≡ true
  unfolding is_defined
  is_defined-snoc a [] e h = absurd (cc h)
  is_defined-snoc a ((k, ss) ∷ t) e h = elim (Bool-cases (compare_addr k a)) [
    | inl m ↦ rw m refl
    | inr m ↦ rw m (is_defined-snoc a t e (rw m at h))
  ]

  pub is_defined-new :
      (a : Addr) (ss : List S) (t : Table S) → IsIp a → is_defined a (t ++ ((a, ss) ∷ [])) ≡ true
  unfolding is_defined
  is_defined-new a ss [] h = rw (compare_addr_refl a h) refl
  is_defined-new a ss ((k, ss') ∷ t) h = rw (is_defined-new a ss t h) (or_true (compare_addr k a))

module _ (net : Names) where
  resolved_tcp-IsIp : (o : Option (Ip × ℕ)) (a : Addr) → resolved net tcp_addr o ≡ inr a → IsIp a
  resolved_tcp-IsIp none a h = absurd (cc h)
  resolved_tcp-IsIp (some (ip, port)) a h = let e : tcp_addr ip port ≡ a = cc h in subst IsIp e tt

  resolved_udp-IsIp : (o : Option (Ip × ℕ)) (a : Addr) → resolved net udp_addr o ≡ inr a → IsIp a
  resolved_udp-IsIp none a h = absurd (cc h)
  resolved_udp-IsIp (some (ip, port)) a h = let e : udp_addr ip port ≡ a = cc h in subst IsIp e tt

  by_protocol-IsIp : (proto hp : List ℕ) (a : Addr) → by_protocol net proto hp ≡ inr a → IsIp a
  by_protocol-IsIp proto hp a h = elim (Bool-cases (same_text proto (codes "tcp"))) [
    | inl e ↦ resolved_tcp-IsIp (net.resolve_tcp hp) a (rw e at h)
    | inr e ↦ elim (Bool-cases (same_text proto (codes "udp"))) [
      | inl f ↦ resolved_udp-IsIp (net.resolve_udp hp) a (rw (e, f) at h)
      | inr f ↦ absurd (cc (e, f, h))
    ]
  ]

  to_addr_of-IsIp :
      (proto : List ℕ) (split : List ℕ × List ℕ) (number : Option ℕ) (a : Addr)
      → to_addr_of net proto split number ≡ inr a
      → IsIp a
  to_addr_of-IsIp proto (host, port) none a h = absurd (cc h)
  to_addr_of-IsIp proto (host, port) (some n) a h =
      by_protocol-IsIp proto (net.join_host_port host port) a h

  to_addr_parts-IsIp : (parts : List (List ℕ)) (a : Addr) → to_addr_parts net parts ≡ inr a → IsIp a
  to_addr_parts-IsIp [] a h = absurd (cc h)
  to_addr_parts-IsIp (x ∷ []) a h = absurd (cc h)
  to_addr_parts-IsIp (proto ∷ text ∷ []) a h =
      let split = host_and_port net text (net.split_host_port text) in
      to_addr_of-IsIp proto split (net.parse_port split.1) a h
  to_addr_parts-IsIp (x ∷ y ∷ z ∷ parts) a h = absurd (cc h)

  -- `ToAddr` makes nothing but TCP and UDP addresses.
  pub to_addr-IsIp : (p : List ℕ) (a : Addr) → to_addr net p ≡ inr a → IsIp a
  unfolding to_addr
  to_addr-IsIp p a h = to_addr_parts-IsIp (split_at b'/' p) a h

module _ (net : Names) {S : Type 0} (service_of : List ℕ → Option S) (adds : Bool) where
  -- A service of the configuration.
  abbrev pub IsKnown : S → Type 0
  IsKnown s = (n : List ℕ) × (service_of n ≡ some s)

  -- No two keys match, every entry has services, all of them configured, and the listener was given
  -- the keys if it takes addresses.
  pub record IsConfigured (c : Ports S) : Type 0 where
    pub distinct : IsDistinct c.table
    pub served : All (λ e. (e.1 ≢ []) × All IsKnown e.1) c.table
    pub listening : c.listened ≡ (if adds then map (λ (e : Addr × List S). e.0) c.table else [])

  keep-IsKnown :
      (n : List ℕ) (o : Option S) (ss : List S)
      → service_of n ≡ o
      → All IsKnown ss
      → All IsKnown (keep o ss)
  keep-IsKnown n none ss e a = a
  keep-IsKnown n (some s) ss e a = ((n, e), a)

  named-IsKnown : (ns : List (List ℕ)) → All IsKnown (named net service_of adds ns)
  unfolding named
  named-IsKnown [] = tt
  named-IsKnown (n ∷ ns) =
      keep-IsKnown n (service_of n) (named net service_of adds ns) refl (named-IsKnown ns)

  -- The three conditions do not see the names in use.
  add_new-IsConfigured :
      (a : Addr) (s : S) (ss : List S) (b : Bool) (c : Ports S)
      → is_defined a c.table ≡ b
      → All IsKnown (s ∷ ss)
      → IsConfigured c
      → IsConfigured (add_new net service_of adds a (s ∷ ss) b c)
  add_new-IsConfigured a s ss true c e known i = i
  add_new-IsConfigured a s ss false c e known i = record {
    distinct = IsDistinct-snoc a (s ∷ ss) c.table (is_defined-IsApart a c.table e) i.distinct;
    served =
        All-snoc (λ e. (e.1 ≢ []) × All IsKnown e.1) c.table (a, s ∷ ss) i.served
          ((λ q. absurd (cc q)), known);
    listening =
        listened-snoc adds a c.listened (map (λ (e : Addr × List S). e.0) c.table) i.listening
        ∙ ap (λ l. if adds then l else []) (sym (map-snoc c.table a (s ∷ ss)));
  }

  enter-IsConfigured :
      (a : Addr) (ss : List S) (c : Ports S)
      → All IsKnown ss
      → IsConfigured c
      → IsConfigured (enter net service_of adds a ss c)
  enter-IsConfigured a [] c known i = i
  enter-IsConfigured a (s ∷ ss) c known i =
      add_new-IsConfigured a s ss (is_defined a c.table) c refl known i

  add_addr-IsConfigured :
      (names : List (List ℕ)) (r : BadAddr ⊎ Addr) (c : Ports S)
      → IsConfigured c
      → IsConfigured (add_addr net service_of adds names r c)
  add_addr-IsConfigured names (inl e) c i = i
  add_addr-IsConfigured names (inr a) c i =
      enter-IsConfigured a (named net service_of adds names) _ (named-IsKnown names)
        (record { distinct = i.distinct; served = i.served; listening = i.listening })

  add_ports-IsConfigured :
      (names ps : List (List ℕ)) (c : Ports S)
      → IsConfigured c
      → IsConfigured (add_ports net service_of adds names ps c)
  unfolding add_ports
  add_ports-IsConfigured names [] c i = i
  add_ports-IsConfigured names (p ∷ ps) c i =
      add_ports-IsConfigured names ps (add_addr net service_of adds names (to_addr net p) c)
        (add_addr-IsConfigured names (to_addr net p) c i)

  -- Whatever is configured, no two ports of the result match each other, each one has services and only
  -- configured ones, and a listener that takes addresses was given exactly these.
  pub configure-IsConfigured :
      (xs : List (Option PortConfig)) (c : Ports S)
      → IsConfigured c
      → IsConfigured (configure net service_of adds xs c)
  unfolding configure
  configure-IsConfigured [] c i = i
  configure-IsConfigured (none ∷ xs) c i = configure-IsConfigured xs c i
  configure-IsConfigured (some x ∷ xs) c i =
      configure-IsConfigured xs (add_ports net service_of adds x.services (ports_of x) c)
        (add_ports-IsConfigured x.services (ports_of x) c i)
