-- ===== src/Server/Addr.antt =====
-- honeytrap/server/honeytrap.go: the addresses that a listener is given, and `compareAddr`.
use dynamic_labyrinth.Base.{
  ℕ, ◌≡◌, Bool, true, false, List, [], ◌∷◌, ◌==◌, if◌then◌else◌, refl, arith,
}
use dynamic_labyrinth.Base.Ip.{Ip, nil, v4, other, same_bytes, ip_equal}

-- net.Addr: `*net.TCPAddr`, `*net.UDPAddr`, or another type.
pub data Addr : Type 0 where
  tcp_addr : Ip → ℕ → Addr
  udp_addr : Ip → ℕ → Addr
  other_addr : Addr

-- An address without an IP stands for every one.
abbrev pub same_ip : Ip → Ip → Bool
same_ip nil ip = true
same_ip ip nil = true
same_ip ip ip' = ip_equal ip ip'

-- `compareAddr`
unfoldable pub compare_addr : Addr → Addr → Bool
compare_addr (tcp_addr ip port) (tcp_addr ip' port') =
    if port == port' then same_ip ip ip' else false
compare_addr (udp_addr ip port) (udp_addr ip' port') =
    if port == port' then same_ip ip ip' else false
compare_addr _ _ = false

-- An address of a connection: TCP or UDP, with its IP.
abbrev pub IsSpecific : Addr → Type 0
IsSpecific (tcp_addr nil port) = ⊥
IsSpecific (udp_addr nil port) = ⊥
IsSpecific other_addr = ⊥
IsSpecific _ = Unit {0}

abbrev pub IsIp : Addr → Type 0
IsIp other_addr = ⊥
IsIp _ = Unit {0}

same_bytes_refl : (xs : List ℕ) → same_bytes xs xs ≡ true
same_bytes_refl [] = refl
same_bytes_refl (x ∷ xs) = ground (arith, same_bytes_refl xs)

same_bytes_join :
    (xs ys zs : List ℕ)
    → same_bytes xs zs ≡ true
    → same_bytes ys zs ≡ true
    → same_bytes xs ys ≡ true
same_bytes_join [] [] zs h k = refl
same_bytes_join [] (y ∷ ys) [] h k = k
same_bytes_join [] (y ∷ ys) (z ∷ zs) h k = h
same_bytes_join (x ∷ xs) [] [] h k = h
same_bytes_join (x ∷ xs) [] (z ∷ zs) h k = k
same_bytes_join (x ∷ xs) (y ∷ ys) [] h k = absurd (cc h)
same_bytes_join (x ∷ xs) (y ∷ ys) (z ∷ zs) h k = ground (arith, same_bytes_join xs ys zs)

same_ip_refl : (ip : Ip) → same_ip ip ip ≡ true
same_ip_refl nil = refl
same_ip_refl (v4 a b c d) = ground arith
same_ip_refl (other xs) = same_bytes_refl xs

same_ip_join :
    (ip ip' : Ip) (a b c d : ℕ)
    → same_ip ip (v4 a b c d) ≡ true
    → same_ip ip' (v4 a b c d) ≡ true
    → same_ip ip ip' ≡ true
same_ip_join nil ip' a b c d h k = refl
same_ip_join (v4 _ _ _ _) nil a b c d h k = refl
same_ip_join (v4 _ _ _ _) (v4 _ _ _ _) a b c d h k = ground arith
same_ip_join (v4 _ _ _ _) (other _) a b c d h k = absurd (cc k)
same_ip_join (other _) ip' a b c d h k = absurd (cc h)

same_ip_join_other :
    (ip ip' : Ip) (zs : List ℕ)
    → same_ip ip (other zs) ≡ true
    → same_ip ip' (other zs) ≡ true
    → same_ip ip ip' ≡ true
same_ip_join_other nil ip' zs h k = refl
same_ip_join_other (v4 _ _ _ _) ip' zs h k = absurd (cc h)
same_ip_join_other (other xs) nil zs h k = refl
same_ip_join_other (other xs) (v4 _ _ _ _) zs h k = absurd (cc k)
same_ip_join_other (other xs) (other ys) zs h k = same_bytes_join xs ys zs h k

same_bytes_comm : (xs ys : List ℕ) → same_bytes xs ys ≡ same_bytes ys xs
same_bytes_comm [] [] = refl
same_bytes_comm [] (y ∷ ys) = refl
same_bytes_comm (x ∷ xs) [] = refl
same_bytes_comm (x ∷ xs) (y ∷ ys) = ground (arith, same_bytes_comm xs ys)

same_ip_comm : (ip ip' : Ip) → same_ip ip ip' ≡ same_ip ip' ip
same_ip_comm nil nil = refl
same_ip_comm nil (v4 _ _ _ _) = refl
same_ip_comm nil (other _) = refl
same_ip_comm (v4 _ _ _ _) nil = refl
same_ip_comm (v4 _ _ _ _) (v4 _ _ _ _) = ground arith
same_ip_comm (v4 _ _ _ _) (other _) = refl
same_ip_comm (other _) nil = refl
same_ip_comm (other _) (v4 _ _ _ _) = refl
same_ip_comm (other xs) (other ys) = same_bytes_comm xs ys

pub compare_addr_comm : (a b : Addr) → compare_addr a b ≡ compare_addr b a
unfolding compare_addr
compare_addr_comm (tcp_addr ip p) (tcp_addr ip' q) = ground (arith, same_ip_comm ip ip')
compare_addr_comm (tcp_addr _ _) (udp_addr _ _) = refl
compare_addr_comm (tcp_addr _ _) other_addr = refl
compare_addr_comm (udp_addr _ _) (tcp_addr _ _) = refl
compare_addr_comm (udp_addr ip p) (udp_addr ip' q) = ground (arith, same_ip_comm ip ip')
compare_addr_comm (udp_addr _ _) other_addr = refl
compare_addr_comm other_addr (tcp_addr _ _) = refl
compare_addr_comm other_addr (udp_addr _ _) = refl
compare_addr_comm other_addr other_addr = refl

pub compare_addr_refl : (a : Addr) → IsIp a → compare_addr a a ≡ true
unfolding compare_addr
compare_addr_refl (tcp_addr ip port) h = ground (arith, same_ip_refl ip)
compare_addr_refl (udp_addr ip port) h = ground (arith, same_ip_refl ip)
compare_addr_refl other_addr h = elim h [ ]

-- Two keys that match one specific address match each other.
pub compare_addr_join :
    (a b l : Addr)
    → IsSpecific l
    → compare_addr a l ≡ true
    → compare_addr b l ≡ true
    → compare_addr a b ≡ true
unfolding compare_addr
compare_addr_join (tcp_addr ip p) (tcp_addr ip' p') (tcp_addr nil q) s h k = elim s [ ]
compare_addr_join (tcp_addr ip p) (tcp_addr ip' p') (tcp_addr (v4 a b c d) q) s h k =
    ground (arith, same_ip_join ip ip' a b c d)
compare_addr_join (tcp_addr ip p) (tcp_addr ip' p') (tcp_addr (other zs) q) s h k =
    ground (arith, same_ip_join_other ip ip' zs)
compare_addr_join (udp_addr ip p) (udp_addr ip' p') (udp_addr nil q) s h k = elim s [ ]
compare_addr_join (udp_addr ip p) (udp_addr ip' p') (udp_addr (v4 a b c d) q) s h k =
    ground (arith, same_ip_join ip ip' a b c d)
compare_addr_join (udp_addr ip p) (udp_addr ip' p') (udp_addr (other zs) q) s h k =
    ground (arith, same_ip_join_other ip ip' zs)
compare_addr_join (tcp_addr _ _) _ (udp_addr _ _) s h k = absurd (cc h)
compare_addr_join (tcp_addr _ _) _ other_addr s h k = absurd (cc h)
compare_addr_join (tcp_addr _ _) (udp_addr _ _) (tcp_addr _ _) s h k = absurd (cc k)
compare_addr_join (tcp_addr _ _) other_addr (tcp_addr _ _) s h k = absurd (cc k)
compare_addr_join (udp_addr _ _) _ (tcp_addr _ _) s h k = absurd (cc h)
compare_addr_join (udp_addr _ _) _ other_addr s h k = absurd (cc h)
compare_addr_join (udp_addr _ _) (tcp_addr _ _) (udp_addr _ _) s h k = absurd (cc k)
compare_addr_join (udp_addr _ _) other_addr (udp_addr _ _) s h k = absurd (cc k)
compare_addr_join other_addr b l s h k = absurd (cc h)
