-- ===== src/Base/Ip.antt =====
-- net.IP, as far as the code looks into it: absent, an IPv4 address in either of its forms (To4 is
-- not nil), or other bytes.
use dynamic_labyrinth.Base.{ℕ, Bool, true, false, ◌&&◌, List, [], ◌∷◌, ◌==◌}

pub data Ip : Type 0 where
  nil : Ip
  v4 : ℕ → ℕ → ℕ → ℕ → Ip
  other : List ℕ → Ip

abbrev pub same_bytes : List ℕ → List ℕ → Bool
same_bytes [] [] = true
same_bytes (a ∷ xs) (b ∷ ys) = a == b && same_bytes xs ys
same_bytes _ _ = false

-- IP.Equal
abbrev pub ip_equal : Ip → Ip → Bool
ip_equal nil nil = true
ip_equal (v4 a b c d) (v4 e f g h) = a == e && (b == f && (c == g && d == h))
ip_equal (other xs) (other ys) = same_bytes xs ys
ip_equal _ _ = false
