-- ===== src/Canary/Scans.antt =====
-- The knock groups at a concrete scan.
use dynamic_labyrinth.Base.{ℕ, ◌≡◌, List, [], ◌∷◌, refl, arith}
use dynamic_labyrinth.Canary.Knock.Timer.{expire, Item}
use dynamic_labyrinth.Canary.Knock.Timer.Reported.{Reports, expire-Reports}
use dynamic_labyrinth.Base.Ip.{v4}
use dynamic_labyrinth.Canary.Knock.{Knock, Group, udp, icmp, receive_knock, same_group}
use dynamic_labyrinth.Canary.Knock.Groups.{IsSound, receive_knock-IsSound}

abbrev dns_knock : Knock
dns_knock = record {
  kind = udp;
  source_hardware_addr = 2 ∷ 0 ∷ 0 ∷ 0 ∷ 0 ∷ 2 ∷ [];
  destination_hardware_addr = 2 ∷ 0 ∷ 0 ∷ 0 ∷ 0 ∷ 1 ∷ [];
  source_ip = v4 192 168 1 77;
  destination_ip = v4 10 0 0 1;
  destination_port = 5353;
}

abbrev ping : Knock
ping = record dns_knock { kind = icmp; destination_port = 0 }

-- A group for each of the two kinds.
abbrev dns_group : Group
dns_group = record {
  kind = udp;
  start = 10;
  last = 10;
  source_hardware_addr = 2 ∷ 0 ∷ 0 ∷ 0 ∷ 0 ∷ 2 ∷ [];
  destination_hardware_addr = 2 ∷ 0 ∷ 0 ∷ 0 ∷ 0 ∷ 1 ∷ [];
  source_ip = v4 192 168 1 77;
  destination_ip = v4 10 0 0 1;
  protocol = 0;
  count = 1;
  knocks = dns_knock ∷ [];
}

abbrev ping_group : Group
ping_group = record dns_group { kind = icmp; protocol = 2; knocks = ping ∷ [] }

scan-IsSound : IsSound (dns_group ∷ ping_group ∷ [])
unfolding same_group
scan-IsSound = record {
  unique = ((refl, tt), (tt, tt));
  counted = (
    record { unique = (tt, tt); counted = omega arith },
    (record { unique = (tt, tt); counted = omega arith }, tt),
  );
}

receive_knock-IsSound_example :
    IsSound
      (receive_knock 12 (record dns_knock { destination_port = 69 }) (dns_group ∷ ping_group ∷ []))
receive_knock-IsSound_example =
    receive_knock-IsSound 12 (record dns_knock { destination_port = 69 })
      (dns_group ∷ ping_group ∷ []) scan-IsSound

-- Three groups that have been quiet for ten seconds, in nanoseconds.
abbrev quiet : Group
quiet = record dns_group { last = 20000000000 }

abbrev plain_digits : ℕ → List ℕ
plain_digits n = n ∷ []

expire-Reports_example :
    Reports
      (λ (x : Item). x.1.count ≡ 1)
      plain_digits
      30000000000
      (expire plain_digits 30000000000 ((0, quiet) ∷ (1, quiet) ∷ (2, quiet) ∷ []))
expire-Reports_example =
    expire-Reports (λ (x : Item). x.1.count ≡ 1) plain_digits 30000000000
      ((0, quiet) ∷ (1, quiet) ∷ (2, quiet) ∷ []) (refl, (refl, (refl, tt)))
