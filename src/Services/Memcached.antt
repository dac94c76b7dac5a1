-- ===== src/Services/Memcached.antt =====
-- honeytrap/services/memcached.go: the commands of the memcached service. Package bufio and strconv.Atoi are a parameter,
-- and so is what the rate limiter says each time that it is asked.
pub mod Limits
use dynamic_labyrinth.Base.{
  ℕ, zero, suc, ◌≡◌, ◌≤◌, ◌<◌, ◌+◌, ◌-◌, Bool, true, false, ◌||◌, Option, none, some, List, [], ◌∷◌,
  ◌++◌, ◌⊎◌, inl, inr, ltb, leb, ◌==◌, if◌then◌else◌, length, take,
}
use dynamic_labyrinth.Base.Int.{ℤ, pos, negsuc}
use dynamic_labyrinth.Base.Text.{codes, same_text, split_at}

-- bufio.Reader: `ReadBytes` to a delimiter, `Read` into so many bytes, and `Discard`; and `Atoi`, of 64 bits.
pub record Wire : Type 1 where
  pub Reader : Type 0
  pub Error : Type 0
  pub read_bytes : ℕ → Reader → Option (List ℕ × Reader)
  pub read : ℕ → Reader → Error ⊎ (List ℕ × Reader)
  pub discard : ℤ → Reader → Reader
  pub atoi : List ℕ → Option ℤ

-- What reading does to the number of bytes that are left.
pub record IsShrinking (w : Wire) (size : w.Reader → ℕ) : Type 0 where
  pub read_bytes :
      (d : ℕ) (r s : w.Reader) (bytes : List ℕ)
      → w.read_bytes d r ≡ some (bytes, s)
      → size s < size r
  pub read :
      (n : ℕ) (r s : w.Reader) (bytes : List ℕ) → w.read n r ≡ inr (bytes, s) → size s ≤ size r
  pub discard : (n : ℤ) (r : w.Reader) → size (w.discard n r) ≤ size r

-- The answer to `stats`.
unfoldable pub stats_text : List ℕ
stats_text =
    codes "\nSTAT pid 2080\nSTAT uptime 3151236\nSTAT time 1520550684\n"
    ++ (codes "STAT version 1.4.13\nSTAT libevent 2.0.16-stable\nSTAT pointer_size 64\n"
        ++ (codes "STAT rusage_user 371.247201\nSTAT rusage_system 1839.982991\n"
            ++ (codes "STAT curr_connections 8\nSTAT total_connections 5547233\n"
                ++ (codes
                      "STAT connection_structures 55\nSTAT reserved_fds 20\nSTAT cmd_get 22076096\n"
                    ++ (codes
                          "STAT cmd_set 21\nSTAT cmd_flush 3\nSTAT cmd_touch 0\nSTAT get_hits 22076066\n"
                        ++ (codes "STAT get_misses 30\nSTAT delete_misses 0\nSTAT delete_hits 0\n"
                            ++ (codes
                                  "STAT incr_misses 0\nSTAT incr_hits 0\nSTAT decr_misses 0\nSTAT decr_hits 0\n"
                                ++ (codes
                                      "STAT cas_misses 0\nSTAT cas_hits 0\nSTAT cas_badval 0\nSTAT touch_hits 0\n"
                                    ++ (codes
                                          "STAT touch_misses 0\nSTAT auth_cmds 0\nSTAT auth_errors 0\n"
                                        ++ (codes
                                              "STAT bytes_read 286857265\nSTAT bytes_written 129670828957\n"
                                            ++ (codes
                                                  "STAT limit_maxbytes 67108864\nSTAT accepting_conns 1\n"
                                                ++ (codes
                                                      "STAT listen_disabled_num 0\nSTAT threads 4\nSTAT conn_yields 0\n"
                                                    ++ (codes
                                                          "STAT hash_power_level 16\nSTAT hash_bytes 524288\nSTAT hash_is_expanding 0\n"
                                                        ++ (codes
                                                            "STAT expired_unfetched 0\nSTAT evicted_unfetched 0\nSTAT bytes 29828\n"
                                                            ++ (codes
                                                            "STAT curr_items 5\nSTAT total_items 21\nSTAT evictions 0\nSTAT reclaimed 3\n"
                                                            ++ (codes "END\\r\\n\n"))))))))))))))))

-- Events, and what is written to the connection; of a store the command, the key, the flags, the time, the
-- count and the payload.
pub data Effect : Type 0 where
  command_event : List ℕ → Effect
  store_event : List (List ℕ) → List ℕ → Effect
  write : List ℕ → Effect

-- How `Handle` ends: nil, an error, or the fuel is used up.
pub data End : Type 0 where
  finished : End
  failed : End
  stuck : End

-- The line without its last two bytes.
abbrev pub strip : List ℕ → List ℕ
strip line = if leb 2 (length line) then take (length line - 2) line else line

abbrev pub is_store : List ℕ → Bool
is_store c =
    same_text c (codes "add")
    || (same_text c (codes "replace")
        || (same_text c (codes "prepend")
            || (same_text c (codes "append")
                || (same_text c (codes "cas") || same_text c (codes "set")))))

-- v - n of 64-bit integers, for an n below 2 ^ 63: a result below -(2 ^ 63) wraps around.
abbrev pub minus : ℤ → ℕ → ℤ
minus (pos v) n = if leb n v then pos (v - n) else negsuc (n - v - 1)
minus (negsuc v) n =
    if ltb (v + n) 9223372036854775808 then negsuc (v + n) else pos (18446744073709551615 - (v + n))

module _ (w : Wire) where
  abbrev pub Answer : Type 0
  Answer = List Effect × End

  abbrev pub and_then : List Effect → Answer → Answer
  and_then es (later, e) = (es ++ later, e)

  -- The payload of a store: 80 bytes at most, and the rest of the count is discarded.
  abbrev pub on_payload :
      List (List ℕ) → ℤ → w.Error ⊎ (List ℕ × w.Reader) → (w.Reader → Answer) → Answer
  on_payload words count (inl e) next = ([], failed)
  on_payload words count (inr (payload, r)) next =
      and_then (store_event words payload ∷ write (codes "STORED\r\n") ∷ [])
        (next (w.discard (minus count (length payload)) r))

  abbrev pub on_count : List (List ℕ) → Option ℤ → w.Reader → (w.Reader → Answer) → Answer
  on_count words none r next = ([], failed)
  on_count words (some count) r next = on_payload words count (w.read 80 r) next

  -- The arguments of a store; fewer than five parts are an error.
  abbrev pub on_store : List (List ℕ) → w.Reader → (w.Reader → Answer) → Answer
  on_store (c ∷ key ∷ flags ∷ expire ∷ bytes ∷ parts) r next =
      on_count (c ∷ key ∷ flags ∷ expire ∷ bytes ∷ []) (w.atoi bytes) r next
  on_store _ r next = ([], failed)

  abbrev pub answer : List ℕ → w.Reader → (w.Reader → Answer) → Answer
  answer text r next = and_then (write text ∷ []) (next r)

  -- The switch; two of the texts are raw, with their backslashes.
  abbrev pub on_command : List ℕ → List (List ℕ) → w.Reader → (w.Reader → Answer) → Answer
  on_command c parts r next =
      if same_text c (codes "flush_all")
      then answer (codes "OK\\r\\n") r next
      else if same_text c (codes "stats")
      then answer stats_text r next
      else if is_store c
      then on_store parts r next
      else answer (codes "ERROR\r\n") r next

  abbrev pub on_parts : List (List ℕ) → w.Reader → (w.Reader → Answer) → Answer
  on_parts [] r next = ([], finished)
  on_parts (c ∷ parts) r next = on_command c (c ∷ parts) r next

  -- Over UDP the limiter is asked for each command.
  abbrev pub if_allowed : Bool → Bool → Answer → Answer
  if_allowed true false later = ([], finished)
  if_allowed _ _ later = later

  abbrev pub on_line : Bool → Bool → Option (List ℕ × w.Reader) → (w.Reader → Answer) → Answer
  on_line udp allowed none next = ([], finished)
  on_line udp allowed (some (line, r)) next =
      and_then (command_event (strip line) ∷ [])
        (if_allowed udp allowed (on_parts (split_at b' ' (strip line)) r next))

  -- The loop of `Handle`; `allows` says what the limiter answers to its i-th question.
  unfoldable pub handle_turns : Bool → (ℕ → Bool) → ℕ → ℕ → w.Reader → Answer
  handle_turns udp allows zero i r = ([], stuck)
  handle_turns udp allows (suc fuel) i r =
      on_line udp (allows i) (w.read_bytes 10 r) (handle_turns udp allows fuel (suc i))

  -- The header of a datagram, whose error is logged only.
  abbrev pub skip_header : w.Reader → w.Error ⊎ (List ℕ × w.Reader) → w.Reader
  skip_header r (inl e) = r
  skip_header r (inr (header, s)) = s

  -- `Handle`, with fuel for the turns.
  unfoldable pub handle : Bool → (ℕ → Bool) → ℕ → w.Reader → Answer
  handle true allows fuel r = handle_turns true allows fuel 0 (skip_header r (w.read 8 r))
  handle false allows fuel r = handle_turns false allows fuel 0 r
