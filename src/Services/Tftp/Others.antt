-- ===== src/Services/Tftp/Others.antt =====
-- What one packet to honeytrap/services/tftp.go leaves alone, and how much it is answered.
use dynamic_labyrinth.Base.{
  ℕ, ◌≡◌, ◌≤◌, Bool, true, false, Option, none, some, List, [], ◌∷◌, ◌⊎◌, inl, inr, ◌==◌, length,
  All, refl, arith, Bool-cases,
}
use dynamic_labyrinth.Base.Text.{same_text}
use dynamic_labyrinth.Services.Tftp.{
  Bufio, File, Buffers, Effect, read_event, write_event, file_event, send, second, block_number,
  Result, done, fail, with_names, with_mode, on_read, on_write, on_content, read_content, on_data,
  on_type, on_packet, handle,
}

-- What is written to the connection.
unfoldable pub sends : List Effect → List (List ℕ)
sends [] = []
sends (send m ∷ es) = m ∷ sends es
sends (read_event _ _ ∷ es) = sends es
sends (write_event _ _ ∷ es) = sends es
sends (file_event _ ∷ es) = sends es

module _ (b : Bufio) (addr : List ℕ) (buffers : Buffers) (P : Result b → Type 0)
    (failing : (e : b.Error) → P (fail b buffers e)) (nothing : P (done b buffers []))
    (reading : (f m : List ℕ) → P (on_read b buffers f m))
    (writing : (f m : List ℕ) → P (on_write b addr buffers f m))
    (storing : (n c : List ℕ) (file : Option File)
      → file ≡ buffers addr
      → P (on_content b addr (block_number n) c file buffers)) where
  with_mode-P :
      (f : List ℕ) (x : (b.Error ⊎ List ℕ) × b.Reader) (next : List ℕ → List ℕ → Result b)
      → ((f m : List ℕ) → P (next f m))
      → P (with_mode b f x buffers next)
  with_mode-P f (inl e, r) next h = failing e
  with_mode-P f (inr m, r) next h = h f m

  with_names-P :
      (x : (b.Error ⊎ List ℕ) × b.Reader) (next : List ℕ → List ℕ → Result b)
      → ((f m : List ℕ) → P (next f m))
      → P (with_names b x buffers next)
  with_names-P (inl e, r) next h = failing e
  with_names-P (inr f, r) next h = with_mode-P f (b.read_string 0 r) next h

  read_content-P :
      (n : List ℕ) (x : (List ℕ × Option b.Error) × b.Reader)
      → P (read_content b addr (block_number n) x buffers)
  read_content-P n ((c, some e), r) = failing e
  read_content-P n ((c, none), r) = storing n c (buffers addr) refl

  on_data-P : (x : (List ℕ × Option b.Error) × b.Reader) → P (on_data b addr x buffers)
  on_data-P ((n, some e), r) = failing e
  on_data-P ((n, none), r) = read_content-P n (b.read 512 r)

  on_type-P : (type : ℕ) (r : b.Reader) → P (on_type b type addr r buffers)
  on_type-P type r = elim (Bool-cases (type == 1)) [
    | inl e ↦ rw e (with_names-P (b.read_string 0 r) (on_read b buffers) reading)
    | inr e ↦ elim (Bool-cases (type == 2)) [
      | inl f ↦ rw (e, f) (with_names-P (b.read_string 0 r) (on_write b addr buffers) writing)
      | inr f ↦ elim (Bool-cases (type == 3)) [
        | inl g ↦ rw (e, f, g) (on_data-P (b.read 2 r))
        | inr g ↦ rw (e, f, g) nothing
      ]
    ]
  ]

  on_packet-P : (x : (List ℕ × Option b.Error) × b.Reader) → P (on_packet b addr x buffers)
  on_packet-P ((type, some e), r) = failing e
  on_packet-P ((type, none), r) = on_type-P (second type) r

  -- What holds of each way in which a packet can end holds of `Handle`.
  handle-P :
      (udp allowed : Bool) (datagram : List ℕ) → P (handle b udp allowed addr datagram buffers)
  unfolding handle
  handle-P true true datagram = on_packet-P (b.read 2 (b.new_reader datagram))
  handle-P true false datagram = nothing
  handle-P false allowed datagram = on_packet-P (b.read 2 (b.new_reader datagram))

module _ (b : Bufio) (addr : List ℕ) (buffers : Buffers) where
  on_content-other :
      (other n c : List ℕ) (file : Option File)
      → same_text addr other ≡ false
      → (on_content b addr n c file buffers).0 other ≡ buffers other
  on_content-other other n c none h = refl
  on_content-other other n c (some file) h = elim (Bool-cases (length c == 512)) [
    | inl e ↦ rw e (rw h refl)
    | inr e ↦ rw e (rw h refl)
  ]

  -- A packet of one client leaves the files of every other client as they were.
  pub handle-other :
      (udp allowed : Bool) (datagram other : List ℕ)
      → same_text addr other ≡ false
      → (handle b udp allowed addr datagram buffers).0 other ≡ buffers other
  handle-other udp allowed datagram other h =
      handle-P b addr buffers (λ r. r.0 other ≡ buffers other) (λ e. refl) refl (λ f m. refl)
        (λ f m. rw h refl) (λ n c file e. on_content-other other (block_number n) c file h) udp
        allowed datagram

  -- At most one message, of at most that many bytes.
  abbrev pub IsSmall : List Effect → Type 0
  IsSmall es = (length (sends es) ≤ 1) × All (λ m. length m ≤ 5) (sends es)

  on_content-IsSmall :
      (x y : ℕ) (c : List ℕ) (file : Option File)
      → IsSmall (on_content b addr (x ∷ y ∷ []) c file buffers).1.0
  unfolding sends
  on_content-IsSmall x y c none = (omega arith, (omega arith, tt))
  on_content-IsSmall x y c (some file) = elim (Bool-cases (length c == 512)) [
    | inl e ↦ rw e (omega arith, (omega arith, tt))
    | inr e ↦ rw e (omega arith, (omega arith, tt))
  ]

  on_content-IsSmall_block :
      (n c : List ℕ) (file : Option File)
      → IsSmall (on_content b addr (block_number n) c file buffers).1.0
  on_content-IsSmall_block [] c file = on_content-IsSmall 0 0 c file
  on_content-IsSmall_block (x ∷ []) c file = on_content-IsSmall x 0 c file
  on_content-IsSmall_block (x ∷ y ∷ n) c file = on_content-IsSmall x y c file

  -- A packet is answered with one message at most, of five bytes at most.
  pub handle-IsSmall :
      (udp allowed : Bool) (datagram : List ℕ)
      → IsSmall (handle b udp allowed addr datagram buffers).1.0
  unfolding sends
  handle-IsSmall udp allowed datagram =
      let empty : IsSmall [] = (omega arith, tt) in
      handle-P b addr buffers (λ r. IsSmall r.1.0) (λ e. empty) empty
        (λ f m. (omega arith, (omega arith, tt))) (λ f m. (omega arith, (omega arith, tt)))
        (λ n c file e. on_content-IsSmall_block n c file) udp allowed datagram
