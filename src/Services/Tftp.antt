-- ===== src/Services/Tftp.antt =====
-- honeytrap/services/tftp.go: the packets of the TFTP service and the files that are being uploaded, by the text of the
-- client's address. Package bufio is a parameter, and so is what the rate limiter says of a packet.
pub mod Upload
pub mod Others
use dynamic_labyrinth.Base.{
  ℕ, zero, suc, ◌≡◌, ◌≤◌, Bool, true, false, Option, none, some, List, [], ◌∷◌, ◌++◌, ◌⊎◌, inl, inr,
  ◌==◌, if◌then◌else◌, length, take, drop, All, ◌≢◌,
}
use dynamic_labyrinth.Base.Text.{same_text}

-- bufio.Reader: `NewReader` of a connection with that datagram, `Read` into so many bytes, and
-- `ReadString`, whose text ends with the delimiter.
pub record Bufio : Type 1 where
  pub Reader : Type 0
  pub Error : Type 0
  pub new_reader : List ℕ → Reader
  pub read : ℕ → Reader → (List ℕ × Option Error) × Reader
  pub read_string : ℕ → Reader → (Error ⊎ List ℕ) × Reader

-- What is relied on: a reader of a datagram that fits its buffer of 4096 bytes holds the bytes that have not been
-- read; a read takes what fits, nothing at the end without an error (the connection of a datagram
-- gives none); a text is read to the first delimiter.
pub record IsBufio (b : Bufio) (Holds : b.Reader → List ℕ → Type 0) : Type 0 where
  pub new_reader : (bytes : List ℕ) → length bytes ≤ 4096 → Holds (b.new_reader bytes) bytes
  pub read :
      (n : ℕ) (r : b.Reader) (bytes : List ℕ)
      → Holds r bytes
      → n ≤ 4096
      → ((b.read n r).0 ≡ (take n bytes, none)) × Holds (b.read n r).1 (drop n bytes)
  pub read_string :
      (d : ℕ) (r : b.Reader) (front back : List ℕ)
      → Holds r (front ++ (d ∷ back))
      → All (λ c. c ≢ d) front
      → ((b.read_string d r).0 ≡ inr (front ++ (d ∷ []))) × Holds (b.read_string d r).1 back

-- `tftpFile`
pub record File : Type 0 where
  pub filename : List ℕ
  pub mode : List ℕ
  pub content : List ℕ

-- `buffers`, a map.
abbrev pub Buffers : Type 0
Buffers = List ℕ → Option File

abbrev pub put : List ℕ → Option File → Buffers → Buffers
put addr file buffers other = if same_text addr other then file else buffers other

-- Events, and what is written to the connection.
pub data Effect : Type 0 where
  read_event : List ℕ → List ℕ → Effect
  write_event : List ℕ → List ℕ → Effect
  file_event : File → Effect
  send : List ℕ → Effect

-- The second byte of the packet type, which is zero where the packet has none, and the block number.
abbrev pub second : List ℕ → ℕ
second (a ∷ c ∷ _) = c
second _ = 0

abbrev pub block_number : List ℕ → List ℕ
block_number [] = 0 ∷ 0 ∷ []
block_number (a ∷ []) = a ∷ 0 ∷ []
block_number (a ∷ c ∷ _) = a ∷ c ∷ []

-- The messages: "file not found", the acknowledgements, and "no matching buffer".
abbrev pub not_found : List ℕ
not_found = 0 ∷ 5 ∷ 0 ∷ 1 ∷ 0 ∷ []

abbrev pub ack : List ℕ → List ℕ
ack number = 0 ∷ 4 ∷ number

abbrev pub no_buffer : List ℕ
no_buffer = 0 ∷ 5 ∷ 0 ∷ 4 ∷ 0 ∷ []

abbrev pub extend : File → List ℕ → File
extend file bytes = record file { content = file.content ++ bytes }

abbrev pub after : List Effect → Buffers × List Effect → Buffers × List Effect
after front (buffers, back) = (buffers, front ++ back)

module _ (b : Bufio) where
  -- The map, the effects in order, and the error that is returned.
  abbrev pub Result : Type 0
  Result = Buffers × (List Effect × Option b.Error)

  abbrev pub done : Buffers → List Effect → Result
  done buffers effects = (buffers, (effects, none))

  abbrev pub fail : Buffers → b.Error → Result
  fail buffers e = (buffers, ([], some e))

  -- The file name and the mode of a request.
  abbrev pub with_mode :
      List ℕ → (b.Error ⊎ List ℕ) × b.Reader → Buffers → (List ℕ → List ℕ → Result) → Result
  with_mode filename (inl e, r) buffers next = fail buffers e
  with_mode filename (inr mode, r) buffers next = next filename mode

  abbrev pub with_names :
      (b.Error ⊎ List ℕ) × b.Reader → Buffers → (List ℕ → List ℕ → Result) → Result
  with_names (inl e, r) buffers next = fail buffers e
  with_names (inr filename, r) buffers next = with_mode filename (b.read_string 0 r) buffers next

  -- RRQ and WRQ.
  abbrev pub on_read : Buffers → List ℕ → List ℕ → Result
  on_read buffers filename mode = done buffers (read_event filename mode ∷ send not_found ∷ [])

  abbrev pub on_write : List ℕ → Buffers → List ℕ → List ℕ → Result
  on_write addr buffers filename mode =
      done (put addr (some (record { filename = filename; mode = mode; content = [] })) buffers)
        (write_event filename mode ∷ send (ack (0 ∷ 0 ∷ [])) ∷ [])

  -- A block of DATA: the file goes on, or ends with a block that is not full.
  abbrev pub on_block : Bool → List ℕ → List ℕ → File → Buffers → Result
  on_block true addr number file buffers =
      done (put addr (some file) buffers) (send (ack number) ∷ [])
  on_block false addr number file buffers =
      done (put addr none buffers) (send (ack number) ∷ file_event file ∷ [])

  abbrev pub on_content : List ℕ → List ℕ → List ℕ → Option File → Buffers → Result
  on_content addr number bytes none buffers = done buffers (send no_buffer ∷ [])
  on_content addr number bytes (some file) buffers =
      on_block (length bytes == 512) addr number (extend file bytes) buffers

  abbrev pub read_content :
      List ℕ → List ℕ → (List ℕ × Option b.Error) × b.Reader → Buffers → Result
  read_content addr number ((bytes, some e), r) buffers = fail buffers e
  read_content addr number ((bytes, none), r) buffers =
      on_content addr number bytes (buffers addr) buffers

  abbrev pub on_data : List ℕ → (List ℕ × Option b.Error) × b.Reader → Buffers → Result
  on_data addr ((number, some e), r) buffers = fail buffers e
  on_data addr ((number, none), r) buffers =
      read_content addr (block_number number) (b.read 512 r) buffers

  -- The switch: ACK, ERROR and other types do nothing.
  abbrev pub on_type : ℕ → List ℕ → b.Reader → Buffers → Result
  on_type type addr r buffers =
      if type == 1
      then with_names (b.read_string 0 r) buffers (on_read buffers)
      else if type == 2
      then with_names (b.read_string 0 r) buffers (on_write addr buffers)
      else if type == 3
      then on_data addr (b.read 2 r) buffers
      else done buffers []

  abbrev pub on_packet : List ℕ → (List ℕ × Option b.Error) × b.Reader → Buffers → Result
  on_packet addr ((type, some e), r) buffers = fail buffers e
  on_packet addr ((type, none), r) buffers = on_type (second type) addr r buffers

  -- `Handle`; only a UDP packet is asked of the limiter.
  unfoldable pub handle : Bool → Bool → List ℕ → List ℕ → Buffers → Result
  handle udp allowed addr datagram buffers =
      if udp
      then (if allowed
          then on_packet addr (b.read 2 (b.new_reader datagram)) buffers
          else done buffers [])
      else on_packet addr (b.read 2 (b.new_reader datagram)) buffers

  -- Packets of one client, one after another, each with what the limiter says of it.
  unfoldable pub handle_all : List ℕ → List (Bool × List ℕ) → Buffers → Buffers × List Effect
  handle_all addr [] buffers = (buffers, [])
  handle_all addr ((allowed, d) ∷ ds) buffers =
      after (handle true allowed addr d buffers).1.0
        (handle_all addr ds (handle true allowed addr d buffers).0)
