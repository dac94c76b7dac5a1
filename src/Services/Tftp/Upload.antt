-- ===== src/Services/Tftp/Upload.antt =====
-- An upload to honeytrap/services/tftp.go, from its request to its last block.
use dynamic_labyrinth.Base.{
  ℕ, zero, suc, ◌≡◌, ◌∙◌, ◌≤◌, ◌<◌, ◌≢◌, Bool, true, false, Option, none, some, List, [], ◌∷◌, ◌++◌,
  ◌⊎◌, inl, inr, ◌==◌, length, take, All, refl, ap, sym, arith, append_assoc, map,
}
use dynamic_labyrinth.Base.Text.{same_text_refl}
use dynamic_labyrinth.Services.Tftp.{
  Bufio, IsBufio, File, Buffers, put, Effect, write_event, file_event, send, second, block_number,
  ack, Result, done, with_names, with_mode, on_write, extend, on_block, on_content, read_content,
  on_data, on_type, on_packet, handle, handle_all, after,
}

module _ (b : Bufio) where
  on_packet-read :
      (x : (List ℕ × Option b.Error) × b.Reader) (type addr : List ℕ) (buffers : Buffers)
      → x.0 ≡ (type, none)
      → on_packet b addr x buffers ≡ on_type b (second type) addr x.1 buffers
  on_packet-read ((t, some e), r) type addr buffers q = absurd (cc q)
  on_packet-read ((t, none), r) type addr buffers q =
      let e : t ≡ type = cc q in ap (λ y. on_type b (second y) addr r buffers) e

  on_data-read :
      (x : (List ℕ × Option b.Error) × b.Reader) (number addr : List ℕ) (buffers : Buffers)
      → x.0 ≡ (number, none)
      → on_data b addr x buffers
        ≡ read_content b addr (block_number number) (b.read 512 x.1) buffers
  on_data-read ((t, some e), r) number addr buffers q = absurd (cc q)
  on_data-read ((t, none), r) number addr buffers q =
      let e : t ≡ number = cc q in
      ap (λ y. read_content b addr (block_number y) (b.read 512 r) buffers) e

  read_content-read :
      (x : (List ℕ × Option b.Error) × b.Reader) (bytes number addr : List ℕ) (buffers : Buffers)
      → x.0 ≡ (bytes, none)
      → read_content b addr number x buffers ≡ on_content b addr number bytes (buffers addr) buffers
  read_content-read ((t, some e), r) bytes number addr buffers q = absurd (cc q)
  read_content-read ((t, none), r) bytes number addr buffers q =
      let e : t ≡ bytes = cc q in ap (λ y. on_content b addr number y (buffers addr) buffers) e

  with_names-read :
      (x : (b.Error ⊎ List ℕ) × b.Reader) (name : List ℕ) (buffers : Buffers)
      (next : List ℕ → List ℕ → Result b)
      → x.0 ≡ inr name
      → with_names b x buffers next ≡ with_mode b name (b.read_string 0 x.1) buffers next
  with_names-read (inl e, r) name buffers next q = absurd (cc q)
  with_names-read (inr t, r) name buffers next q =
      let e : t ≡ name = cc q in ap (λ y. with_mode b y (b.read_string 0 r) buffers next) e

  with_mode-read :
      (x : (b.Error ⊎ List ℕ) × b.Reader) (name mode : List ℕ) (buffers : Buffers)
      (next : List ℕ → List ℕ → Result b)
      → x.0 ≡ inr mode
      → with_mode b name x buffers next ≡ next name mode
  with_mode-read (inl e, r) name mode buffers next q = absurd (cc q)
  with_mode-read (inr t, r) name mode buffers next q = let e : t ≡ mode = cc q in ap (next name) e

-- A block of data, by its number and content, and its packet.
abbrev pub Block : Type 0
Block = ℕ × ℕ × List ℕ

abbrev pub packet : Block → List ℕ
packet x = 0 ∷ 3 ∷ x.0 ∷ x.1 ∷ x.2

-- The packet of a write request; both texts end with a zero.
abbrev pub request : List ℕ → List ℕ → List ℕ
request name mode = 0 ∷ 2 ∷ (name ++ (0 ∷ (mode ++ (0 ∷ []))))

abbrev pub IsText : List ℕ → Type 0
IsText = All (λ c. c ≢ 0)

abbrev acked : Block → Effect
acked x = send (ack (x.0 ∷ x.1 ∷ []))

-- The contents of the blocks, one behind the other.
unfoldable pub contents : List Block → List ℕ
contents [] = []
contents (x ∷ xs) = x.2 ++ contents xs

take-all : (n : ℕ) (l : List ℕ) → length l ≤ n → take n l ≡ l
take-all zero [] h = refl
take-all zero (x ∷ l) h = absurd (omega arith)
take-all (suc n) [] h = refl
take-all (suc n) (x ∷ l) h = ap (λ r. x ∷ r) (take-all n l (omega arith))

-- The packets that the limiter lets pass.
unfoldable pub passed : List (Bool × List ℕ) → List (List ℕ)
passed [] = []
passed ((true, d) ∷ packets) = d ∷ passed packets
passed ((false, d) ∷ packets) = passed packets

abbrev let_pass : List ℕ → Bool × List ℕ
let_pass d = (true, d)

-- A packet that is refused leaves no trace.
handle_all-passed :
    (b : Bufio) (packets : List (Bool × List ℕ)) (addr : List ℕ) (buffers : Buffers)
    → handle_all b addr packets buffers ≡ handle_all b addr (map let_pass (passed packets)) buffers
unfolding handle_all handle passed
handle_all-passed b [] addr buffers = refl
handle_all-passed b ((true, d) ∷ packets) addr buffers =
    ap (after (handle b true true addr d buffers).1.0)
      (handle_all-passed b packets addr (handle b true true addr d buffers).0)
handle_all-passed b ((false, d) ∷ packets) addr buffers = handle_all-passed b packets addr buffers

module _ (b : Bufio) (Holds : b.Reader → List ℕ → Type 0) (h : IsBufio b Holds) where
  handle-packet :
      (x : Block) (addr : List ℕ) (buffers : Buffers)
      → length x.2 ≤ 512
      → handle b true true addr (packet x) buffers
        ≡ on_content b addr (x.0 ∷ x.1 ∷ []) x.2 (buffers addr) buffers
  unfolding handle
  handle-packet x addr buffers e =
      let r = b.new_reader (packet x) in
      let (type, rest) =
        h.read 2 r (packet x) (h.new_reader (packet x) (omega arith)) (omega arith) in
      let r' = (b.read 2 r).1 in
      let (number, rest') = h.read 2 r' (x.0 ∷ x.1 ∷ x.2) rest (omega arith) in
      let r'' = (b.read 2 r').1 in
      let (content, rest'') = h.read 512 r'' x.2 rest' (omega arith) in
      let whole : (b.read 512 r'').0 ≡ (x.2, none) =
        content ∙ ap (λ l. (l, none)) (take-all 512 x.2 e) in
      on_packet-read b (b.read 2 r) (0 ∷ 3 ∷ []) addr buffers type
      ∙ on_data-read b (b.read 2 r') (x.0 ∷ x.1 ∷ []) addr buffers number
      ∙ read_content-read b (b.read 512 r'') x.2 (x.0 ∷ x.1 ∷ []) addr buffers whole

  handle-request :
      (name mode addr : List ℕ) (buffers : Buffers)
      → IsText name
      → IsText mode
      → length (request name mode) ≤ 4096
      → handle b true true addr (request name mode) buffers
        ≡ on_write b addr buffers (name ++ (0 ∷ [])) (mode ++ (0 ∷ []))
  unfolding handle
  handle-request name mode addr buffers n m e =
      let r = b.new_reader (request name mode) in
      let (type, rest) =
        h.read 2 r (request name mode) (h.new_reader (request name mode) e) (omega arith) in
      let r' = (b.read 2 r).1 in
      let (first, rest') = h.read_string 0 r' name (mode ++ (0 ∷ [])) rest n in
      let r'' = (b.read_string 0 r').1 in
      let (last, rest'') = h.read_string 0 r'' mode [] rest' m in
      on_packet-read b (b.read 2 r) (0 ∷ 2 ∷ []) addr buffers type
      ∙ with_names-read b (b.read_string 0 r') (name ++ (0 ∷ [])) buffers (on_write b addr buffers)
          first
      ∙ with_mode-read b (b.read_string 0 r'') (name ++ (0 ∷ [])) (mode ++ (0 ∷ [])) buffers
          (on_write b addr buffers) last

  put_self :
      (addr : List ℕ) (file : Option File) (buffers : Buffers) → put addr file buffers addr ≡ file
  put_self addr file buffers = rw (same_text_refl addr) refl

  handle-full :
      (x : Block) (addr : List ℕ) (file : File) (buffers : Buffers)
      → buffers addr ≡ some file
      → length x.2 ≡ 512
      → handle b true true addr (packet x) buffers
        ≡ done b (put addr (some (extend file x.2)) buffers) (acked x ∷ [])
  handle-full x addr file buffers q e =
      let full : length x.2 == 512 ≡ true = ground arith in
      handle-packet x addr buffers (omega arith)
      ∙ ap (λ f. on_content b addr (x.0 ∷ x.1 ∷ []) x.2 f buffers) q
      ∙ ap (λ t. on_block b t addr (x.0 ∷ x.1 ∷ []) (extend file x.2) buffers) full

  handle-last :
      (x : Block) (addr : List ℕ) (file : File) (buffers : Buffers)
      → buffers addr ≡ some file
      → length x.2 < 512
      → handle b true true addr (packet x) buffers
        ≡ done b (put addr none buffers) (acked x ∷ file_event (extend file x.2) ∷ [])
  handle-last x addr file buffers q e =
      let short : length x.2 == 512 ≡ false = ground arith in
      handle-packet x addr buffers (omega arith)
      ∙ ap (λ f. on_content b addr (x.0 ∷ x.1 ∷ []) x.2 f buffers) q
      ∙ ap (λ t. on_block b t addr (x.0 ∷ x.1 ∷ []) (extend file x.2) buffers) short

  extend-append :
      (file : File) (xs ys : List ℕ) → extend (extend file xs) ys ≡ extend file (xs ++ ys)
  extend-append file xs ys = ap (λ c. record file { content = c }) (append_assoc file.content xs ys)

  -- The blocks of an upload that is under way.
  handle_all-blocks :
      (xs : List Block) (last : Block) (addr : List ℕ) (file : File) (buffers : Buffers)
      → buffers addr ≡ some file
      → All (λ (x : Block). length x.2 ≡ 512) xs
      → length last.2 < 512
      → ((handle_all b addr (map let_pass (map packet xs ++ (packet last ∷ []))) buffers).0 addr
          ≡ none)
        × ((handle_all b addr (map let_pass (map packet xs ++ (packet last ∷ []))) buffers).1
            ≡ map acked xs ++ (acked last ∷ file_event (extend file (contents xs ++ last.2)) ∷ []))
  unfolding handle_all contents
  handle_all-blocks [] last addr file buffers q a e =
      rw (handle-last last addr file buffers q e) (put_self addr none buffers, refl)
  handle_all-blocks (x ∷ xs) last addr file buffers q a e =
      let buffers' = put addr (some (extend file x.2)) buffers in
      let (gone, sent) =
        handle_all-blocks xs last addr (extend file x.2) buffers'
          (put_self addr (some (extend file x.2)) buffers) a.1 e in
      let joined =
        extend-append file x.2 (contents xs ++ last.2)
        ∙ ap (extend file) (sym (append_assoc x.2 (contents xs) last.2)) in
      rw (handle-full x addr file buffers q a.0) (
        gone,
        ap (λ l. acked x ∷ l)
            (sent ∙ ap (λ f. map acked xs ++ (acked last ∷ file_event f ∷ [])) joined),
      )

  -- The packets that are let pass are an upload: a request, full blocks, and one that is not full.
  abbrev pub IsUpload : List ℕ → List ℕ → List Block → Block → List (Bool × List ℕ) → Type 0
  IsUpload name mode xs last packets =
      passed packets ≡ request name mode ∷ (map packet xs ++ (packet last ∷ []))

  -- Where the packets of a client that the limiter lets pass, with any that it refuses in between, are an upload,
  -- a request of 4096 bytes at most, blocks of 512 bytes and a shorter one, whatever their numbers are, each of
  -- them is acknowledged, and the contents of the blocks are reported one behind the other; the name and the
  -- mode end with the zero of the packet. The file is forgotten afterwards.
  pub handle_all-upload :
      (name mode : List ℕ) (xs : List Block) (last : Block) (packets : List (Bool × List ℕ))
      (addr : List ℕ) (buffers : Buffers)
      → IsText name
      → IsText mode
      → length (request name mode) ≤ 4096
      → All (λ (x : Block). length x.2 ≡ 512) xs
      → length last.2 < 512
      → IsUpload name mode xs last packets
      → ((handle_all b addr packets buffers).0 addr ≡ none)
        × ((handle_all b addr packets buffers).1
            ≡ write_event (name ++ (0 ∷ [])) (mode ++ (0 ∷ []))
              ∷ send (ack (0 ∷ 0 ∷ []))
              ∷ (map (λ (x : Block). send (ack (x.0 ∷ x.1 ∷ []))) xs
                  ++ (send (ack (last.0 ∷ last.1 ∷ []))
                      ∷ file_event (record {
                        filename = name ++ (0 ∷ []);
                        mode = mode ++ (0 ∷ []);
                        content = contents xs ++ last.2;
                      })
                      ∷ [])))
  unfolding handle_all
  handle_all-upload name mode xs last packets addr buffers n m e a l u =
      let file : File = record {
        filename = name ++ (0 ∷ []);
        mode = mode ++ (0 ∷ []);
        content = [];
      } in
      let (gone, sent) =
        handle_all-blocks xs last addr file (put addr (some file) buffers)
          (put_self addr (some file) buffers) a l in
      rw (handle_all-passed b packets addr buffers, u, handle-request name mode addr buffers n m e)
        (gone, ap (λ l. write_event file.filename file.mode ∷ send (ack (0 ∷ 0 ∷ [])) ∷ l) sent)
