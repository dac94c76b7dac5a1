-- ===== src/Services/Ipp/Message.antt =====
-- honeytrap/services/ipp/message.go: messages, and the handler that answers one.
pub mod Endless
use dynamic_labyrinth.Base.{
  ℕ, zero, suc, Bool, true, false, Option, none, some, List, [], ◌∷◌, ◌++◌, ltb, ◌==◌,
  if◌then◌else◌, ◌||◌, Outcome, ok, err, panic,
}
use dynamic_labyrinth.Base.Int.{ℤ, pos, negsuc}
use dynamic_labyrinth.Base.Text.{codes, same_text}
use dynamic_labyrinth.Services.Decoder.{
  Decode, Read, Stuck, OutOfBounds, new_decoder, available, byte, read_int16, read_int32, copy,
  write_uint8, write_uint16, write_uint32,
}
use dynamic_labyrinth.Services.Decoder.Monad.{◌>>=◌, return, out_of_fuel}
use dynamic_labyrinth.Services.Ipp.Values.{
  Value, val_int, val_str, val_bool, val_range_int, tag_of, Group, decode_group, encode_group,
  last_error,
}

-- `ippMsg`
pub record Message : Type 0 where
  pub version_major : ℕ
  pub version_minor : ℕ
  pub status_code : ℤ
  pub request_id : ℤ
  pub attributes : List Group
  pub payload : List ℕ
  pub username : List ℕ
  pub uri : List ℕ
  pub format : List ℕ
  pub jobname : List ℕ

abbrev pub end_group : Group
end_group = record { tag = 3; vals = [] }

-- The loop of `decode` over the groups, up to the end tag.
unfoldable pub decode_groups : ℕ → ℕ → List Group → Read (List Group × Option OutOfBounds)
decode_groups zero dtag groups = if dtag == 3 then return (groups, none) else out_of_fuel
decode_groups (suc fuel) dtag groups =
    if dtag == 3
    then return (groups, none)
    else (decode_group fuel dtag >>= λ r. elim r.1 [
      | some e ↦ return (groups, some e)
      | none ↦ byte >>= λ next. decode_groups fuel next (groups ++ (r.0 ∷ []))
    ])

abbrev pub rest_of_data : Read (List ℕ)
rest_of_data d = copy (pos (available d)) d

-- `ippMsg.decode`: the message as far as it is filled, and the error.
unfoldable pub decode_message : ℕ → Read (Message × Option OutOfBounds)
decode_message fuel = do
  major ← byte
  minor ← byte
  status ← read_int16
  id ← read_int32
  dtag ← byte
  r ← decode_groups fuel dtag []
  let m : Message = record {
    version_major = major;
    version_minor = minor;
    status_code = status;
    request_id = id;
    attributes = r.0;
    payload = [];
    username = [];
    uri = [];
    format = [];
    jobname = [];
  } in
      elim r.1 [
        | some e ↦ return (m, some e)
        | none ↦ rest_of_data >>= λ data'. last_error >>= λ e.
            return (record m { attributes = m.attributes ++ (end_group ∷ []); payload = data' }, e)
      ]

unfoldable pub encode_groups : List Group → List ℕ → List ℕ
encode_groups [] buf = buf
encode_groups (g ∷ gs) buf = encode_groups gs (encode_group g buf)

-- `ippMsg.encode`
unfoldable pub encode_message : Message → List ℕ
encode_message m = encode_groups m.attributes (
    write_uint32 m.request_id
      (write_uint16 m.status_code (write_uint8 m.version_minor (write_uint8 m.version_major []))))

-- The values of `setOpAttribResponse`: the character set and the language.
unfoldable pub echoed : List Value → List Value
echoed [] = []
echoed (v ∷ vs) = if tag_of v == 71 || tag_of v == 72 then v ∷ echoed vs else echoed vs

abbrev pub add_group : Message → Group → Message
add_group m g = record m { attributes = m.attributes ++ (g ∷ []) }

unfoldable pub set_op_attrib_response : Group → Message → Message
set_op_attrib_response g m = add_group m (record { tag = g.tag; vals = echoed g.vals })

-- The `model` of group.go.
abbrev pub model : Group
model = record {
  tag = 4;
  vals =
      val_str 68 (codes "compression-supported") (codes "none" ∷ [])
      ∷ val_range_int 51 (codes "copies-supported") (pos 1) (pos 1)
      ∷ val_str 73 (codes "document-format-supported") (
          codes "application/octet-stream"
          ∷ codes "image/pwg-raster"
          ∷ codes "application/pdf"
          ∷ [])
      ∷ val_str 66 (codes "marker-colors")
          (codes "black" ∷ codes "cyan" ∷ codes "magenta" ∷ codes "yellow" ∷ [])
      ∷ val_int 33 (codes "marker-high-levels") (pos 100 ∷ pos 100 ∷ pos 100 ∷ pos 100 ∷ [])
      ∷ val_int 33 (codes "marker-levels") (pos 80 ∷ pos 100 ∷ pos 100 ∷ pos 100 ∷ [])
      ∷ val_int 33 (codes "marker-low-levels") (pos 10 ∷ pos 10 ∷ pos 10 ∷ pos 10 ∷ [])
      ∷ val_str 68 (codes "media-cols-supported") (codes "media-type" ∷ codes "media-size" ∷ [])
      ∷ val_int 35 (codes "operations-supported") (pos 2 ∷ pos 4 ∷ pos 11 ∷ [])
      ∷ val_str 68 (codes "print-color-mode-supported")
          (codes "auto" ∷ codes "color" ∷ codes "monochrome" ∷ [])
      ∷ val_bool 34 (codes "printer-is-accepting-jobs") (true ∷ [])
      ∷ val_int 35 (codes "printer-state") (pos 3 ∷ [])
      ∷ val_str 68 (codes "printer-state-reasons") (codes "none" ∷ [])
      ∷ [];
}

-- One round of `setPrintJobResponse`. A value that is no text leaves `v` nil, and `v.name` panics.
unfoldable pub note_value : Value → Message → Outcome Stuck Message
note_value (val_str tag name []) m =
    if same_text name (codes "printer-uri")
      || (same_text name (codes "requesting-user-name")
          || (same_text name (codes "document-format") || same_text name (codes "job-name")))
    then panic
    else ok m
note_value (val_str tag name (v ∷ vs)) m =
    if same_text name (codes "printer-uri")
    then ok (record m { uri = v })
    else (if same_text name (codes "requesting-user-name")
        then ok (record m { username = v })
        else (if same_text name (codes "document-format")
            then ok (record m { format = v })
            else (if same_text name (codes "job-name")
                then ok (record m { jobname = v })
                else ok m)))
note_value _ m = panic

unfoldable pub note_values : List Value → Message → Outcome Stuck Message
note_values [] m = ok m
note_values (v ∷ vs) m = elim (note_value v m) [
  | ok m' ↦ note_values vs m'
  | err e ↦ err e
  | panic ↦ panic
]

-- The first group with the tag of the operation attributes.
unfoldable pub op_group : List Group → Option Group
op_group [] = none
op_group (g ∷ gs) = if g.tag == 1 then some g else op_group gs

unfoldable pub set_print_job_response : Message → Message → Outcome Stuck Message
set_print_job_response b m = elim (op_group b.attributes) [
  | none ↦ ok (record m { payload = b.payload })
  | some g ↦ elim (note_values g.vals m) [
    | ok m' ↦ ok (record m' { payload = b.payload })
    | err e ↦ err e
    | panic ↦ panic
  ]
]

abbrev pub is_op : ℤ → ℕ → Bool
is_op (pos n) m = n == m
is_op (negsuc n) m = false

-- The switch of `ippHandler` on the operation.
unfoldable pub answer_op : Message → Message → Outcome Stuck Message
answer_op b m =
    if is_op b.status_code 11
    then ok (add_group m model)
    else (if is_op b.status_code 2
        then set_print_job_response b m
        else (if is_op b.status_code 16395
            then ok (add_group m (record { tag = 4; vals = [] }))
            else ok m))

-- What `ippHandler` answers to a message that it has read.
unfoldable pub answer : Message → Outcome Stuck Message
answer b =
    let blank : Message = record {
      version_major = b.version_major;
      version_minor = b.version_minor;
      status_code = pos 0;
      request_id = b.request_id;
      attributes = [];
      payload = b.payload;
      username = [];
      uri = [];
      format = [];
      jobname = [];
    } in
    let begun : Message = elim (op_group b.attributes) [
      | none ↦ blank
      | some g ↦ set_op_attrib_response g blank
    ] in
    elim (answer_op b begun) [ ok m ↦ ok (add_group m end_group) | err e ↦ err e | panic ↦ panic ]

-- `ippHandler`: the answer, or the error of `decode`.
unfoldable pub ipp_handler : ℕ → List ℕ → Outcome Stuck (Message × Option OutOfBounds)
ipp_handler fuel body = elim (decode_message fuel (new_decoder body)) [
  | err e ↦ err e
  | panic ↦ panic
  | ok ((m, some e), d) ↦ ok (m, some e)
  | ok ((m, none), d) ↦ elim (answer m) [ ok r ↦ ok (r, none) | err e ↦ err e | panic ↦ panic ]
]
