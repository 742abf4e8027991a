-- ===== src/Protocol/Framing.antt =====
-- `framed` and `validate_framing`: the vectors of the byte framing.
pub mod Frames
pub mod Premises
use weavegate.Prelude.{
  ℕ, ◌+◌, ◌*◌, ◌-◌, ◌≡◌, String, Bool, true, false, not, ◌&&◌, ◌||◌, Option, none, some, List, [],
  ◌∷◌, ◌++◌, map, all, elem, length, leb, ltb, ◌==◌, string_eq, nat_eq, list_eq, if◌then◌else◌,
}
use weavegate.Prelude.Dict
use weavegate.Prelude.Dict.{Dict}
use weavegate.Prelude.Result.{Result, Check, ok, err, ◌>>=◌, ◌>>◌, need}
use weavegate.Prelude.Text.{Text, codes, between, is_space}
use weavegate.Protocol.Message.{Peer, go, java, peer_eq, Frame}
use weavegate.Protocol.Shape.{frame_shape, integer}

abbrev pub Bytes : Type 0
Bytes = List ℕ

-- `int.from_bytes(raw[:4], 'big')`.
unfoldable pub header : Bytes → ℕ
header (a ∷ b ∷ c ∷ d ∷ _) = ((a * 256 + b) * 256 + c) * 256 + d
header (a ∷ b ∷ c ∷ []) = (a * 256 + b) * 256 + c
header (a ∷ b ∷ []) = a * 256 + b
header (a ∷ []) = a
header [] = 0

-- `raw[4:]`.
unfoldable pub payload : Bytes → Bytes
payload (a ∷ b ∷ c ∷ d ∷ rest) = rest
payload _ = []

unfoldable pub framed : Bytes → Result Bytes
framed raw = do
  need (leb 4 (length raw) && header raw == length raw - 4) "framing length mismatch"
  ok (payload raw)

-- What `json.loads` makes of a text: a frame, an object with a frame's fields and `extra`, or any
-- other value.
pub data Document : Type 0 where
  plain : Frame → Document
  extended : Frame → (extra : Bool) → Document
  other : Text → Document

-- `decode`: `duplicate` is the `ValueError` of `unique`, `bad_json` any other.
pub data Decoded : Type 0 where
  document : Document → Decoded
  bad_utf8 duplicate bad_json : Decoded

-- JSON as the source uses it: `decode`, `loads` (a repeated key keeps its last value) on a text that
-- is decoded strictly or with replacements, `raw_decode` with the text after the value, and the
-- equality of values.
pub record Json : Type 0 where
  pub decode : Bytes → Decoded
  pub loads : Bytes → Option Document
  pub loads_replacing : Bytes → Option Document
  pub raw_decode : Bytes → Option (Document × Text)
  pub same : Document → Document → Bool

pub record Vector : Type 0 where
  pub id : String
  pub expect : List String
  pub targets : List Peer
  pub input_hex : Text
  pub eof : Option Bool
  pub read_chunk_sizes : Option (List ℕ)
  pub decoded : Option Document
  pub control_hex : Option Text

abbrev when : Bool → String → List String
when true name = name ∷ []
when false name = []

abbrev present {ℓ} : {A : Type ℓ} → Option A → Bool
present none = false
present (some _) = true

-- The fields that not every vector has.
unfoldable pub optional_fields : Vector → List String
optional_fields v =
    when (present v.eof) "eof"
    ++ (when (present v.read_chunk_sizes) "read_chunk_sizes"
        ++ (when (present v.decoded) "decoded" ++ when (present v.control_hex) "control_hex"))

-- `FRAMING`: the optional fields and the effects of each vector.
unfoldable pub framing : Dict String (List String × List String)
framing =
    (
      "fragmented_valid_frame",
      ("read_chunk_sizes" ∷ "decoded" ∷ [], "one_ready_frame_after_complete_payload" ∷ []),
    )
    ∷ ("zero_length", ([], "fatal_protocol" ∷ []))
    ∷ ("oversized_length", ([], "fatal_protocol" ∷ "no_payload_allocation" ∷ []))
    ∷ ("partial_header_eof", ("eof" ∷ [], "fatal_transport" ∷ []))
    ∷ ("partial_payload_eof", ("eof" ∷ [], "fatal_transport" ∷ []))
    ∷ ("invalid_utf8", ("control_hex" ∷ [], "fatal_protocol" ∷ "no_dispatch" ∷ []))
    ∷ ("stdout_banner", ([], "fatal_protocol" ∷ []))
    ∷ ("duplicate_json_key", ("control_hex" ∷ [], "fatal_protocol" ∷ "no_dispatch" ∷ []))
    ∷ ("trailing_value", ([], "fatal_protocol" ∷ []))
    ∷ ("unknown_field", ([], "fatal_protocol" ∷ []))
    ∷ ("duplicate_nested_json_key", ("control_hex" ∷ [], "fatal_protocol" ∷ "no_dispatch" ∷ []))
    ∷ []

-- `[0-9a-f]`.
abbrev pub is_hex_digit : ℕ → Bool
is_hex_digit c = between b'0' b'9' c || between b'a' b'f' c

unfoldable pub hex_value : ℕ → ℕ
hex_value c = if leb c b'9' then c - b'0' else c - b'a' + 10

-- `bytes.fromhex` on an even number of digits.
unfoldable pub from_hex : Text → Bytes
from_hex (a ∷ b ∷ rest) = (hex_value a * 16 + hex_value b) ∷ from_hex rest
from_hex _ = []

unfoldable pub is_even : Text → Bool
is_even [] = true
is_even (a ∷ []) = false
is_even (a ∷ b ∷ rest) = is_even rest

unfoldable pub drop_spaces : Text → Text
drop_spaces [] = []
drop_spaces (c ∷ t) = let rest = drop_spaces t in if is_space c then rest else c ∷ t

-- `t.strip() == '{}'`.
unfoldable pub strips_to_braces : Text → Bool
strips_to_braces t = braces (drop_spaces t)
  where
    braces : Text → Bool
    braces (a ∷ b ∷ rest) = a == b'{' && (b == b'}' && all is_space rest)
    braces _ = false

unfoldable pub sum : List ℕ → ℕ
sum [] = 0
sum (n ∷ ns) = n + sum ns

abbrev pub or_empty {ℓ} : {A : Type ℓ} → Option (List A) → List A
or_empty none = []
or_empty (some xs) = xs

unfoldable pub document_shape : Document → Check
document_shape (plain f) = frame_shape f
document_shape (extended f extra) = err "frame envelope"
document_shape (other t) = err "frame envelope"

-- The value that `decode` returns, or the exception that it raises.
unfoldable pub value_of : Decoded → Result Document
value_of (document d) = ok d
value_of bad_utf8 = err "UnicodeDecodeError"
value_of duplicate = err "duplicate JSON key"
value_of bad_json = err "JSONDecodeError"

unfoldable pub parsed : Option Document → Result Document
parsed none = err "JSONDecodeError"
parsed (some d) = ok d

abbrev eof_is_true : Option Bool → Bool
eof_is_true none = false
eof_is_true (some b) = b

module _ (json : Json) where
  abbrev matches : Option Document → Document → Bool
  matches none d = false
  matches (some e) d = json.same d e

  unfoldable pub fragmented_check : Vector → Bytes → Check
  fragmented_check v raw = do
    text ← framed raw
    actual ← value_of (json.decode text)
    document_shape actual
    need (matches v.decoded actual) "decoded control differs"
    let chunks = or_empty v.read_chunk_sizes
    need (all (λ n. integer n 1 (length raw)) chunks && ltb (sum chunks) (length raw)) "chunk plan"

  abbrev first_shape : Option (Document × Text) → Check
  first_shape none = err "JSONDecodeError"
  first_shape (some (d, rest)) = do
    document_shape d
    need (strips_to_braces rest) "missing trailing JSON value"

  unfoldable pub trailing_check : Bytes → Check
  trailing_check raw = do text ← framed raw; first_shape (json.raw_decode text)

  abbrev without_extra : Document → Check
  without_extra (extended f true) = frame_shape f
  without_extra _ = err "unknown-field premise"

  unfoldable pub unknown_field_check : Bytes → Check
  unknown_field_check raw = do
    text ← framed raw
    invalid ← value_of (json.decode text)
    without_extra invalid

  -- The exception that the strict decoding of the negative input raises.
  unfoldable pub rejection : String → Decoded → Check
  rejection name (document d) = err "negative encoding input accepted strictly"
  rejection name bad_utf8 = need (name == "invalid_utf8") "wrong rejection cause"
  rejection name duplicate =
      need (elem name ("duplicate_json_key" ∷ "duplicate_nested_json_key" ∷ []))
        "wrong rejection cause"
  rejection name bad_json = err "wrong rejection cause"

  -- The frame that the negative input is a spoiled copy of.
  unfoldable pub control_of : Text → Result Document
  control_of control_hex = do
    need (is_even control_hex && (not (control_hex == []) && all is_hex_digit control_hex))
        "control hex"
    control_text ← framed (from_hex control_hex)
    control ← value_of (json.decode control_text)
    document_shape control
    ok control

  unfoldable pub negative_check : String → Bytes → Document → Check
  negative_check name raw control = do
    text ← framed raw
    rejection name (json.decode text)
    if name == "invalid_utf8"
        then (do permissive ← parsed (json.loads_replacing text); document_shape permissive)
        else (do
          merged ← parsed (json.loads text)
          need (json.same merged control) "duplicate-key control differs")

  unfoldable pub control_check : String → Bytes → Text → Check
  control_check name raw control_hex = do
    control ← control_of control_hex
    negative_check name raw control

  unfoldable pub premise : String → Vector → Bytes → Check
  premise name v raw =
      if name == "fragmented_valid_frame"
      then fragmented_check v raw
      else if name == "zero_length"
      then need (raw == 0 ∷ 0 ∷ 0 ∷ 0 ∷ []) "not a zero length header"
      else if name == "oversized_length"
      then need (length raw == 4 && ltb 1048576 (header raw))
          "not an allocation-free oversized header"
      else if name == "partial_header_eof"
      then need (eof_is_true v.eof && (ltb 0 (length raw) && ltb (length raw) 4))
          "not a partial header EOF"
      else if name == "partial_payload_eof"
      then need
          (eof_is_true v.eof
            && (leb 4 (length raw)
                && (integer (header raw) 1 1048576 && ltb (length raw - 4) (header raw))))
          "not a partial payload EOF"
      else if name == "stdout_banner"
      then need (raw == codes "Spring Boot\n") "banner premise"
      else if name == "trailing_value"
      then trailing_check raw
      else if name == "unknown_field"
      then unknown_field_check raw
      else control_check name raw (or_empty v.control_hex)

  -- The optional fields and the effects are those of the vector's name.
  unfoldable pub entry_ok : Vector → Option (List String × List String) → Bool
  entry_ok v none = false
  entry_ok v (some (fields, effects)) = optional_fields v == fields && v.expect == effects

  unfoldable pub validate_framing : Vector → Check
  validate_framing v = do
    need (entry_ok v (Dict.get v.id framing)) "framing fields/effects"
    need (v.targets == go ∷ java ∷ []) "framing decoder scope"
    need (is_even v.input_hex && all is_hex_digit v.input_hex) "input hex"
    premise v.id v (from_hex v.input_hex)
