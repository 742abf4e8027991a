-- ===== src/Protocol/Vectors/Frames.antt =====
-- The framing vectors of docs/reference/testdata/external-sut-v1.json, and JSON on their texts.
use weavegate.Prelude.{
  String, true, Option, none, some, List, [], ◌∷◌, ◌==◌, nat_eq, string_eq, list_eq, any,
  if◌then◌else◌,
}
use weavegate.Prelude.Text.{Text, codes}
use weavegate.Protocol.Message.{go, java, Frame, ready, start}
use weavegate.Protocol.Framing.{
  Bytes, Document, plain, extended, other, Decoded, document, bad_utf8, duplicate, bad_json, Json,
  Vector, payload, from_hex,
}
use weavegate.Protocol.Vectors.Parts.{frame, begin}

abbrev ready_frame : Frame
ready_frame =
    frame 1
      (ready (record {
        commands = "assign" ∷ [];
        points = "after_read" ∷ "before_write" ∷ [];
        capacity = 2;
      }))
      "ready"

abbrev start_frame : Frame
start_frame = frame 1 (start (begin 2 10000 1000)) "start"

abbrev pub fragmented_valid_frame : Vector
fragmented_valid_frame = record {
  id = "fragmented_valid_frame";
  expect = "one_ready_frame_after_complete_payload" ∷ [];
  targets = go ∷ java ∷ [];
  input_hex =
      codes
        "000000c77b2276223a312c2274797065223a227265616479222c2272756e223a223131313131313131313131313131313131313131313131313131313131313131222c2273657373696f6e223a223232323232323232323232323232323232323232323232323232323232323232222c22736571223a312c22626f6479223a7b22636f6d6d616e6473223a5b2261737369676e225d2c22706f696e7473223a5b2261667465725f72656164222c226265666f72655f7772697465225d2c226361706163697479223a327d7d";
  eof = none;
  read_chunk_sizes = some (1 ∷ 2 ∷ 1 ∷ 7 ∷ 3 ∷ []);
  decoded = some (plain ready_frame);
  control_hex = none;
}

abbrev pub zero_length : Vector
zero_length = record {
  id = "zero_length";
  expect = "fatal_protocol" ∷ [];
  targets = go ∷ java ∷ [];
  input_hex = codes "00000000";
  eof = none;
  read_chunk_sizes = none;
  decoded = none;
  control_hex = none;
}

abbrev pub oversized_length : Vector
oversized_length = record {
  id = "oversized_length";
  expect = "fatal_protocol" ∷ "no_payload_allocation" ∷ [];
  targets = go ∷ java ∷ [];
  input_hex = codes "00100001";
  eof = none;
  read_chunk_sizes = none;
  decoded = none;
  control_hex = none;
}

abbrev pub partial_header_eof : Vector
partial_header_eof = record {
  id = "partial_header_eof";
  expect = "fatal_transport" ∷ [];
  targets = go ∷ java ∷ [];
  input_hex = codes "0000";
  eof = some true;
  read_chunk_sizes = none;
  decoded = none;
  control_hex = none;
}

abbrev pub partial_payload_eof : Vector
partial_payload_eof = record {
  id = "partial_payload_eof";
  expect = "fatal_transport" ∷ [];
  targets = go ∷ java ∷ [];
  input_hex = codes "000000027b";
  eof = some true;
  read_chunk_sizes = none;
  decoded = none;
  control_hex = none;
}

abbrev pub invalid_utf8 : Vector
invalid_utf8 = record {
  id = "invalid_utf8";
  expect = "fatal_protocol" ∷ "no_dispatch" ∷ [];
  targets = go ∷ java ∷ [];
  input_hex =
      codes
        "0000019e7b2276223a312c2274797065223a227374617274222c2272756e223a223131313131313131313131313131313131313131313131313131313131313131222c2273657373696f6e223a223232323232323232323232323232323232323232323232323232323232323232222c22736571223a312c22626f6479223a7b2276617269616e74223a226669786564222c22706172616d73223a7b22726571756573745f6964223a2231ff227d2c22636f6d6d616e6473223a5b2261737369676e225d2c22706f696e7473223a5b2261667465725f72656164222c226265666f72655f7772697465225d2c226361706163697479223a322c226461746162617365223a7b22647269766572223a226d7973716c222c22686f7374223a223132372e302e302e31222c22706f7274223a33333036302c226e616d65223a22776561766567617465222c22757365726e616d65223a2273796e746865746963222c2270617373776f7264223a2273796e7468657469632d6f6e6c79227d2c22737461727475705f6d73223a31303030302c2263616e63656c5f6d73223a313030307d7d";
  eof = none;
  read_chunk_sizes = none;
  decoded = none;
  control_hex = some (
      codes
        "0000019e7b2276223a312c2274797065223a227374617274222c2272756e223a223131313131313131313131313131313131313131313131313131313131313131222c2273657373696f6e223a223232323232323232323232323232323232323232323232323232323232323232222c22736571223a312c22626f6479223a7b2276617269616e74223a226669786564222c22706172616d73223a7b22726571756573745f6964223a22313f227d2c22636f6d6d616e6473223a5b2261737369676e225d2c22706f696e7473223a5b2261667465725f72656164222c226265666f72655f7772697465225d2c226361706163697479223a322c226461746162617365223a7b22647269766572223a226d7973716c222c22686f7374223a223132372e302e302e31222c22706f7274223a33333036302c226e616d65223a22776561766567617465222c22757365726e616d65223a2273796e746865746963222c2270617373776f7264223a2273796e7468657469632d6f6e6c79227d2c22737461727475705f6d73223a31303030302c2263616e63656c5f6d73223a313030307d7d");
}

abbrev pub stdout_banner : Vector
stdout_banner = record {
  id = "stdout_banner";
  expect = "fatal_protocol" ∷ [];
  targets = go ∷ java ∷ [];
  input_hex = codes "537072696e6720426f6f740a";
  eof = none;
  read_chunk_sizes = none;
  decoded = none;
  control_hex = none;
}

abbrev pub duplicate_json_key : Vector
duplicate_json_key = record {
  id = "duplicate_json_key";
  expect = "fatal_protocol" ∷ "no_dispatch" ∷ [];
  targets = go ∷ java ∷ [];
  input_hex =
      codes
        "000001a37b2276223a312c2276223a312c2274797065223a227374617274222c2272756e223a223131313131313131313131313131313131313131313131313131313131313131222c2273657373696f6e223a223232323232323232323232323232323232323232323232323232323232323232222c22736571223a312c22626f6479223a7b2276617269616e74223a226669786564222c22706172616d73223a7b22726571756573745f6964223a2231227d2c22636f6d6d616e6473223a5b2261737369676e225d2c22706f696e7473223a5b2261667465725f72656164222c226265666f72655f7772697465225d2c226361706163697479223a322c226461746162617365223a7b22647269766572223a226d7973716c222c22686f7374223a223132372e302e302e31222c22706f7274223a33333036302c226e616d65223a22776561766567617465222c22757365726e616d65223a2273796e746865746963222c2270617373776f7264223a2273796e7468657469632d6f6e6c79227d2c22737461727475705f6d73223a31303030302c2263616e63656c5f6d73223a313030307d7d";
  eof = none;
  read_chunk_sizes = none;
  decoded = none;
  control_hex = some (
      codes
        "0000019d7b2276223a312c2274797065223a227374617274222c2272756e223a223131313131313131313131313131313131313131313131313131313131313131222c2273657373696f6e223a223232323232323232323232323232323232323232323232323232323232323232222c22736571223a312c22626f6479223a7b2276617269616e74223a226669786564222c22706172616d73223a7b22726571756573745f6964223a2231227d2c22636f6d6d616e6473223a5b2261737369676e225d2c22706f696e7473223a5b2261667465725f72656164222c226265666f72655f7772697465225d2c226361706163697479223a322c226461746162617365223a7b22647269766572223a226d7973716c222c22686f7374223a223132372e302e302e31222c22706f7274223a33333036302c226e616d65223a22776561766567617465222c22757365726e616d65223a2273796e746865746963222c2270617373776f7264223a2273796e7468657469632d6f6e6c79227d2c22737461727475705f6d73223a31303030302c2263616e63656c5f6d73223a313030307d7d");
}

abbrev pub trailing_value : Vector
trailing_value = record {
  id = "trailing_value";
  expect = "fatal_protocol" ∷ [];
  targets = go ∷ java ∷ [];
  input_hex =
      codes
        "000000c97b2276223a312c2274797065223a227265616479222c2272756e223a223131313131313131313131313131313131313131313131313131313131313131222c2273657373696f6e223a223232323232323232323232323232323232323232323232323232323232323232222c22736571223a312c22626f6479223a7b22636f6d6d616e6473223a5b2261737369676e225d2c22706f696e7473223a5b2261667465725f72656164222c226265666f72655f7772697465225d2c226361706163697479223a327d7d7b7d";
  eof = none;
  read_chunk_sizes = none;
  decoded = none;
  control_hex = none;
}

abbrev pub unknown_field : Vector
unknown_field = record {
  id = "unknown_field";
  expect = "fatal_protocol" ∷ [];
  targets = go ∷ java ∷ [];
  input_hex =
      codes
        "000000d47b2276223a312c2274797065223a227265616479222c2272756e223a223131313131313131313131313131313131313131313131313131313131313131222c2273657373696f6e223a223232323232323232323232323232323232323232323232323232323232323232222c22736571223a312c22626f6479223a7b22636f6d6d616e6473223a5b2261737369676e225d2c22706f696e7473223a5b2261667465725f72656164222c226265666f72655f7772697465225d2c226361706163697479223a327d2c226578747261223a747275657d";
  eof = none;
  read_chunk_sizes = none;
  decoded = none;
  control_hex = none;
}

abbrev pub duplicate_nested_json_key : Vector
duplicate_nested_json_key = record {
  id = "duplicate_nested_json_key";
  expect = "fatal_protocol" ∷ "no_dispatch" ∷ [];
  targets = go ∷ java ∷ [];
  input_hex =
      codes
        "000001ae7b2276223a312c2274797065223a227374617274222c2272756e223a223131313131313131313131313131313131313131313131313131313131313131222c2273657373696f6e223a223232323232323232323232323232323232323232323232323232323232323232222c22736571223a312c22626f6479223a7b2276617269616e74223a226669786564222c22706172616d73223a7b22726571756573745f6964223a2231222c22726571756573745f6964223a2231227d2c22636f6d6d616e6473223a5b2261737369676e225d2c22706f696e7473223a5b2261667465725f72656164222c226265666f72655f7772697465225d2c226361706163697479223a322c226461746162617365223a7b22647269766572223a226d7973716c222c22686f7374223a223132372e302e302e31222c22706f7274223a33333036302c226e616d65223a22776561766567617465222c22757365726e616d65223a2273796e746865746963222c2270617373776f7264223a2273796e7468657469632d6f6e6c79227d2c22737461727475705f6d73223a31303030302c2263616e63656c5f6d73223a313030307d7d";
  eof = none;
  read_chunk_sizes = none;
  decoded = none;
  control_hex = some (
      codes
        "0000019d7b2276223a312c2274797065223a227374617274222c2272756e223a223131313131313131313131313131313131313131313131313131313131313131222c2273657373696f6e223a223232323232323232323232323232323232323232323232323232323232323232222c22736571223a312c22626f6479223a7b2276617269616e74223a226669786564222c22706172616d73223a7b22726571756573745f6964223a2231227d2c22636f6d6d616e6473223a5b2261737369676e225d2c22706f696e7473223a5b2261667465725f72656164222c226265666f72655f7772697465225d2c226361706163697479223a322c226461746162617365223a7b22647269766572223a226d7973716c222c22686f7374223a223132372e302e302e31222c22706f7274223a33333036302c226e616d65223a22776561766567617465222c22757365726e616d65223a2273796e746865746963222c2270617373776f7264223a2273796e7468657469632d6f6e6c79227d2c22737461727475705f6d73223a31303030302c2263616e63656c5f6d73223a313030307d7d");
}

abbrev text_of : Text → Bytes
text_of hex = payload (from_hex hex)

abbrev pub vectors : List Vector
vectors =
    fragmented_valid_frame ∷ zero_length ∷ oversized_length ∷ partial_header_eof
    ∷ partial_payload_eof ∷ invalid_utf8 ∷ stdout_banner ∷ duplicate_json_key ∷ trailing_value
    ∷ unknown_field ∷ duplicate_nested_json_key ∷ []

abbrev decode_text : Bytes → Decoded
decode_text t =
    if t == text_of fragmented_valid_frame.input_hex
    then document (plain ready_frame)
    else if t == text_of unknown_field.input_hex
    then document (extended ready_frame true)
    else if t == text_of invalid_utf8.input_hex
    then bad_utf8
    else if t == text_of duplicate_json_key.input_hex
    then duplicate
    else if t == text_of duplicate_nested_json_key.input_hex
    then duplicate
    else if any (λ v. t == text_of (control v.control_hex)) vectors
    then document (plain start_frame)
    else bad_json
  where
    control : Option Text → Text
    control none = []
    control (some t) = t

-- `json` on the texts of these vectors; only the first value of the trailing one is asked for.
abbrev pub json : Json
json = record {
  decode = decode_text;
  loads = λ t. some (plain start_frame);
  loads_replacing = λ t. some (plain start_frame);
  raw_decode = λ t. some (plain ready_frame, codes "{}");
  same = λ a b. label a == label b;
}
  where
    label : Document → String
    label (plain f) = f.payload
    label (extended f extra) = "extended"
    label (other t) = "other"
