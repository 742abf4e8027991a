-- ===== src/Protocol/Shape.antt =====
-- `string` and `frame_shape`: the ranges of a frame's fields.
use Prim.Native.String.{len}
use weavegate.Prelude.{
  ℕ, arith, ◌≡◌, ◌≤◌, String, Bool, not, ◌&&◌, ◌||◌, Option, none, some, List, [], ◌∷◌, leb, all,
  elem, distinct, ◌==◌, length, string_eq, nat_eq, if◌then◌else◌,
}
use weavegate.Prelude.Result.{Check, ok, ◌>>◌, need}
use weavegate.Prelude.Text.{codes, between, is_stripped, is_hex}
use weavegate.Protocol.Message.{
  Frame, Body, Identity, Ready, Terminal, WireError, Database, start, ready, invoke, accepted,
  arrive, release, terminal, cancel, stop, stopped, fatal,
}
use weavegate.Protocol.Vocabulary.{fatal_kinds}

-- `integer(value, low, high)` on a JSON integer.
abbrev pub integer : ℕ → ℕ → ℕ → Bool
integer value low high = leb low value && leb value high

-- `string(value, label, name=True)`: `len` counts the bytes of the UTF-8 form.
unfoldable pub name_string : String → Check
unfolding is_stripped
name_string value = do
  need (not (value == "") && (leb (len value) 128 && is_stripped (codes value))) "name bounds"
  need (all (λ c. not (between 0 31 c || between 127 159 c)) (codes value)) "control character"

-- `string(value, label, nonempty=True)`, and with `max_bytes`.
nonempty_string : String → Check
nonempty_string value = need (not (value == "")) "empty"

bounded_string : String → ℕ → Check
bounded_string value max_bytes = need (leb (len value) max_bytes) "too long"

for_each : (String → Check) → List String → Check
for_each f [] = ok tt
for_each f (x ∷ xs) = do f x; for_each f xs

name_strings : List String → Check
unfolding for_each name_string
name_strings xs = do need (distinct xs) "duplicate names"; for_each name_string xs

parameters : List (String × String) → Check
unfolding name_string
parameters [] = ok tt
parameters ((k, v) ∷ ps) = do name_string k; parameters ps

is_upper_digit : ℕ → Bool
is_upper_digit c = between b'A' b'Z' c || between b'0' b'9' c

error_shape : WireError → Check
unfolding bounded_string is_upper_digit
error_shape e = do
  need (elem e.kind ("application" ∷ "mysql" ∷ "cancelled" ∷ [])) "error kind"
  bounded_string e.message 1024
  need (integer e.mysql_code 0 65535) "MySQL code"
  need
      (if e.kind == "mysql"
        then leb 1 e.mysql_code
          && (length (codes e.sql_state) == 5 && all is_upper_digit (codes e.sql_state))
        else e.mysql_code == 0 && e.sql_state == "")
      "SQL error metadata"

invocation_shape : String → String → Check
unfolding name_string is_hex
invocation_shape invocation worker = do
  need (is_hex 32 invocation) "invocation identity"
  name_string worker

identity_shape : Identity → Check
unfolding invocation_shape
identity_shape i = do
  invocation_shape i.invocation i.worker
  need (integer i.arrival 1 100000) "arrival identity"
  name_string i.point

ready_shape : Ready → Check
unfolding name_strings
ready_shape r = do
  need (integer r.capacity 1 1024) "capacity"
  name_strings r.commands
  name_strings r.points

database_shape : Database → Check
unfolding nonempty_string
database_shape db = do
  need (db.driver == "mysql" && integer db.port 1 65535) "database driver/port"
  nonempty_string db.host
  nonempty_string db.name
  nonempty_string db.username

max_ms : ℕ
max_ms = 2147483647

terminal_outcome : Terminal → Check
terminal_outcome t = do
  need (elem t.transaction ("committed" ∷ "rolled_back" ∷ "not_started" ∷ [])) "transaction outcome"
  need (elem t.connection ("returned" ∷ "not_acquired" ∷ [])) "lease outcome"
  need (not (t.connection == "not_acquired") || t.transaction == "not_started")
      "unacquired transaction"

terminal_error : Terminal → Option WireError → Check
unfolding error_shape
terminal_error t none =
    need (t.transaction == "committed" && t.connection == "returned") "nil terminal error"
terminal_error t (some e) = error_shape e

body_shape : Body → Check
unfolding invocation_shape identity_shape ready_shape database_shape terminal_outcome terminal_error
    parameters name_string max_ms fatal_kinds bounded_string
body_shape (start s) = do
  need (integer s.startup_ms 1 max_ms) "invalid startup_ms"
  need (integer s.cancel_ms 1 max_ms) "invalid cancel_ms"
  ready_shape (record { commands = s.commands; points = s.points; capacity = s.capacity })
  name_string s.variant
  database_shape s.database
  parameters s.params
body_shape (ready r) = ready_shape r
body_shape (invoke i w c) = do invocation_shape i w; name_string c
body_shape (accepted i w) = invocation_shape i w
body_shape (arrive i) = identity_shape i
body_shape (release i) = identity_shape i
body_shape (terminal t) = do
  invocation_shape t.invocation t.worker
  terminal_outcome t
  terminal_error t t.error
body_shape (cancel i w r) = do
  invocation_shape i w
  need (elem r ("context" ∷ "stop" ∷ [])) "cancel reason"
body_shape (stop ms) = need (integer ms 1 max_ms) "invalid budget_ms"
body_shape stopped = ok tt
body_shape (fatal k m) = do need (elem k fatal_kinds) "fatal kind"; bounded_string m 1024

unfoldable pub frame_shape : Frame → Check
unfolding body_shape is_hex max_ms
frame_shape f = do
  need (integer f.v 1 max_ms && integer f.seq 1 100000) "version/sequence type or range"
  need (is_hex 32 f.run) "run identity"
  need (is_hex 32 f.session) "session identity"
  need (leb (len f.payload) 1048576) "frame too large"
  body_shape f.body

-- The arrival of an `arrive` frame is within its limit.
pub frame_shape-arrive :
    (f : Frame) (b : Identity) → f.body ≡ arrive b → frame_shape f ≡ ok tt → b.arrival ≤ 100000
unfolding frame_shape
frame_shape-arrive f b e h = ground arith
