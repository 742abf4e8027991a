-- ===== src/Protocol/Message.antt =====
-- The frames of the external-SUT protocol as scripts/check-external-sut-vectors.py reads them.
-- A JSON object with a fixed set of fields is a record, the message type with its body a
-- constructor; so the tests for field sets and JSON types are the types.
use weavegate.Prelude.{
  ℕ, String, ◌≡◌, ap, ◌↔◌, Bool, true, false, ◌&&◌, Option, none, some, List, [], ◌∷◌, arith, Eq,
  ◌==◌, string_eq, nat_eq,
}

pub data Peer : Type 0 where
  go java : Peer

unfoldable pub peer_beq : Peer → Peer → Bool
peer_beq go go = true
peer_beq java java = true
peer_beq _ _ = false

pub peer_beq_iff : (a b : Peer) → (peer_beq a b ≡ true) ↔ (a ≡ b)
unfolding peer_beq
peer_beq_iff a b = ground arith

instance abbrev pub peer_eq : Eq Peer
peer_eq = record { beq = peer_beq; beq_iff = peer_beq_iff }

-- The body of `arrive` and `release`. The arrival is a decimal text without leading zeros in the
-- JSON, and is the number that it stands for here.
pub record Identity : Type 0 where
  pub invocation : String
  pub worker : String
  pub arrival : ℕ
  pub point : String

unfoldable pub identity_beq : Identity → Identity → Bool
identity_beq a b =
    a.invocation == b.invocation
    && (a.worker == b.worker && (a.arrival == b.arrival && a.point == b.point))

pub identity_beq_iff : (a b : Identity) → (identity_beq a b ≡ true) ↔ (a ≡ b)
unfolding identity_beq
identity_beq_iff a b = ground (
  arith,
  string_eq.beq_iff a.invocation b.invocation,
  string_eq.beq_iff a.worker b.worker,
  string_eq.beq_iff a.point b.point,
)

instance abbrev pub identity_eq : Eq Identity
identity_eq = record { beq = identity_beq; beq_iff = identity_beq_iff }

-- `d.get(k) == b` on identities.
abbrev pub same_body : Option Identity → Identity → Bool
same_body none b = false
same_body (some a) b = a == b

pub same_body_eq : (o : Option Identity) (b : Identity) → same_body o b ≡ true → o ≡ some b
same_body_eq none b h = cc
same_body_eq (some a) b h = ap some ((identity_beq_iff a b).0 h)

-- `returned.get(invocation) == (body, 'nil')`.
abbrev pub returned_nil : Option (Identity × String) → Identity → Bool
returned_nil none b = false
returned_nil (some (a, r)) b = a == b && r == "nil"

pub returned_nil_eq :
    (o : Option (Identity × String)) (b : Identity) → returned_nil o b ≡ true → o ≡ some (b, "nil")
returned_nil_eq none b h = cc
returned_nil_eq (some (a, r)) b h = ground (arith, identity_beq_iff a b, string_eq.beq_iff r "nil")

pub record WireError : Type 0 where
  pub kind : String
  pub message : String
  pub mysql_code : ℕ
  pub sql_state : String

pub record Terminal : Type 0 where
  pub invocation : String
  pub worker : String
  pub transaction : String
  pub connection : String
  pub error : Option WireError

pub record Database : Type 0 where
  pub driver : String
  pub host : String
  pub port : ℕ
  pub name : String
  pub username : String
  pub password : String

pub record Start : Type 0 where
  pub variant : String
  pub params : List (String × String)
  pub commands : List String
  pub points : List String
  pub capacity : ℕ
  pub database : Database
  pub startup_ms : ℕ
  pub cancel_ms : ℕ

pub record Ready : Type 0 where
  pub commands : List String
  pub points : List String
  pub capacity : ℕ

pub data Body : Type 0 where
  start : Start → Body
  ready : Ready → Body
  invoke : (invocation worker command : String) → Body
  accepted : (invocation worker : String) → Body
  arrive : Identity → Body
  release : Identity → Body
  terminal : Terminal → Body
  cancel : (invocation worker reason : String) → Body
  stop : (budget_ms : ℕ) → Body
  stopped : Body
  fatal : (kind message : String) → Body

-- `payload` is the compact JSON text of the frame, `json.dumps(f, separators=(',', ':'))`.
pub record Frame : Type 0 where
  pub v : ℕ
  pub run : String
  pub session : String
  pub seq : ℕ
  pub body : Body
  pub payload : String

-- Equality of the JSON values.
list_beq : List String → List String → Bool
list_beq [] [] = true
list_beq (x ∷ xs) (y ∷ ys) = x == y && list_beq xs ys
list_beq _ _ = false

unfoldable pub ready_beq : Ready → Ready → Bool
unfolding list_beq
ready_beq a b =
    list_beq a.commands b.commands && (list_beq a.points b.points && a.capacity == b.capacity)

params_beq : List (String × String) → List (String × String) → Bool
params_beq [] [] = true
params_beq ((j, v) ∷ xs) ((k, w) ∷ ys) = j == k && (v == w && params_beq xs ys)
params_beq _ _ = false

database_beq : Database → Database → Bool
database_beq a b =
    a.driver == b.driver
    && (a.host == b.host
        && (a.port == b.port
            && (a.name == b.name && (a.username == b.username && a.password == b.password))))

-- The fields of `start` that `ready` repeats.
abbrev pub start_ready : Start → Ready
start_ready s = record { commands = s.commands; points = s.points; capacity = s.capacity }

unfoldable pub start_beq : Start → Start → Bool
unfolding params_beq database_beq ready_beq
start_beq a b =
    a.variant == b.variant
    && (params_beq a.params b.params
        && (ready_beq (start_ready a) (start_ready b)
            && (database_beq a.database b.database
                && (a.startup_ms == b.startup_ms && a.cancel_ms == b.cancel_ms))))

error_beq : Option WireError → Option WireError → Bool
error_beq none none = true
error_beq (some a) (some b) =
    a.kind == b.kind
    && (a.message == b.message && (a.mysql_code == b.mysql_code && a.sql_state == b.sql_state))
error_beq _ _ = false

unfoldable pub terminal_beq : Terminal → Terminal → Bool
unfolding error_beq
terminal_beq a b =
    a.invocation == b.invocation
    && (a.worker == b.worker
        && (a.transaction == b.transaction
            && (a.connection == b.connection && error_beq a.error b.error)))
