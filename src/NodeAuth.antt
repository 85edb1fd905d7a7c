-- ===== src/NodeAuth.antt =====
-- apps/control-plane/src/rpc/node-auth.ts: the signed header of a node, and the nonces in Redis.
-- Text is a list of code points. The two clocks, that of the check and that of Redis, are arguments.
pub mod Reference
pub mod Accept
pub mod Replay
pub mod Header
mod Tests
use llm_hub.Base.{
  ℕ, ◌+◌, ◌*◌, ◌<◌, ◌≡◌, String, ◌==◌, Bool, true, false, not, ◌||◌, Option, none, some, List, [],
  ◌∷◌, ◌++◌, eqb, if◌then◌else◌,
}
use llm_hub.Base.Int.{ℤ, pos, ◌+ℤ◌, ◌≤ℤ◌}
use llm_hub.Base.Text.{codes}
use llm_hub.Env.{Env}
use llm_hub.Result.{Result, ok, err, ◌>>=◌}
use llm_hub.Schema.{NodeRow, Db}
use llm_hub.Sql.{Sql}
use llm_hub.Uuid.{is_uuid}

-- `SET key value PX ttl NX` of Redis: the answer is whether the key was set. A key is held until
-- its time to live has passed; other clients use other keys.
pub record Redis : Type 1 where
  pub Store : Type 0
  pub holds : List ℕ → ℤ → Store → Bool
  pub set_nx : ℤ → List ℕ → ℕ → Store → Store × Bool
  pub set_nx-holds :
      (now : ℤ) (key : List ℕ) (ttl : ℕ) (s : Store)
      → (set_nx now key ttl s).1 ≡ not (holds key now s)
  pub set_nx_refused :
      (now : ℤ) (key : List ℕ) (ttl : ℕ) (s : Store)
      → (set_nx now key ttl s).1 ≡ false
      → (set_nx now key ttl s).0 ≡ s
  pub set_nx_done :
      (now later : ℤ) (key : List ℕ) (ttl : ℕ) (s : Store)
      → 0 < ttl
      → (set_nx now key ttl s).1 ≡ true
      → later ≤ℤ now +ℤ pos ttl
      → holds key later (set_nx now key ttl s).0 ≡ true
  pub set_nx_keeps :
      (now later : ℤ) (key other : List ℕ) (ttl : ℕ) (s : Store)
      → holds other later s ≡ true
      → holds other later (set_nx now key ttl s).0 ≡ true

-- What the code uses of JavaScript, of node:crypto and of Postgres.
pub record Platform : Type 1 where
  -- `Number(text)`; `none` is a value that is not finite.
  pub Time : Type 0
  pub number : List ℕ → Option Time
  -- `Math.abs(now - at) > skew`
  pub is_off : ℤ → Time → ℕ → Bool
  pub is_off_lem :
      (now later : ℤ) (at : Time) (skew : ℕ)
      → is_off now at skew ≡ false
      → is_off later at skew ≡ false
      → later ≤ℤ now +ℤ pos (skew * 2)
  -- `Buffer.from(text)` and `Buffer.from(text, "base64url")`
  pub utf8 : List ℕ → List ℕ
  pub base64url : List ℕ → List ℕ
  -- `createPublicKey` and `verify`; `none` is an exception.
  pub Key : Type 0
  pub create_public_key : List ℕ → Option Key
  pub verify : List ℕ → Key → List ℕ → Option Bool
  -- How Postgres reads a uuid.
  pub uuid_in : List ℕ → String

pub data NodeAuthError : Type 0 where
  missing_header malformed_header malformed_node_id malformed_timestamp : NodeAuthError
  stale_timestamp unknown_node invalid_stored_key invalid_signature replayed : NodeAuthError

abbrev pub message : NodeAuthError → String
message missing_header = "missing node authorization header"
message malformed_header = "malformed node authorization header"
message malformed_node_id = "malformed node id"
message malformed_timestamp = "malformed timestamp"
message stale_timestamp = "timestamp outside the accepted window"
message unknown_node = "unknown node"
message invalid_stored_key = "stored node key is invalid"
message invalid_signature = "invalid signature"
message replayed = "replayed authorization header"

abbrev pub node_auth_scheme : List ℕ
node_auth_scheme = codes "ModelHubNode "

abbrev pub spki_ed25519_prefix : List ℕ
spki_ed25519_prefix =
    0x30 ∷ 0x2a ∷ 0x30 ∷ 0x05 ∷ 0x06 ∷ 0x03 ∷ 0x2b ∷ 0x65 ∷ 0x70 ∷ 0x03 ∷ 0x21 ∷ 0x00 ∷ []

-- The four fields of the header.
pub record Fields : Type 0 where
  pub node_id : List ℕ
  pub millis : List ℕ
  pub nonce : List ℕ
  pub signature : List ℕ

pub record NodeIdentity : Type 0 where
  pub node_id : List ℕ
  pub org_id : String

-- `header.slice(prefix.length)`, if the header starts with the prefix
unfoldable pub strip : List ℕ → List ℕ → Option (List ℕ)
strip [] cs = some cs
strip (p ∷ ps) [] = none
strip (p ∷ ps) (c ∷ cs) = let rest = strip ps cs in if eqb p c then rest else none

abbrev pub extend : ℕ → List (List ℕ) → List (List ℕ)
extend c [] = (c ∷ []) ∷ []
extend c (part ∷ parts) = (c ∷ part) ∷ parts

-- `text.split(separator)`
unfoldable pub split : ℕ → List ℕ → List (List ℕ)
split sep [] = [] ∷ []
split sep (c ∷ cs) = let rest = split sep cs in if eqb c sep then [] ∷ rest else extend c rest

abbrev pub is_empty : List ℕ → Bool
is_empty [] = true
is_empty (c ∷ cs) = false

unfoldable pub fields_of : List (List ℕ) → Result NodeAuthError Fields
fields_of (a ∷ b ∷ c ∷ d ∷ []) =
    if is_empty a || (is_empty b || (is_empty c || is_empty d))
    then err malformed_header
    else ok (record { node_id = a; millis = b; nonce = c; signature = d })
fields_of _ = err malformed_header

unfoldable pub parse_header : Option (List ℕ) → Result NodeAuthError Fields
parse_header none = err missing_header
parse_header (some header) = elim (strip node_auth_scheme header) [
  | none ↦ err missing_header
  | some rest ↦ fields_of (split b'.' rest)
]

-- What the signature is over.
abbrev pub signed_text : Fields → List ℕ
signed_text f = f.node_id ++ (b'.' ∷ f.millis ++ (b'.' ∷ f.nonce))

abbrev pub nonce_key : Fields → List ℕ
nonce_key f = codes "nodeauth:" ++ (f.node_id ++ (b':' ∷ f.nonce))

module _ (js : Platform) (sql : Sql) (env : Env) where
  unfoldable pub check_node_id : Fields → Result NodeAuthError Fields
  check_node_id f = if is_uuid f.node_id then ok f else err malformed_node_id

  unfoldable pub check_time : ℤ → Fields → Result NodeAuthError Fields
  check_time now f = elim (js.number f.millis) [
    | none ↦ err malformed_timestamp
    | some at ↦ if js.is_off now at env.node_auth_skew_ms then err stale_timestamp else ok f
  ]

  abbrev pub is_named : Fields → NodeRow → Bool
  is_named f n = n.id == js.uuid_in f.node_id

  unfoldable pub find_node : Fields → Db → Result NodeAuthError NodeRow
  find_node f db = elim (sql.first (is_named f) db.nodes) [
    | none ↦ err unknown_node
    | some row ↦ ok row
  ]

  unfoldable pub check_signature : Fields → NodeRow → Result NodeAuthError NodeIdentity
  check_signature f row = elim (js.create_public_key (spki_ed25519_prefix ++ row.public_key)) [
    | none ↦ err invalid_stored_key
    | some key ↦ elim (js.verify (js.utf8 (signed_text f)) key (js.base64url f.signature)) [
      | none ↦ err invalid_signature
      | some false ↦ err invalid_signature
      | some true ↦ ok (record { node_id = f.node_id; org_id = row.org_id })
    ]
  ]

  -- Every check but the last, which alone writes.
  unfoldable pub verify_header :
      ℤ → Option (List ℕ) → Db → Result NodeAuthError (Fields × NodeIdentity)
  verify_header now header db = do
    f ← parse_header header
    checked ← check_node_id f
    timely ← check_time now f
    row ← find_node f db
    who ← check_signature f row
    ok (f, who)

  module _ (redis : Redis) where
    abbrev pub use_nonce :
        ℤ
        → Result NodeAuthError (Fields × NodeIdentity)
        → redis.Store
        → redis.Store × Result NodeAuthError NodeIdentity
    use_nonce stored (err e) store = (store, err e)
    use_nonce stored (ok (f, who)) store =
        let (after, fresh) = redis.set_nx stored (nonce_key f) (env.node_auth_skew_ms * 2) store in
        (after, (if fresh then ok who else err replayed))

    -- `now` is the clock at the check of the timestamp, `stored` that of Redis at the SET.
    unfoldable pub authenticate_node :
        ℤ → ℤ → Option (List ℕ) → Db → redis.Store → redis.Store × Result NodeAuthError NodeIdentity
    authenticate_node now stored header db store =
        use_nonce stored (verify_header now header db) store
