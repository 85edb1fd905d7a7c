-- ===== src/Agent/Fresh.antt =====
-- The agent's header before the control plane's `authenticateNode`: what both sides' cryptography
-- and number formats have to share, and what a fresh header then gets.
use llm_hub.Agent.{Ed25519, IsByte}
use llm_hub.Agent.Base64.{encode}
use llm_hub.Agent.Header.{payload, auth_header, header_fields, parse-auth_header}
use llm_hub.Base.{
  ℕ, ◌*◌, ◌^◌, ◌<◌, ◌≡◌, ◌==◌, eq_iff, refl, sym, ap, ◌∙◌, String, Bool, true, false, ◌&&◌, some,
  List, [], ◌∷◌, ◌++◌, any, All, Memᴰ, length, arith, Bool-cases, Option-cases, inl, inr, any-none,
  eq_refl,
}
use llm_hub.Base.Distinct.{Distinct}
use llm_hub.Base.Int.{ℤ, pos, ◌+ℤ◌, ◌≤ℤ◌}
use llm_hub.Enrollment.{has_key, key_eq}
use llm_hub.Env.{Env}
use llm_hub.Inventory.{is_node}
use llm_hub.NodeAuth.{
  Redis, Platform, spki_ed25519_prefix, nonce_key, is_named, check_node_id, check_time, find_node,
  check_signature, verify_header, authenticate_node,
}
use llm_hub.Number.{print}
use llm_hub.Pairing.{Unicode, Hmac}
use llm_hub.Result.{ok}
use llm_hub.Schema.{NodeRow, Db}
use llm_hub.Sql.{Sql}
use llm_hub.System.{Steps}
use llm_hub.System.Enrolled.{IsLasting, Steps-any, any-member}
use llm_hub.System.Invariant.{Steps-WellFormed}
use llm_hub.System.WellFormed.{WellFormed}
use llm_hub.Uuid.{is_uuid}

-- The standards that Go's packages and the control plane's runtime implement alike.
pub record Agrees (go : Ed25519) (js : Platform) : Type 0 where
  -- RFC 4648: an encoded byte string is decoded to itself.
  pub decoded : (bs : List ℕ) → All IsByte bs → js.base64url (encode bs) ≡ bs
  -- UTF-8
  pub same_bytes : (text : List ℕ) → js.utf8 text ≡ go.bytes text
  -- RFC 8410: the prefix before the raw bytes of a public key is its encoding, and RFC 8032: that
  -- key verifies what the private one signed.
  pub verified :
      (priv : go.PrivateKey) (text : List ℕ)
      → (key : js.Key) × (js.create_public_key (spki_ed25519_prefix ++ go.public priv) ≡ some key)
        × (js.verify text key (go.sign priv text) ≡ some true)
  -- A printed natural number below 2 ^ 53 is read exactly, and is off by what it differs.
  pub dated :
      (n : ℕ)
      → n < 2 ^ 53
      → (at : js.Time) × (js.number (print n) ≡ some at)
        × ((now : ℤ) (skew : ℕ)
            → pos n ≤ℤ now +ℤ pos skew
            → now ≤ℤ pos n +ℤ pos skew
            → js.is_off now at skew ≡ false)

key_eq-eq : (a b : List ℕ) → key_eq a b ≡ true → a ≡ b
unfolding key_eq
key_eq-eq [] [] h = refl
key_eq-eq [] (b ∷ ys) h = cc
key_eq-eq (a ∷ xs) [] h = cc
key_eq-eq (a ∷ xs) (b ∷ ys) h = ground (arith, key_eq-eq xs ys, h)

key_eq_refl : (a : List ℕ) → key_eq a a ≡ true
unfolding key_eq
key_eq_refl [] = refl
key_eq_refl (x ∷ a) = ground (arith, key_eq_refl a)

-- The row of that id, organization and key.
abbrev pub is_bound : String → String → List ℕ → NodeRow → Bool
is_bound org id key n = n.id == id && (n.org_id == org && has_key key n)

-- Where ids are unique, whatever row of the id is found is the one of the organization and key.
found-is_bound :
    (org id : String) (key : List ℕ) (rows : List NodeRow) (r : NodeRow)
    → Distinct (λ (n m : NodeRow). is_node n.id m) rows
    → any (is_bound org id key) rows ≡ true
    → Memᴰ r rows
    → r.id ≡ id
    → is_bound org id key r ≡ true
found-is_bound org id key [] r d h m same = cc
found-is_bound org id key (n ∷ rows) r d h (Memᴰ.head e) same =
    elim (Bool-cases (is_bound org id key n)) [
      | inl here ↦ rw e here
      | inr other ↦ absurd (
          cc (
            later rows (ground (arith, h, other)),
            rw (ap (λ (x : NodeRow). x.id) (sym e) ∙ same) at d.0,
          ))
    ]
  where
    later :
        (rows : List NodeRow) → any (is_bound org id key) rows ≡ true → any (is_node id) rows ≡ true
    later [] h = cc
    later (n ∷ rows) h = ground (arith, later rows, h)
found-is_bound org id key (n ∷ rows) r d h (Memᴰ.tail m) same = elim (Bool-cases (n.id == id)) [
  | inl here ↦
      let at : n.id ≡ id = (eq_iff n.id id).0 here in
      let there : any (is_node id) rows ≡ true =
        any-member (is_node id) r rows (ground (arith, same, eq_iff r.id id)) m in
      absurd (cc (rw at at d.0, there))
  | inr other ↦ found-is_bound org id key rows r d.1 (ground (arith, h, other)) m same
]

module _ (go : Ed25519) (js : Platform) (sql : Sql) (env : Env) (agrees : Agrees go js) where
  module _ (node_id : List ℕ) (priv : go.PrivateKey) (sent : ℕ) (raw : List ℕ) where
    timely-ok :
        (now : ℤ)
        → sent < 2 ^ 53
        → pos sent ≤ℤ now +ℤ pos env.node_auth_skew_ms
        → now ≤ℤ pos sent +ℤ pos env.node_auth_skew_ms
        → let f = header_fields go node_id priv (pos sent) raw in check_time js sql env now f ≡ ok f
    unfolding check_time
    timely-ok now small late early =
        let (at, read, near) = agrees.dated sent small in
        rw (read, near now env.node_auth_skew_ms late early, check_time)

    found-ok :
        (org : String) (db : Db)
        → WellFormed db
        → any (is_bound org (js.uuid_in node_id) (go.public priv)) db.nodes ≡ true
        → let f = header_fields go node_id priv (pos sent) raw in
          (row : NodeRow) × (find_node js sql env f db ≡ ok row)
          × (row.public_key ≡ go.public priv)
          × (row.org_id ≡ org)
    unfolding find_node
    found-ok org db w bound =
        let f = header_fields go node_id priv (pos sent) raw in
        elim (Option-cases (sql.first (is_named js sql env f) db.nodes)) [
          | inl missing ↦ absurd (
              cc (
                none_named org db.nodes bound,
                any-none (is_named js sql env f) db.nodes
                    (sql.first-none (is_named js sql env f) db.nodes missing),
              ))
          | inr (row, found) ↦
              let (named, listed) = sql.first-some (is_named js sql env f) db.nodes row found in
              let id = js.uuid_in node_id in
              let hit =
                found-is_bound org id (go.public priv) db.nodes row w.ids bound listed
                  ((eq_iff row.id id).0 named) in
              (
                row,
                rw (found, find_node),
                key_eq-eq row.public_key (go.public priv) (ground (arith, hit)),
                (eq_iff row.org_id org).0 (ground (arith, hit)),
              )
        ]
      where
        none_named :
            (org : String) (rows : List NodeRow)
            → any (is_bound org (js.uuid_in node_id) (go.public priv)) rows ≡ true
            → any (λ (n : NodeRow). n.id == js.uuid_in node_id) rows ≡ true
        none_named org [] h = cc
        none_named org (n ∷ rows) h = ground (arith, none_named org rows, h)

    signed-ok :
        (row : NodeRow)
        → row.public_key ≡ go.public priv
        → check_signature js sql env (header_fields go node_id priv (pos sent) raw) row
          ≡ ok (record { node_id = node_id; org_id = row.org_id })
    unfolding check_signature
    signed-ok row same =
        let text = payload go node_id (pos sent) raw in
        let (key, made, valid) = agrees.verified priv (go.bytes text) in
        let bytes =
          agrees.decoded (go.sign priv (go.bytes text)) (go.sign_bytes priv (go.bytes text)) in
        rw (same, made, agrees.same_bytes text, bytes, valid, check_signature)

    verified-ok :
        (now : ℤ) (org : String) (db : Db)
        → is_uuid node_id ≡ true
        → 0 < length raw
        → sent < 2 ^ 53
        → pos sent ≤ℤ now +ℤ pos env.node_auth_skew_ms
        → now ≤ℤ pos sent +ℤ pos env.node_auth_skew_ms
        → WellFormed db
        → any (is_bound org (js.uuid_in node_id) (go.public priv)) db.nodes ≡ true
        → verify_header js sql env now (some (auth_header go node_id priv (pos sent) raw)) db
          ≡ ok (
            header_fields go node_id priv (pos sent) raw,
            record { node_id = node_id; org_id = org },
          )
    unfolding verify_header check_node_id
    verified-ok now org db shaped random small late early w bound =
        let (row, found, same, its) = found-ok org db w bound in
        rw (
          parse-auth_header go node_id priv (pos sent) raw shaped random,
          shaped,
          timely-ok now small late early,
          found,
          signed-ok row same,
          its,
        )

    module _ (unicode : Unicode) (hmac : Hmac) (redis : Redis) (now stored : ℤ)
        (store : redis.Store) where
      -- A header that an agent makes is accepted as its node, with the node's organization: its
      -- key is that of a row that was in well-formed tables under its id, whatever calls and
      -- sweeps ran since; its id has the shape of a uuid, its nonce is not empty and not held in
      -- Redis, and its clock, before 2 ^ 53 milliseconds, is within the window of the check's.
      -- Hypotheses: both sides implement the same standards of base64url, UTF-8, Ed25519 and
      -- decimal numbers.
      pub fresh_header_accepted :
          {a b : Db} (row : NodeRow)
          → WellFormed a
          → Memᴰ row a.nodes
          → row.id ≡ js.uuid_in node_id
          → row.public_key ≡ go.public priv
          → Steps unicode hmac sql env a b
          → is_uuid node_id ≡ true
          → 0 < length raw
          → sent < 2 ^ 53
          → pos sent ≤ℤ now +ℤ pos env.node_auth_skew_ms
          → now ≤ℤ pos sent +ℤ pos env.node_auth_skew_ms
          → redis.holds (nonce_key (header_fields go node_id priv (pos sent) raw)) stored store
            ≡ false
          → (authenticate_node js sql env redis now stored
              (some (auth_header go node_id priv (pos sent) raw))
              b
              store).1
            ≡ ok (record { node_id = node_id; org_id = row.org_id })
      unfolding authenticate_node
      fresh_header_accepted {a} {b} row w listed id key run shaped random small late early unused =
          let q = is_bound row.org_id (js.uuid_in node_id) (go.public priv) in
          let first : any q a.nodes ≡ true =
            any-member q row a.nodes
              (rw (id, key)
                (ground (
                  arith,
                  eq_refl (js.uuid_in node_id),
                  eq_refl row.org_id,
                  key_eq_refl (go.public priv),
                )))
              listed in
          let lasting : IsLasting unicode hmac sql env q = record {
            of_status = λ status n. refl;
            of_greeting = λ now host n. refl;
            of_sample = λ now n. refl;
          } in
          let last = Steps-any unicode hmac sql env q lasting run first in
          let good =
            verified-ok now row.org_id b shaped random small late early
              (Steps-WellFormed unicode hmac sql env run w) last in
          let f = header_fields go node_id priv (pos sent) raw in
          let set : (redis.set_nx stored (nonce_key f) (env.node_auth_skew_ms * 2) store).1 ≡ true =
            rw unused at
              (redis.set_nx-holds stored (nonce_key f) (env.node_auth_skew_ms * 2) store) in
          rw (good, set, authenticate_node)
