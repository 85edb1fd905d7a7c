-- ===== src/Enrollment/Joined.antt =====
-- `enrollNode` of domain/nodes.ts: the row that an accepted enrollment leaves.
use llm_hub.Base.{
  ◌≡◌, refl, String, List, [], ◌∷◌, ◌++◌, any, eqb, length, Memᴰ, arith, Bool-cases, Option-cases,
  inl, inr,
}
use llm_hub.Base.Int.{ℤ}
use llm_hub.Enrollment.{EnrollInput, has_key, new_node, insert_node, after_redeem, enroll_node}
use llm_hub.Env.{Env}
use llm_hub.Pairing.{Unicode, Hmac, PairingError, Redeemed, redeem_pairing_code}
use llm_hub.Proto.{EnrollResponse}
use llm_hub.Result.{Result, ok, err}
use llm_hub.Schema.{NodeRow, Db}
use llm_hub.Sql.{Sql}
use llm_hub.Storable.{refuses_node}
use llm_hub.Sql.Facts.{insert-taken, insert-free}

-- The node of an answer, with the key that was sent.
abbrev pub Joined : EnrollInput → EnrollResponse → Db → Type 0
Joined input answer db =
    (n : NodeRow) × Memᴰ n db.nodes
    × (n.id ≡ answer.node_id)
    × (n.org_id ≡ answer.org_id)
    × (n.public_key ≡ input.public_key)

pub last-member : (n : NodeRow) (rows : List NodeRow) → Memᴰ n (rows ++ n ∷ [])
last-member n [] = Memᴰ.head refl
last-member n (r ∷ rows) = Memᴰ.tail (last-member n rows)

module _ (unicode : Unicode) (hmac : Hmac) (sql : Sql) (env : Env) where
  insert-Joined :
      (id : String) (input : EnrollInput) (claim : Redeemed) (db : Db) (answer : EnrollResponse)
      → (insert_node unicode hmac sql env id input claim db).1 ≡ ok answer
      → Joined input answer (insert_node unicode hmac sql env id input claim db).0
  unfolding insert_node
  insert-Joined id input claim db answer h =
      let key = has_key input.public_key in
      let new = new_node id input claim in
      elim (Bool-cases (refuses_node new)) [
        | inl bad ↦ absurd (ground (arith, bad, h))
        | inr good ↦ elim (Bool-cases (any key db.nodes)) [
          | inl taken ↦ absurd (ground (arith, good, insert-taken sql key new db.nodes taken, h))
          | inr free ↦
              let stored = insert-free sql key new db.nodes free in
              let named : id ≡ answer.node_id = ground (arith, good, stored, h) in
              let placed : claim.org_id ≡ answer.org_id = ground (arith, good, stored, h) in
              rw (good, stored, insert_node) (new, last-member new db.nodes, named, placed, refl)
        ]
      ]

  redeemed-Joined :
      (others : Db → Db) (id : String) (input : EnrollInput) (r : Db × Result PairingError Redeemed)
      (answer : EnrollResponse)
      → (after_redeem unicode hmac sql env others id input r).1 ≡ ok answer
      → Joined input answer (after_redeem unicode hmac sql env others id input r).0
  unfolding after_redeem
  redeemed-Joined others id input (db, err e) answer h = cc
  redeemed-Joined others id input (db, ok claim) answer h =
      insert-Joined id input claim (others db) answer h

  -- An accepted enrollment leaves the node that the answer names, with the key that was sent.
  pub enroll_node-Joined :
      (others : Db → Db) (claimed checked : ℤ) (id : String) (input : EnrollInput) (db : Db)
      (answer : EnrollResponse)
      → (enroll_node unicode hmac sql env others claimed checked id input db).1 ≡ ok answer
      → Joined input answer (enroll_node unicode hmac sql env others claimed checked id input db).0
  unfolding enroll_node
  enroll_node-Joined others claimed checked id input db answer h =
      let r = redeem_pairing_code unicode hmac sql env claimed checked input.pairing_code db in
      let done = redeemed-Joined others id input r answer in
      elim (Bool-cases (eqb (length input.public_key) 32)) [
        | inr short ↦ absurd (ground (arith, short, h))
        | inl long ↦ elim (Option-cases (sql.first (has_key input.public_key) db.nodes)) [
          | inr (n, found) ↦ absurd (ground (arith, long, found, h))
          | inl missing ↦
              let at : enroll_node unicode hmac sql env others claimed checked id input db
                  ≡ after_redeem unicode hmac sql env others id input r =
                ground (arith, long, missing) in
              rw at (done (rw at at h))
        ]
      ]
