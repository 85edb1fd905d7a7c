-- ===== src/Enrollment/Keys.antt =====
-- `enrollNode` of domain/nodes.ts and the public keys of the nodes.
use llm_hub.Base.{
  ℕ, ◌≡◌, refl, ap, String, false, List, [], ◌∷◌, ◌++◌, any, eqb, length, arith, Bool-cases, inl,
  inr, Option-cases,
}
use llm_hub.Base.Distinct.{Distinct, Distinct-snoc}
use llm_hub.Base.Int.{ℤ}
use llm_hub.Env.{Env}
use llm_hub.Result.{Result, ok, err}
use llm_hub.Schema.{NodeRow, Db}
use llm_hub.Sql.{Sql}
use llm_hub.Storable.{refuses_node}
use llm_hub.Pairing.{Unicode, Hmac, PairingError, Redeemed, redeem_pairing_code}
use llm_hub.Sql.Facts.{insert-taken, insert-free}
use llm_hub.Pairing.Redeem.{redeem-tables}
use llm_hub.Enrollment.{
  EnrollInput, key_eq, has_key, new_node, insert_node, after_redeem, enroll_node,
}

pub key_eq_comm : (a b : List ℕ) → key_eq a b ≡ key_eq b a
unfolding key_eq
key_eq_comm [] [] = refl
key_eq_comm [] (b ∷ ys) = refl
key_eq_comm (a ∷ xs) [] = refl
key_eq_comm (a ∷ xs) (b ∷ ys) = ground (arith, key_eq_comm xs ys)

-- No two rows have the same key.
abbrev pub KeysDistinct : List NodeRow → Type 0
KeysDistinct = Distinct (λ n m. has_key n.public_key m)

pub KeysDistinct-append :
    (rows : List NodeRow) (n : NodeRow)
    → KeysDistinct rows
    → any (has_key n.public_key) rows ≡ false
    → KeysDistinct (rows ++ n ∷ [])
KeysDistinct-append rows n =
    Distinct-snoc (λ n m. has_key n.public_key m) rows n
      (λ m. key_eq_comm n.public_key m.public_key)

module _ (unicode : Unicode) (hmac : Hmac) (sql : Sql) (env : Env) where
  insert-KeysDistinct :
      (id : String) (input : EnrollInput) (claim : Redeemed) (db : Db)
      → KeysDistinct db.nodes
      → KeysDistinct (insert_node unicode hmac sql env id input claim db).0.nodes
  unfolding insert_node
  insert-KeysDistinct id input claim db d =
      let key = input.public_key in
      let new = new_node id input claim in
      elim (Bool-cases (refuses_node new)) [
        | inl bad ↦ rw (bad, insert_node) d
        | inr good ↦ elim (Bool-cases (any (has_key key) db.nodes)) [
          | inl taken ↦
              rw
                (
                  good,
                  insert-taken sql (has_key key) (new_node id input claim) db.nodes taken,
                  insert_node,
                )
                d
          | inr free ↦
              rw
                (
                  good,
                  insert-free sql (has_key key) (new_node id input claim) db.nodes free,
                  insert_node,
                )
                (KeysDistinct-append db.nodes (new_node id input claim) d free)
        ]
      ]

  after_redeem-KeysDistinct :
      (others : Db → Db) (id : String) (input : EnrollInput) (r : Db × Result PairingError Redeemed)
      → ((d : Db) → KeysDistinct d.nodes → KeysDistinct (others d).nodes)
      → KeysDistinct r.0.nodes
      → KeysDistinct (after_redeem unicode hmac sql env others id input r).0.nodes
  unfolding after_redeem
  after_redeem-KeysDistinct others id input (db, err e) fair d = d
  after_redeem-KeysDistinct others id input (db, ok claim) fair d =
      insert-KeysDistinct id input claim (others db) (fair db d)

  -- No two nodes ever have the same public key: enrolling keeps the keys of the nodes distinct,
  -- whatever other sessions commit in between, as long as they keep them distinct too.
  pub enroll_node-KeysDistinct :
      (others : Db → Db) (claimed checked : ℤ) (id : String) (input : EnrollInput) (db : Db)
      → ((d : Db) → KeysDistinct d.nodes → KeysDistinct (others d).nodes)
      → KeysDistinct db.nodes
      → KeysDistinct (enroll_node unicode hmac sql env others claimed checked id input db).0.nodes
  unfolding enroll_node
  enroll_node-KeysDistinct others claimed checked id input db fair d =
      let redeemed =
        redeem_pairing_code unicode hmac sql env claimed checked input.pairing_code db in
      let kept : KeysDistinct redeemed.0.nodes =
        rw
          (ap (λ (x : Db). x.nodes)
            (redeem-tables unicode hmac sql env claimed checked input.pairing_code db))
          d in
      let done = after_redeem-KeysDistinct others id input redeemed fair kept in
      elim (Bool-cases (eqb (length input.public_key) 32)) [
        | inr short ↦ rw (short, enroll_node) d
        | inl long ↦ elim (Option-cases (sql.first (has_key input.public_key) db.nodes)) [
          | inl fresh ↦ rw (long, fresh, enroll_node) done
          | inr (n, found) ↦ rw (long, found, enroll_node) d
        ]
      ]
