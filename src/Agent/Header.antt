-- ===== src/Agent/Header.antt =====
-- agent/internal/transport/client.go, `AuthHeader`, and `nodeAuthHeader` of
-- apps/control-plane/src/test-helpers.ts.
use llm_hub.Agent.{Ed25519}
use llm_hub.Agent.Base64.{encode, encode_dot}
use llm_hub.Base.{
  ℕ, zero, suc, ◌+◌, ◌/◌, ◌%◌, ◌<◌, ◌≡◌, refl, ap, true, false, some, List, [], ◌∷◌, ◌++◌, any, ltb,
  eqb, length, arith, Bool-cases, inl, inr, Option-cases, ◌∙◌,
}
use llm_hub.Base.Int.{ℤ, pos, negsuc}
use llm_hub.NodeAuth.{Fields, node_auth_scheme, is_empty, parse_header}
use llm_hub.NodeAuth.Header.{dotted, IsField, parse_header_iff}
use llm_hub.Number.{print, print_onto}
use llm_hub.Result.{ok}
use llm_hub.Uuid.{is_uuid, is_grouped, after_hex, is_hex}
use mathlib.Core.List.{append_assoc}

-- `%d`
abbrev pub print_ℤ : ℤ → List ℕ
print_ℤ (pos n) = print n
print_ℤ (negsuc n) = b'-' ∷ print (suc n)

module _ (go : Ed25519) where
  -- `raw` is what the random generator fills in.
  abbrev pub payload : List ℕ → ℤ → List ℕ → List ℕ
  payload node_id now raw = node_id ++ b'.' ∷ (print_ℤ now ++ b'.' ∷ encode raw)

  unfoldable pub auth_header : List ℕ → go.PrivateKey → ℤ → List ℕ → List ℕ
  auth_header node_id priv now raw =
      let text = payload node_id now raw in
      let signature = encode (go.sign priv (go.bytes text)) in
      node_auth_scheme ++ (text ++ b'.' ∷ signature)

  -- `nodeAuthHeader(nodeId, privateKey, atMs, nonce)` of the tests, which signs by node:crypto.
  unfoldable pub node_auth_header : List ℕ → go.PrivateKey → ℤ → List ℕ → List ℕ
  node_auth_header node_id priv at_ms nonce =
      let payload =
        node_id ++ (b'.' ∷ []) ++ print_ℤ at_ms ++ (b'.' ∷ []) ++ encode (go.bytes nonce) in
      node_auth_scheme ++ payload ++ (b'.' ∷ []) ++ encode (go.sign priv (go.bytes payload))

  -- The fields that the control plane reads out of the header.
  abbrev pub header_fields : List ℕ → go.PrivateKey → ℤ → List ℕ → Fields
  header_fields node_id priv now raw = record {
    node_id = node_id;
    millis = print_ℤ now;
    nonce = encode raw;
    signature = encode (go.sign priv (go.bytes (payload node_id now raw)));
  }

print_onto_dot :
    (fuel n : ℕ) (out : List ℕ)
    → any (λ c. eqb c b'.') out ≡ false
    → any (λ c. eqb c b'.') (print_onto fuel n out) ≡ false
unfolding print_onto
print_onto_dot zero n out h = h
print_onto_dot (suc fuel) n out h = elim (Bool-cases (ltb n 10)) [
  | inl small ↦ rw small (ground (arith, h))
  | inr large ↦ rw large (print_onto_dot fuel (n / 10) ((b'0' + n % 10) ∷ out) (ground (arith, h)))
]

print_onto-is_empty :
    (fuel n : ℕ) (out : List ℕ) → is_empty out ≡ false → is_empty (print_onto fuel n out) ≡ false
unfolding print_onto
print_onto-is_empty zero n out h = h
print_onto-is_empty (suc fuel) n out h =
    let rest = print_onto-is_empty fuel (n / 10) ((b'0' + n % 10) ∷ out) refl in
    elim (Bool-cases (ltb n 10)) [ inl small ↦ rw small refl | inr large ↦ rw large rest ]

print-IsField : (n : ℕ) → IsField (print n)
unfolding print print_onto
print-IsField n = (
  elim (Bool-cases (ltb n 10)) [
    | inl small ↦ rw small refl
    | inr large ↦ rw large (print_onto-is_empty n (n / 10) ((b'0' + n % 10) ∷ []) refl)
  ],
  print_onto_dot (suc n) n [] refl,
)

pub print_ℤ-IsField : (n : ℤ) → IsField (print_ℤ n)
print_ℤ-IsField (pos n) = print-IsField n
print_ℤ-IsField (negsuc n) = (refl, (print-IsField (suc n)).1)

encode-IsField : (bs : List ℕ) → 0 < length bs → IsField (encode bs)
unfolding encode
encode-IsField [] h = absurd (omega arith)
encode-IsField (a ∷ []) h = (refl, encode_dot (a ∷ []))
encode-IsField (a ∷ b ∷ []) h = (refl, encode_dot (a ∷ b ∷ []))
encode-IsField (a ∷ b ∷ c ∷ rest) h = (refl, encode_dot (a ∷ b ∷ c ∷ rest))

after_hex_dot :
    (n : ℕ) (cs rest : List ℕ)
    → after_hex n cs ≡ some rest
    → any (λ c. eqb c b'.') rest ≡ false
    → any (λ c. eqb c b'.') cs ≡ false
unfolding after_hex
after_hex_dot zero cs rest e h = ground (arith, h)
after_hex_dot (suc n) [] rest e h = refl
after_hex_dot (suc n) (c ∷ cs) rest e h = elim (Bool-cases (is_hex c)) [
  | inl hex ↦ ground (arith, hex, after_hex_dot n cs rest, h)
  | inr other ↦ absurd (ground (arith, other))
]

is_grouped_dot :
    (n : ℕ) (ms cs : List ℕ) → is_grouped n ms cs ≡ true → any (λ c. eqb c b'.') cs ≡ false
unfolding is_grouped
is_grouped_dot n [] cs e = elim (Option-cases (after_hex n cs)) [
  | inl bad ↦ absurd (ground (arith, bad))
  | inr ([], found) ↦ after_hex_dot n cs [] found refl
  | inr (c ∷ rest, found) ↦ absurd (ground (arith, found))
]
is_grouped_dot n (m ∷ ms) cs e = elim (Option-cases (after_hex n cs)) [
  | inl bad ↦ absurd (ground (arith, bad))
  | inr ([], found) ↦ absurd (ground (arith, found))
  | inr (c ∷ rest, found) ↦
      let dash : c ≡ b'-' = ground (arith, found) in
      let more : is_grouped m ms rest ≡ true = ground (arith, found) in
      after_hex_dot n cs (c ∷ rest) found (ground (arith, dash, is_grouped_dot m ms rest more))
]

pub is_uuid-IsField : (value : List ℕ) → is_uuid value ≡ true → IsField value
unfolding is_uuid is_grouped after_hex
is_uuid-IsField [] h = absurd (cc h)
is_uuid-IsField (c ∷ cs) h = (refl, is_grouped_dot 8 (4 ∷ 4 ∷ 4 ∷ 12 ∷ []) (c ∷ cs) h)

module _ (go : Ed25519) (node_id : List ℕ) (priv : go.PrivateKey) (now : ℤ) (raw : List ℕ) where
  auth_header-dotted :
      auth_header go node_id priv now raw
      ≡ node_auth_scheme ++ dotted (header_fields go node_id priv now raw)
  unfolding auth_header
  auth_header-dotted =
      let text = payload go node_id now raw in
      let signature = encode (go.sign priv (go.bytes text)) in
      ap (λ t. node_auth_scheme ++ t)
        (append_assoc node_id (b'.' ∷ (print_ℤ now ++ b'.' ∷ encode raw)) (b'.' ∷ signature)
          ∙ ap (λ t. node_id ++ b'.' ∷ t)
              (append_assoc (print_ℤ now) (b'.' ∷ encode raw) (b'.' ∷ signature)))

  -- The control plane reads the agent's header as the four fields that the agent wrote: its node
  -- id, the time, the encoded nonce and the encoded signature over the first three. The id has the
  -- shape of a uuid, and the nonce is not empty.
  pub parse-auth_header :
      is_uuid node_id ≡ true
      → 0 < length raw
      → parse_header (some (auth_header go node_id priv now raw))
        ≡ ok (header_fields go node_id priv now raw)
  parse-auth_header shaped random =
      (parse_header_iff (auth_header go node_id priv now raw)
          (header_fields go node_id priv now raw)).1
        (
          auth_header-dotted,
          (
            is_uuid-IsField node_id shaped,
            print_ℤ-IsField now,
            encode-IsField raw random,
            encode-IsField (go.sign priv (go.bytes (payload go node_id now raw)))
                (omega (arith, go.sign_length priv (go.bytes (payload go node_id now raw)))),
          ),
        )

  -- The header that the tests build is the agent's, with the bytes of the nonce for the random ones.
  pub node_auth_header_lem :
      (nonce : List ℕ)
      → node_auth_header go node_id priv now nonce
        ≡ auth_header go node_id priv now (go.bytes nonce)
  unfolding node_auth_header auth_header
  node_auth_header_lem nonce = simp (append_assoc)
