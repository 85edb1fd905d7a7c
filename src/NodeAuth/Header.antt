-- ===== src/NodeAuth/Header.antt =====
-- `authenticateNode` of rpc/node-auth.ts: the header as text.
use llm_hub.Base.{
  ℕ, ◌≡◌, ◌↔◌, refl, sym, ◌∙◌, ap, Bool, false, some, List, [], ◌∷◌, ◌++◌, any, eqb, arith, All,
  Bool-cases, Option-cases, inl, inr,
}
use llm_hub.Result.{ok}
use llm_hub.NodeAuth.{
  Fields, node_auth_scheme, strip, split, extend, is_empty, fields_of, parse_header,
}

abbrev has_dot : List ℕ → Bool
has_dot part = any (λ c. eqb c b'.') part

-- A field is a text that is not empty and has no dot.
abbrev pub IsField : List ℕ → Type 0
IsField part = (is_empty part ≡ false) × (has_dot part ≡ false)

strip-append : (p rest : List ℕ) → strip p (p ++ rest) ≡ some rest
unfolding strip
strip-append [] rest = refl
strip-append (c ∷ p) rest = ground (arith, strip-append p rest)

strip-eq-some : (p cs rest : List ℕ) → strip p cs ≡ some rest → cs ≡ p ++ rest
unfolding strip
strip-eq-some [] cs rest e = ground arith
strip-eq-some (a ∷ p) [] rest e = cc
strip-eq-some (a ∷ p) (c ∷ cs) rest e = ground (arith, strip-eq-some p cs rest)

abbrev join : List (List ℕ) → List ℕ
join [] = []
join (p ∷ []) = p
join (p ∷ (q ∷ ps)) = p ++ b'.' ∷ join (q ∷ ps)

split-ne-nil : (cs : List ℕ) → (p : List ℕ) × (ps : List (List ℕ)) × (split b'.' cs ≡ p ∷ ps)
unfolding split
split-ne-nil [] = ([], [], refl)
split-ne-nil (c ∷ cs) =
    let (p, ps, e) = split-ne-nil cs in
    elim (Bool-cases (eqb c b'.')) [
      | inl dot ↦ ([], split b'.' cs, rw dot)
      | inr other ↦ (c ∷ p, ps, rw (other, e))
    ]

join-extend :
    (c : ℕ) (p : List ℕ) (ps : List (List ℕ)) → join (extend c (p ∷ ps)) ≡ c ∷ join (p ∷ ps)
join-extend c p [] = refl
join-extend c p (q ∷ ps) = refl

join-split : (cs : List ℕ) → join (split b'.' cs) ≡ cs
unfolding split
join-split [] = refl
join-split (c ∷ cs) =
    let (p, ps, e) = split-ne-nil cs in
    let rest : join (p ∷ ps) ≡ cs = rw (← e) (join-split cs) in
    elim (Bool-cases (eqb c b'.')) [
      | inl dot ↦
          let same : c ≡ b'.' = ground (arith, dot) in
          rw (dot, e, rest) (ap (λ x. x ∷ cs) (sym same))
      | inr other ↦ rw (other, e, join-extend c p ps, rest)
    ]

split-All : (cs : List ℕ) → All (λ part. has_dot part ≡ false) (split b'.' cs)
unfolding split
split-All [] = (refl, tt)
split-All (c ∷ cs) =
    let (p, ps, e) = split-ne-nil cs in
    let rest : All (λ part. has_dot part ≡ false) (p ∷ ps) = rw e at (split-All cs) in
    elim (Bool-cases (eqb c b'.')) [
      | inl dot ↦ rw (dot, e) (refl, rest)
      | inr other ↦ rw (other, e) (rw other rest.0, rest.1)
    ]

split_last : (a : List ℕ) → has_dot a ≡ false → split b'.' a ≡ a ∷ []
unfolding split
split_last [] h = refl
split_last (c ∷ a) h = ground (arith, split_last a, h)

split_next :
    (a rest : List ℕ) → has_dot a ≡ false → split b'.' (a ++ b'.' ∷ rest) ≡ a ∷ split b'.' rest
unfolding split
split_next [] rest h = refl
split_next (c ∷ a) rest h = ground (arith, split_next a rest, h)

-- The text after the scheme, as the agent writes it.
abbrev pub dotted : Fields → List ℕ
dotted f = f.node_id ++ b'.' ∷ (f.millis ++ b'.' ∷ (f.nonce ++ b'.' ∷ f.signature))

abbrev pub AreFields : Fields → Type 0
AreFields f = IsField f.node_id × IsField f.millis × IsField f.nonce × IsField f.signature

fields_of-eq-ok :
    (parts : List (List ℕ)) (f : Fields)
    → fields_of parts ≡ ok f
    → (parts ≡ f.node_id ∷ (f.millis ∷ (f.nonce ∷ (f.signature ∷ []))))
      × (is_empty f.node_id ≡ false)
      × (is_empty f.millis ≡ false)
      × (is_empty f.nonce ≡ false)
      × (is_empty f.signature ≡ false)
unfolding fields_of
fields_of-eq-ok [] f e = cc
fields_of-eq-ok (a ∷ []) f e = cc
fields_of-eq-ok (a ∷ b ∷ []) f e = cc
fields_of-eq-ok (a ∷ b ∷ c ∷ []) f e = cc
fields_of-eq-ok (a ∷ b ∷ c ∷ d ∷ []) f e = ground arith
fields_of-eq-ok (a ∷ b ∷ c ∷ d ∷ x ∷ xs) f e = cc

split-dotted :
    (f : Fields)
    → AreFields f
    → split b'.' (dotted f) ≡ f.node_id ∷ (f.millis ∷ (f.nonce ∷ (f.signature ∷ [])))
split-dotted f (a, b, c, d) =
    split_next f.node_id (f.millis ++ b'.' ∷ (f.nonce ++ b'.' ∷ f.signature)) a.1
    ∙ ap (λ t. f.node_id ∷ t)
        (split_next f.millis (f.nonce ++ b'.' ∷ f.signature) b.1
          ∙ ap (λ t. f.millis ∷ t)
              (split_next f.nonce f.signature c.1
                ∙ ap (λ t. f.nonce ∷ t) (split_last f.signature d.1)))

fields_of_ok :
    (f : Fields)
    → AreFields f
    → fields_of (f.node_id ∷ (f.millis ∷ (f.nonce ∷ (f.signature ∷ [])))) ≡ ok f
unfolding fields_of
fields_of_ok f (a, b, c, d) = rw (a.0, b.0, c.0, d.0)

-- A header is read as four fields exactly when it is the scheme followed by these fields with dots
-- between them, none of them empty or with a dot in it.
pub parse_header_iff :
    (header : List ℕ) (f : Fields)
    → (parse_header (some header) ≡ ok f) ↔ ((header ≡ node_auth_scheme ++ dotted f) × AreFields f)
unfolding parse_header
parse_header_iff header f = (
  λ e. elim (Option-cases (strip node_auth_scheme header)) [
    | inl missing ↦ absurd (ground (arith, missing))
    | inr (rest, found) ↦
        let read : fields_of (split b'.' rest) ≡ ok f = ground (arith, found) in
        let (parts, a, b, c, d) = fields_of-eq-ok (split b'.' rest) f read in
        let whole : dotted f ≡ rest = rw parts at (join-split rest) in
        let clear : All (λ part. has_dot part ≡ false)
            (f.node_id ∷ (f.millis ∷ (f.nonce ∷ (f.signature ∷ [])))) =
          rw parts at (split-All rest) in
        (
          strip-eq-some node_auth_scheme header rest found
              ∙ ap (λ t. node_auth_scheme ++ t) (sym whole),
          ((a, clear.0), (b, clear.1.0), (c, clear.1.1.0), (d, clear.1.1.1.0)),
        )
  ],
  λ h.
      let found : strip node_auth_scheme header ≡ some (dotted f) =
        ap (λ t. strip node_auth_scheme t) h.0 ∙ strip-append node_auth_scheme (dotted f) in
      let read : parse_header (some header) ≡ fields_of (split b'.' (dotted f)) =
        rw (found, parse_header) in
      read ∙ (ap fields_of (split-dotted f h.1) ∙ fields_of_ok f h.1),
)
