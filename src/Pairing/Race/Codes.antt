-- ===== src/Pairing/Race/Codes.antt =====
-- What the statements of redeeming do to the rows that can be claimed.
use mathlib.Core.List.{Memᴰ, Permᴰ}
use llm_hub.Base.{
  ◌≡◌, ◌≢◌, refl, ◌∙◌, ap, String, eq_iff, eq_refl, Bool, true, false, not, ◌||◌, Option, none,
  some, List, [], ◌∷◌, map, any, keep, change, head, All, arith, Bool-cases, inl, inr,
}
use llm_hub.Base.Distinct.{All-change}
use llm_hub.Base.Int.{ℤ}
use llm_hub.Pairing.{has_hash, has_id, is_unused, is_claimable, set_used}
use llm_hub.Schema.{PairingRow}
use llm_hub.Sql.{Sql}
use llm_hub.Pairing.Race.{HasIds}

perm-mem : {A : Type 0} {a : A} {xs ys : List A} → Permᴰ xs ys → Memᴰ a xs → Memᴰ a ys
perm-mem Permᴰ.nil m = m
perm-mem (Permᴰ.cons e p) (Memᴰ.head h) = Memᴰ.head (h ∙ e)
perm-mem (Permᴰ.cons e p) (Memᴰ.tail m) = Memᴰ.tail (perm-mem p m)
perm-mem (Permᴰ.swap e f) (Memᴰ.head h) = Memᴰ.tail (Memᴰ.head (h ∙ e))
perm-mem (Permᴰ.swap e f) (Memᴰ.tail (Memᴰ.head h)) = Memᴰ.head (h ∙ f)
perm-mem (Permᴰ.swap e f) (Memᴰ.tail (Memᴰ.tail m)) = Memᴰ.tail (Memᴰ.tail m)
perm-mem (Permᴰ.trans p q) m = perm-mem q (perm-mem p m)

head-mem : {A : Type 0} (xs : List A) (a : A) → head xs ≡ some a → Memᴰ a xs
head-mem [] a e = cc
head-mem (x ∷ xs) a e = Memᴰ.head (ground arith)

-- A row that the claim returns comes from a row that could be claimed.
pub data Origin (hash : String) (rows : List PairingRow) (r : PairingRow) : Type 0 where
  origin :
      (s : PairingRow)
      → Memᴰ s rows
      → has_hash hash s ≡ true
      → is_unused s ≡ true
      → r.id ≡ s.id
      → Origin hash rows r

Origin-cons :
    (hash : String) (s : PairingRow) (rows : List PairingRow) (r : PairingRow)
    → Origin hash rows r
    → Origin hash (s ∷ rows) r
Origin-cons hash s rows r (origin t listed hashed unused same) =
    origin t (Memᴰ.tail listed) hashed unused same

Origin-first :
    (hash : String) (now : ℤ) (s : PairingRow) (rows : List PairingRow) (r : PairingRow)
    → is_claimable hash s ≡ true
    → (Memᴰ r (map (set_used (some now)) (keep (is_claimable hash) rows)) → Origin hash rows r)
    → Memᴰ r (set_used (some now) s ∷ map (set_used (some now)) (keep (is_claimable hash) rows))
    → Origin hash (s ∷ rows) r
Origin-first hash now s rows r it rest (Memᴰ.head e) =
    origin s (Memᴰ.head refl) (ground (arith, it)) (ground (arith, it))
      (ap (λ (x : PairingRow). x.id) e)
Origin-first hash now s rows r it rest (Memᴰ.tail m) = Origin-cons hash s rows r (rest m)

from_keep :
    (hash : String) (now : ℤ) (rows : List PairingRow) (r : PairingRow)
    → Memᴰ r (map (set_used (some now)) (keep (is_claimable hash) rows))
    → Origin hash rows r
from_keep hash now [] r m = elim m [ ]
from_keep hash now (s ∷ rows) r m = elim (Bool-cases (is_claimable hash s)) [
  | inr not_it ↦ Origin-cons hash s rows r (from_keep hash now rows r (rw not_it at m))
  | inl it ↦ Origin-first hash now s rows r it (from_keep hash now rows r) (rw it at m)
]

pub returned-Origin :
    (sql : Sql) (hash : String) (now : ℤ) (rows : List PairingRow) (r : PairingRow)
    → head (sql.returning (is_claimable hash) (set_used (some now)) rows) ≡ some r
    → Origin hash rows r
returned-Origin sql hash now rows r e =
    from_keep hash now rows r
      (perm-mem (sql.returning_lem (is_claimable hash) (set_used (some now)) rows) (head-mem _ r e))

any-mem :
    (p : PairingRow → Bool) (s : PairingRow) (xs : List PairingRow)
    → p s ≡ true
    → Memᴰ s xs
    → any p xs ≡ true
any-mem p s xs holds (Memᴰ.head {x = x} e) =
    let one : p x ≡ true = rw e at holds in ground (arith, one)
any-mem p s xs holds (Memᴰ.tail {xs = ys} m) = ground (arith, any-mem p s ys holds m)

pub Origin-any :
    (hash : String) (rows : List PairingRow) (r : PairingRow)
    → Origin hash rows r
    → (any (is_claimable hash) rows ≡ true)
      × (any (has_hash hash) rows ≡ true)
      × (any (has_id r.id) rows ≡ true)
Origin-any hash rows r (origin s listed hashed unused same) = (
  any-mem (is_claimable hash) s rows (ground (arith, hashed, unused)) listed,
  any-mem (has_hash hash) s rows hashed listed,
  any-mem (has_id r.id) s rows (rw same (eq_refl s.id)) listed,
)

-- The rows of that id have that hash.
abbrev pub OnlyHash : String → String → List PairingRow → Type 0
OnlyHash id hash rows = All (λ s. (not (has_id id s) || has_hash hash s) ≡ true) rows

other_ids :
    (id hash : String) (rows : List PairingRow)
    → any (has_id id) rows ≡ false
    → OnlyHash id hash rows
other_ids id hash [] h = tt
other_ids id hash (s ∷ rows) h = (ground (arith, h), other_ids id hash rows (ground (arith, h)))

mem-OnlyHash :
    (hash : String) (s : PairingRow) (rows : List PairingRow)
    → HasIds rows
    → Memᴰ s rows
    → has_hash hash s ≡ true
    → OnlyHash s.id hash rows
mem-OnlyHash hash s rows distinct (Memᴰ.head {x = x} {xs = ys} e) hashed =
    let at : has_hash hash x ≡ true = rw e at hashed in
    let absent : any (has_id s.id) ys ≡ false = rw e distinct.0 in
    (ground (arith, at), other_ids s.id hash ys absent)
mem-OnlyHash hash s rows distinct (Memᴰ.tail {x = x} {xs = ys} m) hashed =
    let differ : ¬ (has_id x.id s ≡ true) = λ h. cc (any-mem (has_id x.id) s ys h m, distinct.0) in
    (
      ground (arith, differ, eq_iff s.id x.id, eq_iff x.id s.id),
      mem-OnlyHash hash s ys distinct.1 m hashed,
    )

pub Origin-OnlyHash :
    (hash : String) (rows : List PairingRow) (r : PairingRow)
    → HasIds rows
    → Origin hash rows r
    → OnlyHash r.id hash rows
Origin-OnlyHash hash rows r distinct (origin s listed hashed unused same) =
    rw same (mem-OnlyHash hash s rows distinct listed hashed)

pub OnlyHash-change :
    (id hash : String) (p : PairingRow → Bool) (used : Option ℤ) (rows : List PairingRow)
    → OnlyHash id hash rows
    → OnlyHash id hash (change p (set_used used) rows)
OnlyHash-change id hash p used rows =
    All-change (λ s. (not (has_id id s) || has_hash hash s) ≡ true) p (set_used used) rows
      (λ s h. h)

pub mark_all :
    (hash : String) (now : ℤ) (rows : List PairingRow)
    → any (is_claimable hash) (change (is_claimable hash) (set_used (some now)) rows) ≡ false
mark_all hash now [] = refl
mark_all hash now (r ∷ rows) = ground (arith, mark_all hash now rows)

pub mark_keeps :
    (hash other : String) (now : ℤ) (rows : List PairingRow)
    → any (is_claimable other) rows ≡ false
    → any (is_claimable other) (change (is_claimable hash) (set_used (some now)) rows) ≡ false
mark_keeps hash other now [] h = refl
mark_keeps hash other now (r ∷ rows) h = ground (arith, mark_keeps hash other now rows, h)

-- Releasing a row of one hash makes no row of another hash claimable.
pub release_keeps :
    (id hash other : String) (rows : List PairingRow)
    → other ≢ hash
    → OnlyHash id hash rows
    → any (is_claimable other) rows ≡ false
    → any (is_claimable other) (change (has_id id) (set_used none) rows) ≡ false
release_keeps id hash other [] ne only h = refl
release_keeps id hash other (r ∷ rows) ne only h = ground (
  arith,
  release_keeps id hash other rows ne only.1,
  h,
  only.0,
  eq_iff r.code_hash hash,
  eq_iff r.code_hash other,
)
