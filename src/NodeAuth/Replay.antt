-- ===== src/NodeAuth/Replay.antt =====
-- `authenticateNode` of rpc/node-auth.ts: a header that is sent again.
use llm_hub.Base.{ℕ, ◌*◌, ◌<◌, ◌≡◌, true, false, Option, some, List, [], ◌∷◌, arith, inl, inr}
use llm_hub.Base.Int.{ℤ, pos, ◌+ℤ◌, ◌≤ℤ◌, +ℤ_parts}
use llm_hub.Env.{Env}
use llm_hub.Result.{Result, ok, Result-cases}
use llm_hub.Schema.{Db}
use llm_hub.Sql.{Sql}
use llm_hub.NodeAuth.{
  Redis, Platform, NodeAuthError, Fields, NodeIdentity, parse_header, nonce_key, verify_header,
  authenticate_node,
}
use llm_hub.NodeAuth.Accept.{authenticate_node_lem}

-- One call: the clock at its check of the time, that of Redis, its header, and the database.
pub record Request : Type 0 where
  pub now : ℤ
  pub stored : ℤ
  pub header : Option (List ℕ)
  pub db : Db

-- The second request reaches Redis while the key is held.
in_time : (c r c' r' : ℤ) (ttl : ℕ) → c' ≤ℤ c +ℤ pos ttl → r' +ℤ c ≤ℤ r +ℤ c' → r' ≤ℤ r +ℤ pos ttl
in_time c r c' r' ttl apart soon =
    omega (arith, +ℤ_parts c (pos ttl), +ℤ_parts r' c, +ℤ_parts r c', +ℤ_parts r (pos ttl))

doubled : (n : ℕ) → 0 < n → 0 < n * 2
doubled n h = omega arith

same_date :
    {Time : Type 0} (number : List ℕ → Option Time) (a b : List ℕ) (x y : Time)
    → a ≡ b
    → number a ≡ some x
    → number b ≡ some y
    → x ≡ y
same_date number a b x y same ex ey = ground (arith, ex, ey, same)

same_fields :
    (header : Option (List ℕ)) (f g : Fields)
    → parse_header header ≡ ok f
    → parse_header header ≡ ok g
    → f ≡ g
same_fields header f g pf pg = ground (arith, pf, pg)

module _ (js : Platform) (sql : Sql) (env : Env) (redis : Redis) where
  abbrev pub answer : Request → redis.Store → redis.Store × Result NodeAuthError NodeIdentity
  answer r = authenticate_node js sql env redis r.now r.stored r.header r.db

  -- Any other requests, one after the other.
  unfoldable pub serve : List Request → redis.Store → redis.Store
  serve [] store = store
  serve (r ∷ rs) store = serve rs (answer r store).0

  answer-holds :
      (r : Request) (key : List ℕ) (later : ℤ) (store : redis.Store)
      → redis.holds key later store ≡ true
      → redis.holds key later (answer r store).0 ≡ true
  unfolding authenticate_node
  answer-holds r key later store held =
      elim (Result-cases (verify_header js sql env r.now r.header r.db)) [
        | inl (c, bad) ↦ rw bad held
        | inr ((f, v), good) ↦ rw good (
            redis.set_nx_keeps r.stored later (nonce_key f) key (env.node_auth_skew_ms * 2) store
              held)
      ]

  serve-holds :
      (rs : List Request) (key : List ℕ) (later : ℤ) (store : redis.Store)
      → redis.holds key later store ≡ true
      → redis.holds key later (serve rs store) ≡ true
  unfolding serve
  serve-holds [] key later store held = held
  serve-holds (r ∷ rs) key later store held =
      serve-holds rs key later (answer r store).0 (answer-holds r key later store held)

  -- After an accepted request, no request with the same node id, timestamp and nonce is accepted,
  -- whatever its signature, whenever it comes and whatever requests come in between. Hypotheses:
  -- the window is positive, and the second request reaches Redis no longer after the first one
  -- than the check of its timestamp comes after that of the first.
  pub authenticate_node_once :
      (first second : Request) (between : List Request) (store : redis.Store)
      (who again : NodeIdentity) (f g : Fields)
      → 0 < env.node_auth_skew_ms
      → parse_header first.header ≡ ok f
      → parse_header second.header ≡ ok g
      → g.node_id ≡ f.node_id
      → g.millis ≡ f.millis
      → g.nonce ≡ f.nonce
      → second.stored +ℤ first.now ≤ℤ first.stored +ℤ second.now
      → (answer first store).1 ≡ ok who
      → ¬ ((answer second (serve between (answer first store).0)).1 ≡ ok again)
  authenticate_node_once first second between store who again f g positive pf pg id time nonce soon
        accepted twice =
      let ttl = env.node_auth_skew_ms * 2 in
      let (f', proof, free, set, left) =
        authenticate_node_lem js sql env redis first.now first.stored first.header first.db store
          who accepted in
      let store' = serve between (answer first store).0 in
      let (g', proof', free', set', left') =
        authenticate_node_lem js sql env redis second.now second.stored second.header second.db
          store' again twice in
      let same = same_fields first.header f' f proof.parsed pf in
      let same' = same_fields second.header g' g proof'.parsed pg in
      let times : g'.millis ≡ f'.millis = rw (same, same') time in
      let keys : nonce_key g' ≡ nonce_key f' = rw (same, same', id, nonce) in
      let dates =
        same_date js.number g'.millis f'.millis proof'.at proof.at times proof'.dated proof.dated in
      let apart =
        js.is_off_lem first.now second.now proof.at env.node_auth_skew_ms proof.timely
          (rw (← dates) proof'.timely) in
      let held =
        redis.set_nx_done first.stored second.stored (nonce_key f') ttl store
          (doubled env.node_auth_skew_ms positive) set
          (in_time first.now first.stored second.now second.stored ttl apart soon) in
      let kept =
        serve-holds between (nonce_key f') second.stored (answer first store).0 (rw left held) in
      let lost : redis.holds (nonce_key f') second.stored store' ≡ false = rw (← keys) free' in
      absurd (cc (kept, lost))
