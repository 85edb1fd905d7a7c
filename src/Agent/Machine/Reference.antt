-- ===== src/Agent/Machine/Reference.antt =====
-- The machine's interfaces met by plain functions, for concrete runs: a keychain that is locked or
-- holds at most one entry, files that can always be written, and texts with their ends marked.
use llm_hub.Agent.Commands.{Text, Config, Json}
use llm_hub.Agent.Machine.{
  Keyring, KeyringError, not_found, unavailable, FileName, FilePath, final, temporary, same_path,
  FileError, missing, Files, Coding,
}
use llm_hub.Base.{
  ℕ, zero, suc, ◌≡◌, ◌↔◌, ◌⊎◌, inl, inr, refl, ap, true, false, Option, none, some, [], ◌∷◌,
  if◌then◌else◌,
}
use llm_hub.Result.{Result, ok, err}

pub data Chain : Type 0 where
  locked : Chain
  held : Option Text → Chain

abbrev get : Chain → Result KeyringError Text
get locked = err unavailable
get (held none) = err not_found
get (held (some text)) = ok text

abbrev set : Text → Chain → Chain × Result KeyringError (Unit {0})
set text locked = (locked, err unavailable)
set text (held entry) = (held (some text), ok tt)

abbrev forget : Chain → Chain × Result KeyringError (Unit {0})
forget locked = (locked, err unavailable)
forget (held none) = (held none, err not_found)
forget (held (some text)) = (held none, ok tt)

pub set_stores : (text : Text) (s : Chain) → (set text s).1 ≡ ok tt → get (set text s).0 ≡ ok text
set_stores text locked h = absurd (cc h)
set_stores text (held entry) h = refl

pub set_keeps :
    (text : Text) (s : Chain) (e : KeyringError)
    → (set text s).1 ≡ err e
    → get (set text s).0 ≡ get s
set_keeps text locked e h = refl
set_keeps text (held entry) e h = absurd (cc h)

pub forget_gone :
    (s : Chain)
    → ((forget s).1 ≡ ok tt) ⊎ ((forget s).1 ≡ err not_found)
    → get (forget s).0 ≡ err not_found
forget_gone locked (inl h) = absurd (cc h)
forget_gone locked (inr h) = absurd (cc h)
forget_gone (held none) h = refl
forget_gone (held (some text)) h = refl

abbrev pub chain : Keyring
chain = record {
  Store = Chain;
  get = get;
  set = set;
  delete = forget;
  set_ok = set_stores;
  set_failed = set_keeps;
  delete_gone = forget_gone;
}

abbrev Disk : Type 0
Disk = FilePath → Option Text

abbrev content : Option Text → Result FileError Text
content none = err missing
content (some text) = ok text

abbrev found : Option Text → Result FileError (Unit {0})
found none = err missing
found (some text) = ok tt

abbrev put : FilePath → Option Text → Disk → Disk
put p text s q = if same_path p q then text else s q

pub found-content : (t : Option Text) → (found t ≡ err missing) ↔ (content t ≡ err missing)
found-content none = (λ h. refl, λ h. refl)
found-content (some text) = (λ h. absurd (cc h), λ h. absurd (cc h))

same_path_refl : (p : FilePath) → same_path p p ≡ true
same_path_refl (final FileName.identity_key) = refl
same_path_refl (final FileName.config_json) = refl
same_path_refl (temporary FileName.identity_key) = refl
same_path_refl (temporary FileName.config_json) = refl

pub put_same : (p : FilePath) (t : Option Text) (s : Disk) → content (put p t s p) ≡ content t
put_same p t s = rw (same_path_refl p)

pub put_other :
    (p q : FilePath) (t : Option Text) (s : Disk)
    → same_path p q ≡ false
    → content (put p t s q) ≡ content (s q)
put_other p q t s h = rw h

pub moved_other :
    (p q r : FilePath) (s : Disk)
    → same_path p r ≡ false
    → same_path q r ≡ false
    → content (put q (s p) (put p none s) r) ≡ content (s r)
moved_other p q r s h k = rw (k, h)

abbrev pub disk : Files
disk = record {
  Store = Disk;
  read = λ p s. content (s p);
  stat = λ p s. found (s p);
  mkdir_all = λ s. (s, ok tt);
  write = λ p text s. (put p (some text) s, ok tt);
  rename = λ p q s. (put q (s p) (put p none s), ok tt);
  remove = λ p s. (put p none s, ok tt);
  stat_missing = λ p s. found-content (s p);
  mkdir_all_kept = λ p s. refl;
  write_ok = λ p text s h. put_same p (some text) s;
  write_kept = λ p q text s h. put_other p q (some text) s h;
  rename_ok = λ p q s h. put_same q (s p) (put p none s);
  rename_failed = λ p q r s e h. absurd (cc h);
  rename_kept = moved_other;
  remove_gone = λ p s h. put_same p none s;
  remove_kept = λ p q s h. put_other p q none s h;
}

abbrev pub coding : Coding
coding = record {
  encode = λ raw. raw;
  decode = some;
  trim_space = λ text. text;
  decode-encode = λ raw. refl;
  trim_space-encode = λ raw. refl;
}

-- A text before `rest`, with its end marked.
unfoldable pub mark : Text → Text → Text
mark [] rest = 0 ∷ rest
mark (c ∷ cs) rest = suc c ∷ mark cs rest

abbrev longer : ℕ → Option (Text × Text) → Option (Text × Text)
longer c none = none
longer c (some (text, rest)) = some (c ∷ text, rest)

unfoldable pub unmark : Text → Option (Text × Text)
unmark [] = none
unmark (zero ∷ rest) = some ([], rest)
unmark (suc c ∷ rest) = longer c (unmark rest)

unmark-mark : (text rest : Text) → unmark (mark text rest) ≡ some (text, rest)
unfolding mark unmark
unmark-mark [] rest = refl
unmark-mark (c ∷ cs) rest = ap (longer c) (unmark-mark cs rest)

abbrev pub marshal : Config → Text
marshal c = mark c.server_url (mark c.node_id (mark c.org_id (mark c.node_name [])))

abbrev then_read : Option (Text × Text) → (Text → Text → Option Config) → Option Config
then_read none next = none
then_read (some (text, rest)) next = next text rest

abbrev pub unmarshal : Text → Option Config
unmarshal text = then_read (unmark text) (λ a p. then_read (unmark p) (λ b q.
    then_read (unmark q) (λ c r.
      then_read (unmark r)
        (λ d s. some (record { server_url = a; node_id = b; org_id = c; node_name = d })))))

pub unmarshal-marshal : (c : Config) → unmarshal (marshal c) ≡ some c
unmarshal-marshal c =
    let fourth = mark c.node_name [] in
    let third = mark c.org_id fourth in
    let second = mark c.node_id third in
    rw (
      unmark-mark c.server_url second,
      unmark-mark c.node_id third,
      unmark-mark c.org_id fourth,
      unmark-mark c.node_name [],
    )

abbrev pub json : Json
json = record { marshal = marshal; unmarshal = unmarshal; unmarshal-marshal = unmarshal-marshal }
