-- ===== src/Agent/Reference.antt =====
-- The cryptography of both sides met by plain functions, for concrete runs: a signature is 64 times
-- the length of the text, and whoever knows the text can check it.
use llm_hub.Agent.{Ed25519, IsByte}
use llm_hub.Agent.Base64.{decode, decode-encode}
use llm_hub.Agent.Fresh.{Agrees}
use llm_hub.Base.{ℕ, zero, suc, ◌%◌, ◌≡◌, refl, ap, false, some, List, ◌++◌, All, length, arith}
use llm_hub.Base.Int.{ℤ, pos, ◌+ℤ◌, ◌≤ℤ◌}
use llm_hub.Fixture.{repeated}
use llm_hub.NodeAuth.{Platform, spki_ed25519_prefix}
use llm_hub.NodeAuth.Reference.{plain, is_apart, same_bytes, same_bytes_refl}
use llm_hub.Number.{read}
use llm_hub.Number.Reading.{read-print}

abbrev pub seal : List ℕ → List ℕ
seal text = repeated 64 (length text % 256)

length-repeated : (n c : ℕ) → length (repeated n c) ≡ n
length-repeated zero c = refl
length-repeated (suc n) c = ap suc (length-repeated n c)

repeated_bytes : (n c : ℕ) → IsByte c → All IsByte (repeated n c)
repeated_bytes zero c h = tt
repeated_bytes (suc n) c h = (h, repeated_bytes n c h)

pub length-seal : (text : List ℕ) → length (seal text) ≡ 64
length-seal text = length-repeated 64 (length text % 256)

pub seal_bytes : (text : List ℕ) → All IsByte (seal text)
seal_bytes text = repeated_bytes 64 (length text % 256) (omega arith)

-- A private key is one number, whose low byte fills the public one.
abbrev pub toy : Ed25519
toy = record {
  PrivateKey = ℕ;
  public = λ k. repeated 32 (k % 256);
  sign = λ k text. seal text;
  sign_length = λ k text. length-seal text;
  sign_bytes = λ k text. seal_bytes text;
  bytes = λ text. text;
}

abbrev pub sealing : Platform
sealing = record plain {
  number = λ text. some (pos (read text));
  base64url = decode;
  verify = λ text key signature. some (same_bytes signature (seal text));
}

near :
    (n : ℕ) (now : ℤ) (skew : ℕ)
    → pos n ≤ℤ now +ℤ pos skew
    → now ≤ℤ pos n +ℤ pos skew
    → is_apart now (pos n) skew ≡ false
near n now skew late early = ground (arith, late, early)

public_long : (k : ℕ) → length (spki_ed25519_prefix ++ repeated 32 (k % 256)) ≡ 44
public_long k = refl

pub sealing-Agrees : Agrees toy sealing
sealing-Agrees = record {
  decoded = decode-encode;
  same_bytes = λ text. refl;
  verified = λ priv text. (_, refl, ap some (same_bytes_refl (seal text)));
  dated = λ n small. (pos n, ap (λ m. some (pos m)) (read-print n), near n);
}
