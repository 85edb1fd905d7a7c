-- ===== src/Agent.antt =====
-- agent: the daemon of a machine, in Go. What it uses of Go's crypto/ed25519 is an interface.
pub mod Base64
pub mod Header
pub mod Fresh
pub mod Reference
pub mod Machine
pub mod Identity
pub mod Commands
pub mod Inventory
pub mod Wire
pub mod Session
pub mod Joined
mod Tests
mod SessionTests
mod JoinedTests
use llm_hub.Base.{ℕ, ◌<◌, ◌≡◌, List, length, All}

abbrev pub IsByte : ℕ → Type 0
IsByte b = b < 256

-- `crypto/ed25519`, and `[]byte(text)`, whose `text` is a list of code points here.
pub record Ed25519 : Type 1 where
  pub PrivateKey : Type 0
  pub public : PrivateKey → List ℕ
  pub sign : PrivateKey → List ℕ → List ℕ
  pub sign_length : (priv : PrivateKey) (text : List ℕ) → length (sign priv text) ≡ 64
  pub sign_bytes : (priv : PrivateKey) (text : List ℕ) → All IsByte (sign priv text)
  pub bytes : List ℕ → List ℕ
