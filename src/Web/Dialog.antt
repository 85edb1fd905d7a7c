-- ===== src/Web/Dialog.antt =====
-- apps/web/src/components/AddNodeDialog.tsx: the dialog that makes a pairing code. A render takes in
-- all updates of a handler, and the browser clicks only what is drawn and not disabled.
pub mod Flow
use llm_hub.Base.{
  ℕ, zero, suc, ◌+◌, ◌-◌, ◌≡◌, String, Bool, true, false, Option, none, some, List, [], ◌∷◌, ◌++◌,
  if◌then◌else◌,
}
use llm_hub.Base.Text.{codes}
use llm_hub.Proto.{CreatePairingCodeRequest, CreatePairingCodeResponse}
use llm_hub.Result.{Result, ok, err}

-- The component's state.
pub record Dialog : Type 0 where
  pub is_open : Bool
  pub code : Option (List ℕ)
  pub name : String
  pub busy : Bool
  pub error : Option String

abbrev pub initial : Dialog
initial = record { is_open = false; code = none; name = ""; busy = false; error = none }

-- What is drawn: a button, the form, or the command with the code.
pub data Drawn : Type 0 where
  add_button : Drawn
  form : (name : String) (is_disabled : Bool) (button : String) (alert : Option String) → Drawn
  command : List ℕ → Drawn

-- `error && …`
abbrev pub alert_of : Option String → Option String
alert_of none = none
alert_of (some String.[]) = none
alert_of (some text) = some text

abbrev pub command_text : List ℕ → List ℕ → List ℕ
command_text agent_url code =
    codes "modelhub-agent enroll \\\n  --code " ++ code ++ codes " \\\n  --server " ++ agent_url

unfoldable pub render : List ℕ → Dialog → Drawn
render agent_url d =
    if d.is_open
    then elim d.code [
      | none ↦
          form d.name d.busy (if d.busy then "Generating…" else "Generate pairing code")
            (alert_of d.error)
      | some code ↦ command (command_text agent_url code)
    ]
    else add_button

-- The handlers. `generate` is `mint` up to the call, `answered` is the rest of it.
abbrev pub show : Dialog → Dialog
show d = record d { is_open = true }

abbrev pub rename : String → Dialog → Dialog
rename name d = record d { name = name }

unfoldable pub generate : Dialog → CreatePairingCodeRequest × Dialog
generate d = (record { node_name = d.name }, record d { busy = true; error = none })

-- The failure is the message of the error, where it is an `Error`.
unfoldable pub answered : Result (Option String) CreatePairingCodeResponse → Dialog → Dialog
answered (ok res) d = record d { code = some res.code; busy = false }
answered (err (some message)) d = record d { error = some message; busy = false }
answered (err none) d = record d { error = some "Could not generate a pairing code"; busy = false }

unfoldable pub close : Dialog → Dialog
close d = record d { is_open = false; code = none; error = none }

-- The page: the dialog, the calls under way, and all that were ever made and answered.
pub record Page : Type 0 where
  pub dialog : Dialog
  pub under_way : ℕ
  pub asked : List CreatePairingCodeRequest
  pub received : List CreatePairingCodeResponse

abbrev pub received_of :
    Result (Option String) CreatePairingCodeResponse → List CreatePairingCodeResponse
received_of (ok res) = res ∷ []
received_of (err e) = []

-- What a user or the server can do to a page that is drawn as it is.
pub data Event (p : Page) : Page → Type 0 where
  click_add : p.dialog.is_open ≡ false → Event p (record p { dialog = show p.dialog })
  type_name :
      (name : String)
      → p.dialog.is_open ≡ true
      → p.dialog.code ≡ none
      → Event p (record p { dialog = rename name p.dialog })
  click_generate :
      p.dialog.is_open ≡ true
      → p.dialog.code ≡ none
      → p.dialog.busy ≡ false
      → Event p (record {
        dialog = (generate p.dialog).1;
        under_way = suc p.under_way;
        asked = (generate p.dialog).0 ∷ p.asked;
        received = p.received;
      })
  answer :
      (under_way : ℕ) (result : Result (Option String) CreatePairingCodeResponse)
      → p.under_way ≡ suc under_way
      → Event p (record {
        dialog = answered result p.dialog;
        under_way = under_way;
        asked = p.asked;
        received = received_of result ++ p.received;
      })
  click_close : p.dialog.is_open ≡ true → Event p (record p { dialog = close p.dialog })

pub data Visit : Page → Type 0 where
  arrive : Visit (record { dialog = initial; under_way = 0; asked = []; received = [] })
  continue : {p q : Page} → Visit p → Event p q → Visit q
