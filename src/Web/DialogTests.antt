-- ===== src/Web/DialogTests.antt =====
-- A visit to the dialog and one to the sign-in form, and instances of the theorems.
use llm_hub.Base.{ℕ, true, false, ltb, length, ◌+◌, ◌≡◌, ◌≤◌, refl, none, some, List, [], ◌∷◌}
use llm_hub.Base.Int.{pos}
use llm_hub.Base.Text.{codes}
use llm_hub.Proto.{CreatePairingCodeResponse}
use llm_hub.Result.{ok, err}
use llm_hub.Web.AuthForm
use llm_hub.Web.AuthForm.{
  AuthValues, Request, Route, blank, email, password, sign_in_form, sign_in, set_value, submit,
  settled, edit, click_submit, settle,
}
use llm_hub.Web.AuthForm.Flow.{rejected_stuck}
use llm_hub.Web.Dialog.{
  initial, show, rename, generate, answered, close, render, command, command_text, Page, Visit,
  click_add, type_name, click_generate, answer, arrive, continue,
}
use llm_hub.Web.Dialog.Flow.{IsReceived, one_call}

-- The user asks for a code and closes the dialog before it is there.
abbrev asked : Page
asked = record {
  dialog = (generate (rename "lab" (show initial))).1;
  under_way = 1;
  asked = record { node_name = "lab" } ∷ [];
  received = [];
}

asked-Visit : Visit asked
unfolding generate
asked-Visit =
    continue (continue (continue arrive (click_add refl)) (type_name "lab" refl refl))
      (click_generate refl refl refl)

abbrev response : CreatePairingCodeResponse
response = record { code = codes "ABCD-2345"; expires_at_unix_ms = pos 900000 }

abbrev given : Page
given = record {
  dialog = answered (ok response) asked.dialog;
  under_way = 0;
  asked = asked.asked;
  received = response ∷ [];
}

given-Visit : Visit given
given-Visit = continue asked-Visit (answer 0 (ok response) refl)

drawn_test :
    render (codes "http://localhost:3001") given.dialog
    ≡ command
        (codes "modelhub-agent enroll \\\n  --code ABCD-2345 \\\n  --server http://localhost:3001")
unfolding render answered generate
drawn_test = refl

-- The answer of a dialog that was closed is drawn when it is shown again.
late_test :
    render [] (show (answered (ok response) (close asked.dialog)))
    ≡ command (command_text [] response.code)
unfolding render answered generate close
late_test = refl

one_call_example :
    (given.under_way ≤ 1)
    × (given.dialog.busy ≡ ltb 0 given.under_way)
    × (length given.received + given.under_way ≤ length given.asked)
    × ((code : List ℕ)
        → given.dialog.code ≡ some code
        → (given.under_way ≡ 0) × IsReceived code given.received)
one_call_example = one_call given-Visit

abbrev typed : AuthValues
typed = record { name = ""; email = "ann@acme.test"; password = "secret" }

abbrev waiting : Route
waiting = record blank {
  form = record { values = typed; error = none; busy = true };
  asked = sign_in typed ∷ [];
  under_way = some (sign_in typed);
}

abbrev lower : List ℕ → List ℕ
lower text = text

waiting-Visit : AuthForm.Visit lower sign_in_form sign_in blank waiting
unfolding set_value submit
waiting-Visit =
    AuthForm.continue
      (AuthForm.continue (AuthForm.continue AuthForm.arrive (edit email "ann@acme.test"))
        (edit password "secret"))
      (click_submit refl refl)

rejected_stuck_example :
    let r = settled lower sign_in_form (sign_in typed) (err tt) true waiting in
    (r.form.busy ≡ true) × (r.asked ≡ waiting.asked) × (r.is_fleet ≡ false)
rejected_stuck_example =
    rejected_stuck lower sign_in_form sign_in waiting (sign_in typed) true refl AuthForm.arrive
