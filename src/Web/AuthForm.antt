-- ===== src/Web/AuthForm.antt =====
-- apps/web/src/routes/auth.tsx: the form that signs in and signs up, and the two routes. The auth
-- client and the navigation are parameters.
pub mod Flow
use llm_hub.Base.{
  ℕ, zero, suc, ◌≡◌, ◌==◌, String, Bool, true, false, Option, none, some, List, [], ◌∷◌, ◌++◌, map,
  if◌then◌else◌, ◌||◌,
}
use llm_hub.Base.Text.{codes}
use llm_hub.Result.{Result, ok, err}

pub data Field : Type 0 where
  name email password : Field

pub record AuthValues : Type 0 where
  pub name : String
  pub email : String
  pub password : String

-- `error` of an AuthResult: nothing, or an error that may lack a message.
abbrev pub AuthResult : Type 0
AuthResult = Option (Option String)

abbrev pub input_type : Field → String
input_type name = "text"
input_type email = "email"
input_type password = "password"

abbrev pub label : Field → String
label name = "Name"
label email = "Email"
label password = "Password"

abbrev pub value_of : Field → AuthValues → String
value_of name v = v.name
value_of email v = v.email
value_of password v = v.password

-- `{ ...values, [field]: value }`
unfoldable pub set_value : Field → String → AuthValues → AuthValues
set_value name s v = record v { name = s }
set_value email s v = record v { email = s }
set_value password s v = record v { password = s }

-- `error` is the text that is drawn, if it is not blank.
pub record Form : Type 0 where
  pub values : AuthValues
  pub error : Option (List ℕ)
  pub busy : Bool

abbrev pub initial : Form
initial = record {
  values = record { name = ""; email = ""; password = "" };
  error = none;
  busy = false;
}

pub record FormProps : Type 0 where
  pub title : String
  pub fields : List Field
  pub submit_label : String
  pub busy_label : String

-- The routes' forms.
abbrev pub sign_in_form : FormProps
sign_in_form = record {
  title = "Sign in to Model Hub";
  fields = email ∷ password ∷ [];
  submit_label = "Sign in";
  busy_label = "Signing in…";
}

abbrev pub sign_up_form : FormProps
sign_up_form = record {
  title = "Create your Model Hub account";
  fields = name ∷ email ∷ password ∷ [];
  submit_label = "Create account";
  busy_label = "Creating account…";
}

-- What the routes pass to the auth client.
pub data Request : Type 0 where
  sign_in_email : (email password : String) → Request
  sign_up_email : (name email password : String) → Request

abbrev pub sign_in : AuthValues → Request
sign_in v = sign_in_email v.email v.password

abbrev pub sign_up : AuthValues → Request
sign_up v = sign_up_email v.name v.email v.password

-- An input as it is drawn: its label, type and value.
abbrev pub inputs : FormProps → Form → List (String × String × String)
inputs props f =
    map (λ field. (label field, input_type field, value_of field f.values)) props.fields

abbrev pub button : FormProps → Form → String
button props f = if f.busy then props.busy_label else props.submit_label

-- Every input is `required`: the browser submits no form that has an empty one.
abbrev pub is_filled : List Field → AuthValues → Bool
is_filled [] v = true
is_filled (field ∷ fields) v = if value_of field v == "" then false else is_filled fields v

-- `submit` up to the call of `onSubmit`, and after it; an exception of `onSubmit` ends it there.
unfoldable pub submit : Form → AuthValues × Form
submit f = (f.values, record f { busy = true; error = none })

-- `lower` is `toLowerCase`.
abbrev pub error_text : (List ℕ → List ℕ) → FormProps → Option String → List ℕ
error_text lower props none = codes "Could not " ++ lower (codes props.submit_label)
error_text lower props (some message) = codes message

unfoldable pub submitted :
    (List ℕ → List ℕ) → FormProps → Result (Unit {0}) AuthResult → Form → Form
submitted lower props (ok none) f = record f { busy = false }
submitted lower props (ok (some message)) f = record f {
  busy = false;
  error = some (error_text lower props message);
}
submitted lower props (err e) f = f

-- `useAuthSubmit`: what the call came to, and whether it leads to the fleet. `arrived` tells whether
-- the navigation itself succeeds.
unfoldable pub auth_submit :
    Result (Unit {0}) AuthResult → Bool → Bool × Result (Unit {0}) AuthResult
auth_submit (err e) arrived = (false, err e)
auth_submit (ok (some error)) arrived = (false, ok (some error))
auth_submit (ok none) true = (true, ok none)
auth_submit (ok none) false = (false, err tt)

-- The route: its form, the requests made, the one under way, and whether the fleet is shown.
pub record Route : Type 0 where
  pub form : Form
  pub asked : List Request
  pub under_way : Option Request
  pub accepted : List Request
  pub is_fleet : Bool

abbrev pub accepted_by : Request → Result (Unit {0}) AuthResult → List Request
accepted_by r (ok none) = r ∷ []
accepted_by r _ = []

unfoldable pub settled :
    (List ℕ → List ℕ) → FormProps → Request → Result (Unit {0}) AuthResult → Bool → Route → Route
settled lower props req result arrived r = record {
  form = submitted lower props (auth_submit result arrived).1 r.form;
  asked = r.asked;
  under_way = none;
  accepted = accepted_by req result ++ r.accepted;
  is_fleet = r.is_fleet || (auth_submit result arrived).0;
}

module _ (lower : List ℕ → List ℕ) (props : FormProps) (request : AuthValues → Request) where
  pub data Event (r : Route) : Route → Type 0 where
    edit :
        (field : Field) (value : String)
        → Event r
            (record r { form = record r.form { values = set_value field value r.form.values } })
    click_submit :
        r.form.busy ≡ false
        → is_filled props.fields r.form.values ≡ true
        → Event r (record r {
          form = (submit r.form).1;
          asked = request (submit r.form).0 ∷ r.asked;
          under_way = some (request (submit r.form).0);
        })
    settle :
        (req : Request) (result : Result (Unit {0}) AuthResult) (arrived : Bool)
        → r.under_way ≡ some req
        → Event r (settled lower props req result arrived r)

  pub data Visit (from : Route) : Route → Type 0 where
    arrive : Visit from from
    continue : {r s : Route} → Visit from r → Event r s → Visit from s

abbrev pub blank : Route
blank = record { form = initial; asked = []; under_way = none; accepted = []; is_fleet = false }
