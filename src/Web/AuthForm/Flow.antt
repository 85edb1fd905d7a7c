-- ===== src/Web/AuthForm/Flow.antt =====
-- What holds of the form whatever the user and the auth client do.
use llm_hub.Base.{
  ℕ, ◌≡◌, ◌≢◌, refl, Bool, true, false, ◌||◌, none, some, List, [], ◌++◌, Memᴰ, arith,
}
use llm_hub.Result.{Result, ok, err}
use llm_hub.Web.AuthForm.{
  AuthValues, AuthResult, FormProps, Request, submit, submitted, auth_submit, settled, Route,
  accepted_by, Event, edit, click_submit, settle, Visit, arrive, continue, blank,
}

module _ (lower : List ℕ → List ℕ) (props : FormProps) (request : AuthValues → Request) where
  record Inv (r : Route) : Type 0 where
    waits : r.form.busy ≡ false → r.under_way ≡ none
    made : (req : Request) → r.under_way ≡ some req → Memᴰ req r.asked
    let_in : (req : Request) → Memᴰ req r.accepted → Memᴰ req r.asked
    arrived : r.is_fleet ≡ true → r.accepted ≢ []

  accepted_by-asked :
      (req : Request) (result : Result (Unit {0}) AuthResult) (accepted asked : List Request)
      → Memᴰ req asked
      → ((q : Request) → Memᴰ q accepted → Memᴰ q asked)
      → (q : Request) → Memᴰ q (accepted_by req result ++ accepted)
      → Memᴰ q asked
  accepted_by-asked req (ok none) accepted asked here old q (Memᴰ.head e) = rw e here
  accepted_by-asked req (ok none) accepted asked here old q (Memᴰ.tail m) = old q m
  accepted_by-asked req (ok (some error)) accepted asked here old q m = old q m
  accepted_by-asked req (err e) accepted asked here old q m = old q m

  arrived-accepted :
      (req : Request) (result : Result (Unit {0}) AuthResult) (arrived is_fleet : Bool)
      (accepted : List Request)
      → (is_fleet ≡ true → accepted ≢ [])
      → (is_fleet || (auth_submit result arrived).0) ≡ true
      → accepted_by req result ++ accepted ≢ []
  unfolding auth_submit
  arrived-accepted req (ok none) arrived is_fleet accepted old e = λ h. cc h
  arrived-accepted req (ok (some error)) arrived is_fleet accepted old e = old (ground (arith, e))
  arrived-accepted req (err x) arrived is_fleet accepted old e = old (ground (arith, e))

  Event-Inv : {r s : Route} → Event lower props request r s → Inv r → Inv s
  unfolding submit settled
  Event-Inv (edit field value) inv = record {
    waits = inv.waits;
    made = inv.made;
    let_in = inv.let_in;
    arrived = inv.arrived;
  }
  Event-Inv (click_submit free filled) inv = record {
    waits = λ e. absurd (cc e);
    made = λ req e. Memᴰ.head (ground (arith, e));
    let_in = λ req m. Memᴰ.tail (inv.let_in req m);
    arrived = inv.arrived;
  }
  Event-Inv {r} (settle req result arrived at) inv = record {
    waits = λ e. refl;
    made = λ req' e. absurd (cc e);
    let_in = accepted_by-asked req result r.accepted r.asked (inv.made req at) inv.let_in;
    arrived = arrived-accepted req result arrived r.is_fleet r.accepted inv.arrived;
  }

  Visit-Inv : {r : Route} → Visit lower props request blank r → Inv r
  Visit-Inv arrive = record {
    waits = λ e. refl;
    made = λ req e. absurd (cc e);
    let_in = λ req m. m;
    arrived = λ e. absurd (cc e);
  }
  Visit-Inv (continue v e) = Event-Inv e (Visit-Inv v)

  -- Whatever the user does and the auth client answers, a form that is not busy has no request
  -- under way, the fleet is shown only after a request was accepted, and every request that was
  -- accepted is one that the form made.
  pub enters_only_accepted :
      {r : Route}
      → Visit lower props request blank r
      → (r.form.busy ≡ false → r.under_way ≡ none)
        × (r.is_fleet ≡ true → r.accepted ≢ [])
        × ((req : Request) → Memᴰ req r.accepted → Memᴰ req r.asked)
  enters_only_accepted v = let inv = Visit-Inv v in (inv.waits, inv.arrived, inv.let_in)

  -- Busy with no request under way: nothing but the inputs changes any more.
  stuck :
      (from : Route) {r : Route}
      → from.form.busy ≡ true
      → from.under_way ≡ none
      → Visit lower props request from r
      → ((r.form.busy ≡ true) × (r.under_way ≡ none))
        × (r.asked ≡ from.asked)
        × (r.is_fleet ≡ from.is_fleet)
  stuck from busy nothing arrive = ((busy, nothing), refl, refl)
  stuck from busy nothing (continue v (edit field value)) = stuck from busy nothing v
  stuck from busy nothing (continue v (click_submit free filled)) =
      absurd (cc (free, (stuck from busy nothing v).0.0))
  stuck from busy nothing (continue v (settle req result arrived at)) =
      absurd (cc (at, (stuck from busy nothing v).0.1))

  -- When a busy form's request ends in an exception instead of an answer, the form stays busy for
  -- good: whatever the user does, no further request is made and the fleet is not shown.
  pub rejected_stuck :
      {r : Route} (from : Route) (req : Request) (arrived : Bool)
      → from.form.busy ≡ true
      → Visit lower props request (settled lower props req (err tt) arrived from) r
      → (r.form.busy ≡ true) × (r.asked ≡ from.asked) × (r.is_fleet ≡ from.is_fleet)
  unfolding settled submitted auth_submit
  rejected_stuck from req arrived busy v =
      let ((still, nothing), asked, fleet) =
        stuck (settled lower props req (err tt) arrived from) busy refl v in
      (still, asked, ground (arith, fleet))
