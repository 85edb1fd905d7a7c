-- ===== src/Web/Dialog/Flow.antt =====
-- What holds of the dialog whatever the user and the server do.
use llm_hub.Base.{
  ℕ, ◌+◌, ◌≡◌, ◌⊎◌, ◌≤◌, refl, false, none, some, List, ◌∷◌, Memᴰ, length, ltb, arith, inl, inr,
}
use llm_hub.Proto.{CreatePairingCodeResponse}
use llm_hub.Result.{ok, err}
use llm_hub.Web.Dialog.{
  Page, Event, Visit, generate, answered, close, click_add, type_name, click_generate, answer,
  click_close, arrive, continue,
}

-- Where a code comes from.
abbrev pub IsReceived : List ℕ → List CreatePairingCodeResponse → Type 0
IsReceived code received = (r : CreatePairingCodeResponse) × Memᴰ r received × (r.code ≡ code)

-- While a call is under way there is one, and no code.
record Inv (p : Page) : Type 0 where
  busy : p.dialog.busy ≡ ltb 0 p.under_way
  one : p.under_way ≤ 1
  counted : length p.received + p.under_way ≤ length p.asked
  idle : (code : List ℕ) → p.dialog.code ≡ some code → p.under_way ≡ 0
  origin : (code : List ℕ) → p.dialog.code ≡ some code → IsReceived code p.received

kept-IsReceived :
    (code : List ℕ) (r : CreatePairingCodeResponse) (received : List CreatePairingCodeResponse)
    → IsReceived code received
    → IsReceived code (r ∷ received)
kept-IsReceived code r received (s, m, e) = (s, Memᴰ.tail m, e)

Event-Inv : {p q : Page} → Event p q → Inv p → Inv q
unfolding generate answered close
Event-Inv (click_add shut) inv = record {
  busy = inv.busy;
  one = inv.one;
  counted = inv.counted;
  idle = inv.idle;
  origin = inv.origin;
}
Event-Inv (type_name name shown blank) inv = record {
  busy = inv.busy;
  one = inv.one;
  counted = inv.counted;
  idle = inv.idle;
  origin = inv.origin;
}
Event-Inv (click_generate shown blank free) inv = record {
  busy = ground (arith, inv.busy, free);
  one = ground (arith, inv.busy, free);
  counted = ground (arith, inv.busy, free, inv.counted);
  idle = λ code e. absurd (cc (blank, e));
  origin = λ code e. absurd (cc (blank, e));
}
Event-Inv (answer n (ok res) at) inv =
    let last : n ≡ 0 = omega (arith, inv.one, at) in
    record {
      busy = rw last refl;
      one = omega (arith, last);
      counted = omega (arith, inv.counted, at);
      idle = λ code e. last;
      origin = λ code e. (res, Memᴰ.head refl, ground (arith, e));
    }
Event-Inv (answer n (err (some message)) at) inv =
    let last : n ≡ 0 = omega (arith, inv.one, at) in
    record {
      busy = rw last refl;
      one = omega (arith, last);
      counted = omega (arith, inv.counted, at);
      idle = λ code e. last;
      origin = inv.origin;
    }
Event-Inv (answer n (err none) at) inv =
    let last : n ≡ 0 = omega (arith, inv.one, at) in
    record {
      busy = rw last refl;
      one = omega (arith, last);
      counted = omega (arith, inv.counted, at);
      idle = λ code e. last;
      origin = inv.origin;
    }
Event-Inv (click_close shown) inv = record {
  busy = inv.busy;
  one = inv.one;
  counted = inv.counted;
  idle = λ code e. absurd (cc e);
  origin = λ code e. absurd (cc e);
}

Visit-Inv : {p : Page} → Visit p → Inv p
Visit-Inv arrive = record {
  busy = refl;
  one = omega arith;
  counted = omega arith;
  idle = λ code e. absurd (cc e);
  origin = λ code e. absurd (cc e);
}
Visit-Inv (continue v e) = Event-Inv e (Visit-Inv v)

-- Whatever the user clicks and the server answers, the dialog has at most one call under way, is
-- busy exactly while it has, has made at least as many calls as were answered with a code, and the
-- code that it holds is one that the server sent, with no call under way.
pub one_call :
    {p : Page}
    → Visit p
    → (p.under_way ≤ 1)
      × (p.dialog.busy ≡ ltb 0 p.under_way)
      × (length p.received + p.under_way ≤ length p.asked)
      × ((code : List ℕ)
          → p.dialog.code ≡ some code
          → (p.under_way ≡ 0) × IsReceived code p.received)
one_call v =
    let inv = Visit-Inv v in
    (inv.one, inv.busy, inv.counted, λ code e. (inv.idle code e, inv.origin code e))

-- Nothing but Close takes a code away, and no other code takes its place.
pub code_stays :
    {p q : Page} (code : List ℕ)
    → Visit p
    → Event p q
    → p.dialog.code ≡ some code
    → (q.dialog.code ≡ some code) ⊎ ((q.dialog.is_open ≡ false) × (q.dialog.code ≡ none))
unfolding generate close
code_stays code v (click_add shut) e = inl e
code_stays code v (type_name name shown blank) e = inl e
code_stays code v (click_generate shown blank free) e = inl e
code_stays code v (answer n result at) e = absurd (cc ((Visit-Inv v).idle code e, at))
code_stays code v (click_close shown) e = inr (refl, refl)
