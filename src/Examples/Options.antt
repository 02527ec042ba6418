-- ===== src/Examples/Options.antt =====
-- Options, their validation and what is built from them.
use gowsclient.Base.{
  ℕ, String, pos, ◌*◌, ◌≤◌, ◌≡◌, ◌↔◌, ◌⊎◌, refl, Bool, true, ◌&&◌, Option, none, some, List, [],
  ◌∷◌, All, is_at_least, is_at_least_iff, IsAtLeast, if◌then◌else◌, arith,
}
use gowsclient.Errors.{Error, nil, errorf, is_nil}
use gowsclient.Config.{Rule, Validator}
use gowsclient.Config.Validation.{IsValid}
use gowsclient.Config.Timeouts.{timeout_of, timeout_of_exact}
use gowsclient.Engine.Factory.{
  Instrumented, plain, new_websocket_engine, Succeeds, IsGiven, IsFresh, new_websocket_engine_iff,
  or_default_options,
}

abbrev all_met : List Rule → Bool
all_met [] = true
all_met (r ∷ rs) = is_at_least r.gte r.value && all_met rs

all_met_iff :
    (rs : List Rule) → (all_met rs ≡ true) ↔ All (λ r. IsAtLeast (Rule.gte r) (Rule.value r)) rs
all_met_iff [] = (λ h. tt, λ h. refl)
all_met_iff (r ∷ rs) = (
  λ h. ((is_at_least_iff r.gte r.value).0 (ground arith), (all_met_iff rs).0 (ground arith)),
  λ h.
      let here = (is_at_least_iff r.gte r.value).1 h.0 in
      let rest = (all_met_iff rs).1 h.1 in ground (arith, here, rest),
)

abbrev check : Option (List Rule) → Error
check none = errorf "validator: (nil)"
check (some rs) = if all_met rs then nil else errorf "a rule is not met"

pub check_iff :
    (rs : List Rule)
    → (is_nil (check (some rs)) ≡ true) ↔ All (λ r. IsAtLeast (Rule.gte r) (Rule.value r)) rs
check_iff rs = (
  λ h. (all_met_iff rs).0 (ground arith),
  λ h. let met = (all_met_iff rs).1 h in ground (arith, met),
)

abbrev pub checker : Validator
checker = record { struct = check; struct_nil = refl; struct_iff = check_iff }

abbrev quarter : ℕ
quarter = 250

timeout_of_exact_example :
    (timeout_of (pos quarter) ≡ none) × (quarter ≡ 0)
    ⊎ (timeout_of (pos quarter) ≡ some (pos (quarter * 1000000))) × (1 ≤ quarter)
timeout_of_exact_example = timeout_of_exact quarter (omega arith)

abbrev url : Option String
url = some "wss://localhost"

abbrev client : Option String
client = some "client"

abbrev adapter : Option (Instrumented Bool)
adapter = some (plain true)

new_websocket_engine_iff_example :
    (Succeeds (new_websocket_engine checker url adapter client none)
      ↔ (IsGiven url × IsGiven client × IsGiven adapter × IsValid (or_default_options none)))
    × IsFresh url adapter client
        (or_default_options none)
        (new_websocket_engine checker url adapter client none)
new_websocket_engine_iff_example = new_websocket_engine_iff checker url adapter client none
