-- ===== src/Arguments/Shape.antt =====
-- Which keywords a tool is called with, and how the preparation fails.
use nova_act.Prelude.{◌≡◌, ◌⊎◌, List, [], ◌∷◌, map}
use nova_act.Prelude.Text.{Text, text, Dict}
use nova_act.Errors.{Exn, Result, ok, err}
use nova_act.Errors.Classes.{value_error}
use nova_act.Json.{Value, Numbers, to_float}
use nova_act.Arguments.{
  Action, click, hover, scroll, type_text, go_to_url, return, take_observation, think, throw, wait,
  wait_for_page_to_settle, unknown,
}

abbrev pub keys {ℓ} : {V : Type ℓ} → Dict V → List Text
keys d = map (λ p. p.0) d

abbrev pub HasKeywords : Action → List Text → Type 0
HasKeywords click ks = (ks ≡ text "box" ∷ []) ⊎ (ks ≡ text "box" ∷ text "click_type" ∷ [])
HasKeywords hover ks = ks ≡ text "box" ∷ []
HasKeywords scroll ks = ks ≡ text "direction" ∷ text "box" ∷ []
HasKeywords type_text ks = ks ≡ text "value" ∷ text "box" ∷ text "pressEnter" ∷ []
HasKeywords go_to_url ks = ks ≡ text "url" ∷ []
HasKeywords return ks = ks ≡ text "value" ∷ []
HasKeywords take_observation ks = ks ≡ []
HasKeywords think ks = ks ≡ text "value" ∷ []
HasKeywords throw ks = ks ≡ text "value" ∷ []
HasKeywords wait ks = ks ≡ text "seconds" ∷ []
HasKeywords wait_for_page_to_settle ks = ks ≡ []
HasKeywords unknown ks = ⊥

module _ {F : Type 0} (numbers : Numbers F) where
  abbrev pub FloatFails : Action → Exn → Type 0
  FloatFails a e = (a ≡ wait) × (v : Value F) × (to_float numbers v ≡ err e)

  -- What a preparation may leave.
  abbrev pub Prepared : Action → Result (Dict (Value F)) → Type 0
  Prepared a (ok kwargs) = HasKeywords a (keys kwargs)
  Prepared a (err e) = (e.cls ≡ value_error) ⊎ FloatFails a e
