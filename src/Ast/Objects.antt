-- ===== src/Ast/Objects.antt =====
-- The fuel of the object parser, src/nova_act/impl/interpreter.py: parse_object_expression.
use nova_act.Prelude.{
  ℕ, zero, suc, ◌≤◌, ◌<◌, ◌≡◌, refl, ap, ◌∙◌, List, [], ◌∷◌, All, arith, if◌then◌else◌,
}
use nova_act.Prelude.Text.{text, Dict}
use nova_act.Errors.{Result, ok}
use nova_act.Fallible.{◌>>=◌, >>=-congr}
use nova_act.Json.{Value, item, get, iterate, arr, Items, is_text}
use nova_act.Json.Depth.{depth, item-depth, get-depth, iterate-depth}
use nova_act.Ast.{assign, add_property, add_properties, parse_object_expression}

abbrev Parser : Type 0 → Type 0
Parser F = Value F → Result (Dict (Value F))

-- Two parsers agree on what is nested less than `n` deep.
abbrev Agree : {F : Type 0} → ℕ → Parser F → Parser F → Type 0
Agree {F} n p q = (v : Value F) → depth v < n → p v ≡ q v

module _ {F : Type 0} where
  assign_congr :
      (p q : Parser F) (result : Dict (Value F)) (key v kind : Value F)
      → p v ≡ q v
      → assign p result key v kind ≡ assign q result key v kind
  unfolding assign
  assign_congr p q result key v kind e = rw e refl

  add_property_congr :
      (n : ℕ) (p q : Parser F) (result : Dict (Value F)) (prop : Value F)
      → Agree n p q
      → depth prop ≤ n
      → add_property p result prop ≡ add_property q result prop
  unfolding add_property
  add_property_congr n p q result prop agree le = >>=-congr (item prop (text "kind")) _ _ λ kind _.
      ap (λ x. if is_text kind (text "PropertyAssignment") then x else ok result)
        (>>=-congr (item prop (text "prop")) _ _ λ key _.
          >>=-congr (item prop (text "value")) _ _ λ v e.
            >>=-congr (item v (text "kind")) _ _ λ k _.
              assign_congr p q result key v k
                (agree v (omega (arith, item-depth prop (text "value") e))))

  add_properties_congr :
      (n : ℕ) (p q : Parser F) (result : Dict (Value F)) (props : List (Value F))
      → Agree n p q
      → All (λ v. depth v ≤ n) props
      → add_properties p result props ≡ add_properties q result props
  unfolding add_properties
  add_properties_congr n p q result [] agree all = refl
  add_properties_congr n p q result (prop ∷ props) agree all =
      ap (λ m. m >>= λ longer. add_properties p longer props)
        (add_property_congr n p q result prop agree all.0)
      ∙ >>=-congr (add_property q result prop) _ _
          λ longer _. add_properties_congr n p q longer props agree all.1

  -- Any two amounts of fuel that exceed the nesting give the same object.
  parse_object_expression_stable :
      (m n : ℕ) (v : Value F)
      → depth v < m
      → depth v < n
      → parse_object_expression m v ≡ parse_object_expression n v
  unfolding parse_object_expression depth
  parse_object_expression_stable zero n v hm hn = absurd (omega arith)
  parse_object_expression_stable (suc m) zero v hm hn = absurd (omega arith)
  parse_object_expression_stable (suc m) (suc n) v hm hn =
      >>=-congr (item v (text "kind")) _ _ λ kind k.
        ap (λ x. if is_text kind (text "ObjectExpression") then x else ok [])
          (>>=-congr (get v (text "props") (arr Items.nil)) _ _ λ props p.
            >>=-congr (iterate props) _ _ λ list l.
              add_properties_congr (depth v) (parse_object_expression m) (parse_object_expression n)
                [] list (λ w h. parse_object_expression_stable m n w (omega arith) (omega arith))
                (iterate-depth props (depth v) l (
                  omega (
                    arith,
                    get-depth v (text "props") (depth v) (arr Items.nil) p (omega arith)
                        (omega (arith, item-depth v (text "kind") k)),
                  ))))
