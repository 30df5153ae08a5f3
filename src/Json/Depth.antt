-- ===== src/Json/Depth.antt =====
-- How deep a value is nested, by which recursion over parts that are looked up is bounded.
use nova_act.Prelude.{
  ℕ, ap, map, Option-cases, suc, ◌≤◌, ◌≡◌, some, [], ◌∷◌, List, arith, All, Bool-cases, inl, inr,
  ◌<◌,
}
use nova_act.Prelude.Text.{Text, text_eq}
use nova_act.Errors.{ok}
use nova_act.Json.{
  Value, Items, Fields, null, bool, int, float, str, arr, obj, nil, cons, end, field, values, pairs,
  field?, item, get, iterate,
}
use Prim.Native.Nat.{max}

module _ {F : Type 0} where
  unfoldable mutual
    pub depth : Value F → ℕ
    depth null = 0
    depth (bool b) = 0
    depth (int n) = 0
    depth (float x) = 0
    depth (str s) = 0
    depth (arr vs) = suc (items_depth vs)
    depth (obj fs) = suc (fields_depth fs)

    pub items_depth : Items F → ℕ
    items_depth nil = 0
    items_depth (cons v vs) = max (depth v) (items_depth vs)

    pub fields_depth : Fields F → ℕ
    fields_depth end = 0
    fields_depth (field k v fs) = max (depth v) (fields_depth fs)

strings-depth :
    (F : Type 0) {A : Type 0} (f : A → Text) (l : List A) (n : ℕ)
    → All (λ (v : Value F). depth v ≤ n) (map (λ a. str (f a)) l)
unfolding depth
strings-depth F f [] n = tt
strings-depth F f (a ∷ l) n = (omega arith, strings-depth F f l n)

module _ {F : Type 0} where
  pub field-depth :
      (key : Text) (fs : Fields F) {v : Value F}
      → field? key fs ≡ some v
      → depth v ≤ fields_depth fs
  unfolding field? depth
  field-depth key end h = absurd (ground arith)
  field-depth key (field k w fs) {v} h = elim (Bool-cases (text_eq k key)) [
    | inl here ↦ let e : w ≡ v = ground arith in omega (arith, ap (λ (x : Value F). depth x) e)
    | inr there ↦ omega (arith, field-depth key fs {v = v} (ground arith))
  ]

  All-weaken :
      {m n : ℕ} (l : List (Value F)) → m ≤ n → All (λ v. depth v ≤ m) l → All (λ v. depth v ≤ n) l
  All-weaken [] le h = tt
  All-weaken (v ∷ l) le h = (omega (arith, h.0), All-weaken l le h.1)

  pub values-depth : (vs : Items F) → All (λ v. depth v ≤ items_depth vs) (values vs)
  unfolding values depth
  values-depth nil = tt
  values-depth (cons v vs) = (omega arith, All-weaken (values vs) (omega arith) (values-depth vs))

  -- What is looked up in a dictionary is nested less deeply.
  pub item-depth : (v : Value F) (key : Text) {w : Value F} → item v key ≡ ok w → depth w < depth v
  unfolding item depth
  item-depth (obj fs) key {w} h = elim (Option-cases (field? key fs)) [
    | inl absent ↦ absurd (ground arith)
    | inr (u, present) ↦
        let e : u ≡ w = ground arith in
        omega (arith, field-depth key fs present, ap (λ (x : Value F). depth x) e)
  ]
  item-depth null key h = cc
  item-depth _ key h = cc

  pub get-depth :
      (v : Value F) (key : Text) (n : ℕ) (default : Value F) {w : Value F}
      → get v key default ≡ ok w
      → depth v ≤ suc n
      → depth default ≤ n
      → depth w ≤ n
  unfolding get depth
  get-depth (obj fs) key n default {w} h le d = elim (Option-cases (field? key fs)) [
    | inl absent ↦
        let e : default ≡ w = ground arith in omega (arith, ap (λ (x : Value F). depth x) e)
    | inr (u, present) ↦
        let e : u ≡ w = ground arith in
        omega (arith, field-depth key fs present, ap (λ (x : Value F). depth x) e)
  ]
  get-depth null key n default h le d = cc
  get-depth _ key n default h le d = cc

  pub iterate-depth :
      (v : Value F) (n : ℕ) {l : List (Value F)}
      → iterate v ≡ ok l
      → depth v ≤ suc n
      → All (λ w. depth w ≤ n) l
  unfolding iterate depth
  iterate-depth (arr vs) n {l} h le =
      let e : values vs ≡ l = ground arith in
      rw e at (All-weaken {n = n} (values vs) (omega arith) (values-depth vs))
  iterate-depth (obj fs) n {l} h le =
      let e : map (λ (p : Text × Value F). str p.0) (pairs fs) ≡ l = ground arith in
      rw e at (strings-depth F (λ (p : Text × Value F). p.0) (pairs fs) n)
  iterate-depth (str s) n {l} h le =
      let e : ◌≡◌ {A = List (Value F)} (map (λ (c : ℕ). str (c ∷ [])) s) l = ground arith in
      rw e at (strings-depth F (λ (c : ℕ). c ∷ []) s n)
  iterate-depth null n h le = cc
  iterate-depth _ n h le = cc
