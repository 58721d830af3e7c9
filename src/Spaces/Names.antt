-- ===== src/Spaces/Names.antt =====
-- What `Name` tells of a type.
use spacetest.Base.{
  ℕ, String, Bool, true, false, List, [], ◌∷◌, Option, none, some, ◌==◌, ◌||◌, str_eq, ◌≡◌, refl,
  sym, subst, ap, ◌∙◌, if◌then◌else◌, arith, ◌⊎◌, inl, inr, Bool-cases,
}
use spacetest.Spaces.{
  space_name, lookup, name, clone_newcgroup, clone_newipc, clone_newns, clone_newnet, clone_newpid,
  clone_newtime, clone_newuser, clone_newuts,
}

-- The types of namespaces.
abbrev pub is_type : ℕ → Bool
is_type typ =
    typ == clone_newcgroup
    || typ == clone_newipc
    || typ == clone_newns
    || typ == clone_newnet
    || typ == clone_newpid
    || typ == clone_newtime
    || typ == clone_newuser
    || typ == clone_newuts

-- The type of a name, from the same table.
abbrev type_named : List (ℕ × String) → String → Option ℕ
type_named [] n = none
type_named ((typ, m) ∷ rest) n =
    let later = type_named rest n in if str_eq m n then some typ else later

abbrev read_back : ℕ → Option ℕ
read_back typ = type_named space_name (name typ)

is_type-cases :
    (typ : ℕ)
    → is_type typ ≡ true
    → (typ ≡ clone_newcgroup)
      ⊎ (typ ≡ clone_newipc)
      ⊎ (typ ≡ clone_newns)
      ⊎ (typ ≡ clone_newnet)
      ⊎ (typ ≡ clone_newpid)
      ⊎ (typ ≡ clone_newtime)
      ⊎ (typ ≡ clone_newuser)
      ⊎ (typ ≡ clone_newuts)
is_type-cases typ h = ground arith

read_back-is_type : (typ : ℕ) → is_type typ ≡ true → read_back typ ≡ some typ
unfolding name lookup
read_back-is_type typ h = elim (is_type-cases typ h) [
  | inl e ↦ back clone_newcgroup refl e
  | inr (inl e) ↦ back clone_newipc refl e
  | inr (inr (inl e)) ↦ back clone_newns refl e
  | inr (inr (inr (inl e))) ↦ back clone_newnet refl e
  | inr (inr (inr (inr (inl e)))) ↦ back clone_newpid refl e
  | inr (inr (inr (inr (inr (inl e))))) ↦ back clone_newtime refl e
  | inr (inr (inr (inr (inr (inr (inl e)))))) ↦ back clone_newuser refl e
  | inr (inr (inr (inr (inr (inr (inr e)))))) ↦ back clone_newuts refl e
]
  where
    back : (x : ℕ) → read_back x ≡ some x → typ ≡ x → read_back typ ≡ some typ
    back x is e = subst (λ t. read_back t ≡ some t) (sym e) is

read_back-none : (typ : ℕ) → is_type typ ≡ false → read_back typ ≡ none
unfolding name lookup
read_back-none typ h = ap (λ o. type_named space_name (elim o [ none ↦ "???" | some n ↦ n ])) absent
  where
    absent : lookup typ space_name ≡ none
    absent = ground arith

-- `Name` tells types of namespaces apart: two numbers have the same name only if they are the same
-- or neither is a type of namespaces.
pub name-same : (a b : ℕ) → name a ≡ name b → (a ≡ b) ⊎ ((is_type a ≡ false) × (is_type b ≡ false))
name-same a b same = elim (Bool-cases (is_type a)) [
  | inl x ↦ elim (Bool-cases (is_type b)) [
    | inl y ↦ inl (some_same (sym (read_back-is_type a x) ∙ back ∙ read_back-is_type b y))
    | inr y ↦ absurd (apart (sym (read_back-is_type a x) ∙ back ∙ read_back-none b y))
  ]
  | inr x ↦ elim (Bool-cases (is_type b)) [
    | inl y ↦ absurd (apart (sym (read_back-is_type b y) ∙ sym back ∙ read_back-none a x))
    | inr y ↦ inr (x, y)
  ]
]
  where
    back : read_back a ≡ read_back b
    back = ap (type_named space_name) same

    some_same : some a ≡ some b → a ≡ b
    some_same e = cc

    apart : {x : ℕ} → some x ≡ none → ⊥
    apart e = cc
