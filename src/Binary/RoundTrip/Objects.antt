-- ===== src/Binary/RoundTrip/Objects.antt =====
-- The objects that scalar fields describe, and what of them is kept in proto_codec.rs's binary form.
use Prim.Native.String.{String}
use text.Mathlib.Text.{◌==◌ as ◌=ₛ◌}
use text.Mathlib.TextEquality.{eq_iff}
use text.Mathlib.TextPositions.{eq_refl}
use typeway.Base.{
  ℕ, ◌^◌, ◌<◌, ◌≡◌, ◌≢◌, ◌⊎◌, inl, inr, refl, sym, subst, ◌∙◌, true, false, ◌||◌, Option, some,
  none, if◌then◌else◌, Bool-cases,
}
use typeway.Binary.Fields.{ProtoFieldDef, field_def, FieldDefs, nil, cons}
use typeway.Binary.Json.{Json}
use typeway.Binary.Encode.{is_proto3_default}
use typeway.Binary.Scalars.{Fits}
use typeway.Binary.Defaults.{is_default, is_proto3_default-is_default}

unequal_sym : (a b : String) → (a =ₛ b) ≡ false → (b =ₛ a) ≡ false
unequal_sym a b h = elim (Bool-cases (b =ₛ a)) [
  | inl t ↦ let e : (a =ₛ b) ≡ true = (eq_iff a b).1 (sym ((eq_iff b a).0 t)) in cc
  | inr f ↦ f
]

abbrev pub name_of : ProtoFieldDef → String
name_of (field_def name t tag repeated is_map k v nested) = name

abbrev pub tag_of : ProtoFieldDef → ℕ
tag_of (field_def name t tag repeated is_map k v nested) = tag

-- No definition has the name, or the number.
abbrev pub Unnamed : String → FieldDefs → Type 0
Unnamed name nil = Unit
Unnamed name (cons f fields) = ((name_of f =ₛ name) ≡ false) × Unnamed name fields

abbrev pub Unnumbered : ℕ → FieldDefs → Type 0
Unnumbered tag nil = Unit
Unnumbered tag (cons f fields) = (tag ≢ tag_of f) × Unnumbered tag fields

-- Names and numbers stand for one field each.
abbrev pub Distinct : FieldDefs → Type 0
Distinct nil = Unit
Distinct (cons f fields) =
    Unnamed (name_of f) fields × Unnumbered (tag_of f) fields × Distinct fields

module _ (J : Json) where
  abbrev pub FitsMember : Option J.Value → String → Type 0
  FitsMember none t = Unit
  FitsMember (some v) t = (J.is_null v ≡ true) ⊎ Fits J t v

  -- Scalar fields with numbers that protobuf allows, and for each a value of its type, null or nothing.
  abbrev pub Describes : FieldDefs → J.Map → Type 0
  Describes nil m = Unit
  Describes (cons (field_def name t tag repeated is_map k v nested) fields) m =
      (repeated ≡ false)
      × (is_map ≡ false)
      × (tag < 2 ^ 29)
      × FitsMember (J.get m name) t
      × Describes fields m

  -- What is read back of what an object has for a field: null and the default of the type are left
  -- out, and any other value comes back as it was.
  pub data Kept (t : String) : Option J.Value → Option J.Value → Type 0 where
    missing : Kept t none none
    null : (v : J.Value) → J.is_null v ≡ true → Kept t (some v) none
    default :
        (v : J.Value) (f : Fits J t v)
        → J.is_null v ≡ false
        → is_default J f ≡ true
        → Kept t (some v) none
    value :
        (v : J.Value) (f : Fits J t v)
        → J.is_null v ≡ false
        → is_default J f ≡ false
        → Kept t (some v) (some v)

  -- What the code writes.
  abbrev pub kept : String → Option J.Value → Option J.Value
  kept t none = none
  kept t (some v) = if J.is_null v || is_proto3_default J v t then none else some v

  kept-Kept : (t : String) (o : Option J.Value) → FitsMember o t → Kept t o (kept t o)
  kept-Kept t none h = missing
  kept-Kept t (some v) h = elim (Bool-cases (J.is_null v)) [
    | inl e ↦ rw e (null v e)
    | inr e ↦ elim h [
      | inl q ↦ absurd (false_ne (sym e ∙ q))
      | inr f ↦ elim (Bool-cases (is_default J f)) [
        | inl d ↦ rw (e, is_proto3_default-is_default J f, d) (default v f e d)
        | inr d ↦ rw (e, is_proto3_default-is_default J f, d) (value v f e d)
      ]
    ]
  ]
    where
      false_ne : false ≡ true → ⊥
      false_ne q = cc

  abbrev pub Keeps : FieldDefs → J.Map → J.Map → Type 0
  Keeps nil m m' = Unit
  Keeps (cons (field_def name t tag repeated is_map k v nested) fields) m m' =
      Kept t (J.get m name) (J.get m' name) × Keeps fields m m'

  abbrev pub put : String → Option J.Value → J.Map → J.Map
  put name none r = r
  put name (some v) r = J.insert name v r

  -- The object that is read back.
  abbrev pub put_all : FieldDefs → J.Map → J.Map → J.Map
  put_all nil m r = r
  put_all (cons (field_def name t tag repeated is_map k v nested) fields) m r =
      put_all fields m (put name (kept t (J.get m name)) r)

  get-put :
      (name j : String) (o : Option J.Value) (r : J.Map)
      → (name =ₛ j) ≡ false
      → J.get (put name o r) j ≡ J.get r j
  get-put name j none r h = refl
  get-put name j (some v) r h = J.get-insert name j v r ∙ rw h refl

  pub get-put_all :
      (fields : FieldDefs) (m r : J.Map) (j : String)
      → Unnamed j fields
      → J.get (put_all fields m r) j ≡ J.get r j
  get-put_all nil m r j h = refl
  get-put_all (cons (field_def name t tag repeated is_map k v nested) fields) m r j (h, hs) =
      get-put_all fields m (put name (kept t (J.get m name)) r) j hs
      ∙ get-put name j (kept t (J.get m name)) r h

  get-put_self :
      (name : String) (o : Option J.Value) (r : J.Map)
      → J.get r name ≡ none
      → J.get (put name o r) name ≡ o
  get-put_self name none r h = h
  get-put_self name (some v) r h = J.get-insert name name v r ∙ rw (eq_refl name) refl

  abbrev pub Missing : FieldDefs → J.Map → Type 0
  Missing nil r = Unit
  Missing (cons f fields) r = (J.get r (name_of f) ≡ none) × Missing fields r

  put-Missing :
      (fields : FieldDefs) (name : String) (o : Option J.Value) (r : J.Map)
      → Unnamed name fields
      → Missing fields r
      → Missing fields (put name o r)
  put-Missing nil name o r h k = tt
  put-Missing (cons f fields) name o r (h, hs) (k, ks) = (
    get-put name (name_of f) o r (unequal_sym (name_of f) name h) ∙ k,
    put-Missing fields name o r hs ks,
  )

  pub new-Missing : (fields : FieldDefs) → Missing fields J.new
  new-Missing nil = tt
  new-Missing (cons f fields) = (J.get-new (name_of f), new-Missing fields)

  pub put_all-Keeps :
      (fields : FieldDefs) (m r : J.Map)
      → Distinct fields
      → Describes fields m
      → Missing fields r
      → Keeps fields m (put_all fields m r)
  put_all-Keeps nil m r h d k = tt
  put_all-Keeps (cons (field_def name t tag repeated is_map kt vt nested) fields) m r
        (unnamed, _, h) (_, _, _, fits, d) (k, ks) =
      let o : Option J.Value = kept t (J.get m name) in
      (
        subst (λ x. Kept t (J.get m name) x)
            (sym (get-put_all fields m (put name o r) name unnamed ∙ get-put_self name o r k))
            (kept-Kept t (J.get m name) fits),
        put_all-Keeps fields m (put name o r) h d (put-Missing fields name o r unnamed ks),
      )
