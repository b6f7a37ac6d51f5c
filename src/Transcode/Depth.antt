-- ===== src/Transcode/Depth.antt =====
-- How deep `field_specs_to_defs` of transcode.rs goes: it ends where messages hold smaller messages, and
-- goes on for ever where a message holds itself.
use Prim.Native.String.{String}
use text.Mathlib.Text.{◌==◌ as ◌=ₛ◌}
use text.Mathlib.TextEquality.{eq_iff}
use typeway.Base.{
  ℕ, zero, suc, ◌<◌, ◌≡◌, ◌⊎◌, inl, inr, refl, sym, ap, subst, ◌∙◌, Bool, true, false, not, ◌&&◌,
  List, [], ◌∷◌, In, Option, none, some, arith, Bool-cases, Option-cases,
}
use typeway.Base.Options.{◌>>=◌}
use typeway.Binary.Fields.{NestedFields, absent, present, FieldDefs}
use typeway.Transcode.{
  FieldSpec, MessageSpec, get, is_scalar, field_def_of, nested_of, map_fields, field_specs_to_defs,
}

-- The field holds a message, which is looked up.
abbrev pub holds_message : FieldSpec → Bool
holds_message f = not (is_scalar f.proto_type) && not f.is_map

module _ (messages : List (String × MessageSpec)) where
  -- A field without a message, with a message that is not described, or with one of a lower rank.
  abbrev pub FieldBelow : (String → ℕ) → ℕ → FieldSpec → Type 0
  FieldBelow rank n f =
      (holds_message f ≡ false) ⊎ ((get messages f.proto_type ≡ none) ⊎ (rank f.proto_type < n))

  abbrev pub FieldsBelow : (String → ℕ) → ℕ → List FieldSpec → Type 0
  FieldsBelow rank n [] = Unit
  FieldsBelow rank n (f ∷ fields) = FieldBelow rank n f × FieldsBelow rank n fields

  abbrev pub Ranks : (String → ℕ) → List (String × MessageSpec) → Type 0
  Ranks rank [] = Unit
  Ranks rank ((name, msg) ∷ entries) = FieldsBelow rank (rank name) msg.fields × Ranks rank entries

  found_below :
      (rank : String → ℕ) (entries : List (String × MessageSpec)) (name : String)
      (msg : MessageSpec)
      → Ranks rank entries
      → get entries name ≡ some msg
      → FieldsBelow rank (rank name) msg.fields
  found_below rank [] name msg h e = cc
  found_below rank ((k, m) ∷ entries) name msg (h, hs) e = elim (Bool-cases (k =ₛ name)) [
    | inl t ↦
        let found : some m ≡ some msg = rw t at e in
        let same : m ≡ msg = cc in
        let key : k ≡ name = (eq_iff k name).0 t in
        subst (λ (x : MessageSpec). FieldsBelow rank (rank name) x.fields) same
          (subst (λ (x : String). FieldsBelow rank (rank x) m.fields) key h)
    | inr f ↦ found_below rank entries name msg hs (rw f at e)
  ]

  -- A rank that falls from each message to the messages that it holds.
  abbrev pub IsRanked : (String → ℕ) → Type 0
  IsRanked rank = Ranks rank messages

  abbrev pub Defined : Option FieldDefs → Type 0
  Defined o = (defs : FieldDefs) × (o ≡ some defs)

  module _ (rank : String → ℕ) (ranked : IsRanked rank) where
    lower :
        (n : ℕ) (f : FieldSpec)
        → holds_message f ≡ true
        → (msg : MessageSpec) → get messages f.proto_type ≡ some msg
        → FieldBelow rank n f
        → rank f.proto_type < n
    lower n f holds msg e (inl plain) = absurd (let q : true ≡ false = sym holds ∙ plain in cc)
    lower n f holds msg e (inr (inl gone)) = absurd (let q : some msg ≡ none = sym e ∙ gone in cc)
    lower n f holds msg e (inr (inr h)) = h

    nested-Defined :
        (n : ℕ) (f : FieldSpec) (deeper : List FieldSpec → Option FieldDefs)
        → FieldBelow rank n f
        → ((name : String) (msg : MessageSpec)
            → get messages name ≡ some msg
            → rank name < n
            → Defined (deeper msg.fields))
        → (nested : NestedFields) × (nested_of deeper messages f ≡ some nested)
    unfolding nested_of
    nested-Defined n f deeper below h = elim (Bool-cases (holds_message f)) [
      | inr plain ↦ (absent, rw plain refl)
      | inl holds ↦ elim (Option-cases (get messages f.proto_type)) [
        | inl e ↦ (absent, rw (holds, e) refl)
        | inr (msg, e) ↦
            let (defs, d) = h f.proto_type msg e (lower n f holds msg e below) in
            (present defs, rw (holds, e, d) refl)
      ]
    ]

    map-Defined :
        (n : ℕ) (fields : List FieldSpec) (deeper : List FieldSpec → Option FieldDefs)
        → FieldsBelow rank n fields
        → ((name : String) (msg : MessageSpec)
            → get messages name ≡ some msg
            → rank name < n
            → Defined (deeper msg.fields))
        → Defined (map_fields (nested_of deeper messages) fields)
    unfolding map_fields
    map-Defined n [] deeper below h = (FieldDefs.nil, refl)
    map-Defined n (f ∷ fields) deeper (below, others) h =
        let (nested, e) = nested-Defined n f deeper below h in
        let (defs, e') = map-Defined n fields deeper others h in
        (FieldDefs.cons (field_def_of f nested) defs, rw (e, e') refl)

    -- Where every message only holds messages of a lower rank, the definitions of a message are found
    -- once the fuel passes its rank.
    pub field_specs_to_defs-Defined :
        (fuel : ℕ) (name : String) (msg : MessageSpec)
        → get messages name ≡ some msg
        → rank name < fuel
        → Defined (field_specs_to_defs fuel messages msg.fields)
    unfolding field_specs_to_defs
    field_specs_to_defs-Defined zero name msg e h = absurd (omega arith)
    field_specs_to_defs-Defined (suc fuel) name msg e h =
        map-Defined (rank name) msg.fields (λ fs. field_specs_to_defs fuel messages fs)
          (found_below rank messages name msg ranked e)
          (λ inner m e' h'. field_specs_to_defs-Defined fuel inner m e' (omega arith))

  -- The message of that name holds a message with a name of `P`.
  abbrev pub HoldsOne : (String → Type 0) → String → Type 0
  HoldsOne P name =
      (msg : MessageSpec) × (f : FieldSpec) × (get messages name ≡ some msg)
      × In f msg.fields
      × (holds_message f ≡ true)
      × P f.proto_type

  -- Each message with a name of `P` holds another one.
  abbrev pub IsCyclic : (String → Type 0) → Type 0
  IsCyclic P = (name : String) → P name → HoldsOne P name

  map_fields-none :
      (nested : FieldSpec → Option NestedFields) (fields : List FieldSpec) (f : FieldSpec)
      → In f fields
      → nested f ≡ none
      → map_fields nested fields ≡ none
  unfolding map_fields
  map_fields-none nested [] f h e = elim h [ ]
  map_fields-none nested (g ∷ fields) f (inl same) e = rw (ap nested (sym same) ∙ e) refl
  map_fields-none nested (g ∷ fields) f (inr h) e =
      after (nested g) (map_fields-none nested fields f h e)
    where
      after :
          (o : Option NestedFields)
          → map_fields nested fields ≡ none
          → (o >>= λ n.
              map_fields nested fields >>= λ defs. some (FieldDefs.cons (field_def_of g n) defs))
            ≡ none
      after none q = refl
      after (some n) q = rw q refl

  -- A message that holds itself, at once or through others, is looked up for ever: no depth of calls
  -- is enough for `field_specs_to_defs`.
  pub field_specs_to_defs_cyclic :
      (P : String → Type 0) (fuel : ℕ) (name : String) (msg : MessageSpec)
      → IsCyclic P
      → P name
      → get messages name ≡ some msg
      → field_specs_to_defs fuel messages msg.fields ≡ none
  unfolding field_specs_to_defs nested_of
  field_specs_to_defs_cyclic P zero name msg cyclic p e = refl
  field_specs_to_defs_cyclic P (suc fuel) name msg cyclic p e =
      let (msg', f, e', h, holds, p') = cyclic name p in
      let (inner, _, ei, _, _, _) = cyclic f.proto_type p' in
      let same : msg' ≡ msg = cc in
      let deep = field_specs_to_defs_cyclic P fuel f.proto_type inner cyclic p' ei in
      map_fields-none (nested_of (λ fs. field_specs_to_defs fuel messages fs) messages) msg.fields f
        (rw same at h) (rw (holds, ei) (rw deep refl))
