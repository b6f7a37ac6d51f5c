-- ===== src/Grpc/Diff/Breaking.antt =====
-- What a comparison without a breaking change says about the two files.
use Prim.Native.String.{String}
use text.Mathlib.Text.{◌==◌ as ◌=ₛ◌}
use text.Mathlib.TextEquality.{eq_iff}
use typeway.Base.{
  ◌≡◌, ◌↔◌, inl, inr, refl, sym, ◌∙◌, Bool, true, false, List, [], ◌∷◌, ◌++◌, Option, none, some,
  All, ◌==◌, any, find, flat_map, if◌then◌else◌, Bool-cases,
}
use typeway.Grpc.Proto.{ProtoRpcMethod, ProtoService, ParsedField, ParsedMessage, ProtoFile}
use typeway.Grpc.Diff.{
  compatible, breaking, ProtoChange, method_changes, service_changes, diff_services, field_changes,
  message_changes, diff_messages, diff_files,
}

abbrev pub IsCompatible : ProtoChange → Type 0
IsCompatible c = c.kind ≡ compatible

-- The old method, if the new service has it with the same types.
abbrev pub KeepsMethod : ProtoRpcMethod → Option ProtoRpcMethod → Type 0
KeepsMethod m none = ⊥
KeepsMethod m (some nm) = (nm.input_type ≡ m.input_type) × (nm.output_type ≡ m.output_type)

abbrev pub KeepsService : ProtoService → Option ProtoService → Type 0
KeepsService s none = ⊥
KeepsService s (some ns) =
    All (λ m. KeepsMethod m (find (λ x. x.name =ₛ m.name) ns.methods)) s.methods

abbrev pub KeepsField : ParsedField → Option ParsedField → Type 0
KeepsField f none = ⊥
KeepsField f (some nf) = nf.proto_type ≡ f.proto_type

abbrev pub KeepsMessage : ParsedMessage → Option ParsedMessage → Type 0
KeepsMessage m none = ⊥
KeepsMessage m (some nm) = All (λ f. KeepsField f (find (λ x. x.tag == f.tag) nm.fields)) m.fields

-- The new file has each service and message of the old one by its name, each method by its name and
-- each field by its tag, with the same types.
pub record Keeps (old new : ProtoFile) : Type 0 where
  pub services : All (λ s. KeepsService s (find (λ x. x.name =ₛ s.name) new.services)) old.services
  pub messages : All (λ m. KeepsMessage m (find (λ x. x.name =ₛ m.name) new.messages)) old.messages

module _ {A : Type 0} (P : A → Type 0) where
  All-append_iff : (xs ys : List A) → All P (xs ++ ys) ↔ (All P xs × All P ys)
  All-append_iff [] ys = ((λ h. (tt, h)), (λ h. h.1))
  All-append_iff (x ∷ xs) ys =
      let ih = All-append_iff xs ys in
      ((λ h. let r = ih.0 h.1 in ((h.0, r.0), r.1)), (λ h. (h.0.0, ih.1 (h.0.1, h.1))))

  All-flat_map :
      {B : Type 0} (Q : B → Type 0) (f : B → List A) (xs : List B)
      → ((b : B) → All P (f b) ↔ Q b)
      → All P (flat_map f xs) ↔ All Q xs
  All-flat_map Q f [] h = ((λ p. tt), (λ p. tt))
  All-flat_map Q f (x ∷ xs) h =
      let split = All-append_iff (f x) (flat_map f xs) in
      let rest = All-flat_map Q f xs h in
      (
        (λ p. let r = split.0 p in ((h x).0 r.0, rest.0 r.1)),
        (λ q. split.1 ((h x).1 q.0, rest.1 q.1)),
      )

  -- The second of two parts never breaks `P`.
  All-append_harmless : (xs ys : List A) → All P ys → All P (xs ++ ys) ↔ All P xs
  All-append_harmless xs ys h =
      let split = All-append_iff xs ys in ((λ p. (split.0 p).0), (λ p. split.1 (p, h)))

All-added :
    {B : Type 0} (known : B → Bool) (note : B → ProtoChange) (xs : List B)
    → ((b : B) → IsCompatible (note b))
    → All IsCompatible (flat_map (λ b. if known b then [] else note b ∷ []) xs)
All-added known note [] h = tt
All-added known note (x ∷ xs) h = elim (Bool-cases (known x)) [
  | inl e ↦ rw e (All-added known note xs h)
  | inr e ↦ rw e (h x, All-added known note xs h)
]

breaking-ne-compatible : breaking ≡ compatible → ⊥
breaking-ne-compatible e = cc

-- A breaking change is left out exactly where its test holds.
guarded :
    (b : Bool) (P : Type 0) (c : ProtoChange)
    → c.kind ≡ breaking
    → (b ≡ true) ↔ P
    → All IsCompatible (if b then [] else c ∷ []) ↔ P
guarded true P c e h = ((λ _. h.0 refl), (λ _. tt))
guarded false P c e h =
    ((λ p. absurd (breaking-ne-compatible (sym e ∙ p.0))), (λ p. let wrong = h.1 p in cc))

noted : (b : Bool) (c : ProtoChange) → IsCompatible c → All IsCompatible (if b then [] else c ∷ [])
noted true c h = tt
noted false c h = (h, tt)

iff_trans : {A B C : Type 0} → A ↔ B → B ↔ C → A ↔ C
iff_trans f g = ((λ a. g.0 (f.0 a)), (λ c. f.1 (g.1 c)))

iff_both : {A B C D : Type 0} → A ↔ B → C ↔ D → (A × C) ↔ (B × D)
iff_both f g = ((λ p. (f.0 p.0, g.0 p.1)), (λ p. (f.1 p.0, g.1 p.1)))

method_changes-Keeps :
    (owner : String) (m : ProtoRpcMethod) (o : Option ProtoRpcMethod)
    → All IsCompatible (method_changes owner m o) ↔ KeepsMethod m o
unfolding method_changes
method_changes-Keeps owner m none = ((λ h. breaking-ne-compatible h.0), (λ h. absurd h))
method_changes-Keeps owner m (some nm) = iff_trans (All-append_iff IsCompatible _ _) (
    iff_both
      (guarded (nm.input_type =ₛ m.input_type) (nm.input_type ≡ m.input_type) _ refl
        (eq_iff nm.input_type m.input_type))
      (guarded (nm.output_type =ₛ m.output_type) (nm.output_type ≡ m.output_type) _ refl
        (eq_iff nm.output_type m.output_type)))

field_changes-Keeps :
    (owner : String) (f : ParsedField) (o : Option ParsedField)
    → All IsCompatible (field_changes owner f o) ↔ KeepsField f o
unfolding field_changes
field_changes-Keeps owner f none = ((λ h. breaking-ne-compatible h.0), (λ h. absurd h))
field_changes-Keeps owner f (some nf) =
    iff_trans (All-append_harmless IsCompatible _ _ (noted (nf.name =ₛ f.name) _ refl)) (
      guarded (nf.proto_type =ₛ f.proto_type) (nf.proto_type ≡ f.proto_type) _ refl
        (eq_iff nf.proto_type f.proto_type))

service_changes-Keeps :
    (s : ProtoService) (o : Option ProtoService)
    → All IsCompatible (service_changes s o) ↔ KeepsService s o
unfolding service_changes
service_changes-Keeps s none = ((λ h. breaking-ne-compatible h.0), (λ h. absurd h))
service_changes-Keeps s (some ns) =
    iff_trans
      (All-append_harmless IsCompatible _ _
        (All-added (λ nm. any (λ x. x.name =ₛ nm.name) s.methods) _ ns.methods (λ b. refl)))
      (All-flat_map IsCompatible _ _ s.methods
        (λ m. method_changes-Keeps s.name m (find (λ x. x.name =ₛ m.name) ns.methods)))

message_changes-Keeps :
    (m : ParsedMessage) (o : Option ParsedMessage)
    → All IsCompatible (message_changes m o) ↔ KeepsMessage m o
unfolding message_changes
message_changes-Keeps m none = ((λ h. breaking-ne-compatible h.0), (λ h. absurd h))
message_changes-Keeps m (some nm) =
    iff_trans
      (All-append_harmless IsCompatible _ _
        (All-added (λ nf. any (λ x. x.tag == nf.tag) m.fields) _ nm.fields (λ b. refl)))
      (All-flat_map IsCompatible _ _ m.fields
        (λ f. field_changes-Keeps m.name f (find (λ x. x.tag == f.tag) nm.fields)))

diff_services-Keeps :
    (old new : ProtoFile)
    → All IsCompatible (diff_services old new)
      ↔ All (λ s. KeepsService s (find (λ x. x.name =ₛ s.name) new.services)) old.services
unfolding diff_services
diff_services-Keeps old new =
    iff_trans
      (All-append_harmless IsCompatible _ _
        (All-added (λ ns. any (λ x. x.name =ₛ ns.name) old.services) _ new.services (λ b. refl)))
      (All-flat_map IsCompatible _ _ old.services
        (λ s. service_changes-Keeps s (find (λ x. x.name =ₛ s.name) new.services)))

diff_messages-Keeps :
    (old new : ProtoFile)
    → All IsCompatible (diff_messages old new)
      ↔ All (λ m. KeepsMessage m (find (λ x. x.name =ₛ m.name) new.messages)) old.messages
unfolding diff_messages
diff_messages-Keeps old new =
    iff_trans
      (All-append_harmless IsCompatible _ _
        (All-added (λ nm. any (λ x. x.name =ₛ nm.name) old.messages) _ new.messages (λ b. refl)))
      (All-flat_map IsCompatible _ _ old.messages
        (λ m. message_changes-Keeps m (find (λ x. x.name =ₛ m.name) new.messages)))

-- The comparison reports no breaking change exactly where the new file keeps what the old one has:
-- each service and message by its name, each method by its name with the same input and output type,
-- each field by its tag with the same type.
pub diff_files-Keeps : (old new : ProtoFile) → All IsCompatible (diff_files old new) ↔ Keeps old new
unfolding diff_files
diff_files-Keeps old new =
    let all =
      iff_trans (All-append_iff IsCompatible (diff_services old new) (diff_messages old new))
        (iff_both (diff_services-Keeps old new) (diff_messages-Keeps old new)) in
    (
      (λ h. let r = all.0 h in record { services = r.0; messages = r.1 }),
      (λ k. all.1 (k.services, k.messages)),
    )
