-- ===== src/Grpc/Diff/Same.antt =====
-- The comparison of a file with itself.
use text.Mathlib.Text.{◌==◌ as ◌=ₛ◌}
use text.Mathlib.TextPositions.{eq_refl}
use typeway.Base.{
  ◌≡◌, inl, inr, refl, sym, Bool, true, List, [], ◌∷◌, ◌++◌, some, All, In, ◌==◌, any, find,
  flat_map, if◌then◌else◌, eq→==, Bool-cases,
}
use typeway.Grpc.Proto.{ProtoRpcMethod, ProtoService, ParsedField, ParsedMessage, ProtoFile}
use typeway.Grpc.Diff.{
  method_changes, service_changes, diff_services, field_changes, message_changes, diff_messages,
  diff_files,
}

-- Every name, and within a message every tag, belongs to one item only: a search for it finds the item.
pub record Distinct (f : ProtoFile) : Type 0 where
  pub services :
      All
        (λ s.
          (find (λ x. x.name =ₛ s.name) f.services ≡ some s)
          × All (λ m. find (λ x. x.name =ₛ m.name) s.methods ≡ some m) s.methods)
        f.services
  pub messages :
      All
        (λ m.
          (find (λ x. x.name =ₛ m.name) f.messages ≡ some m)
          × All (λ g. find (λ x. x.tag == g.tag) m.fields ≡ some g) m.fields)
        f.messages

flat_map-nil :
    {A B : Type 0} (f : A → List B) (xs : List A) → All (λ x. f x ≡ []) xs → flat_map f xs ≡ []
flat_map-nil f [] h = refl
flat_map-nil f (x ∷ xs) (p, h) = rw (p, flat_map-nil f xs h) refl

both_nil : {A : Type 0} {xs ys : List A} → xs ≡ [] → ys ≡ [] → xs ++ ys ≡ []
both_nil p q = cc

All-map :
    {A : Type 0} (P Q : A → Type 0) (xs : List A) → ((x : A) → P x → Q x) → All P xs → All Q xs
All-map P Q [] f h = tt
All-map P Q (x ∷ xs) f (p, h) = (f x p, All-map P Q xs f h)

-- Each item of a list passes a test that it passes itself.
All-any :
    {A : Type 0} (same : A → A → Bool) (xs ys : List A)
    → ((x : A) → same x x ≡ true)
    → ((x : A) → In x ys → In x xs)
    → All (λ y. any (λ x. same x y) xs ≡ true) ys
All-any same xs [] h k = tt
All-any same xs (y ∷ ys) h k =
    (any-In (λ x. same x y) xs y (h y) (k y (inl refl)), All-any same xs ys h (λ x m. k x (inr m)))
  where
    any-In :
        {A : Type 0} (p : A → Bool) (xs : List A) (x : A) → p x ≡ true → In x xs → any p xs ≡ true
    any-In p [] x e m = elim m [ ]
    any-In p (z ∷ zs) x e (inl q) = rw (sym q, e) refl
    any-In p (z ∷ zs) x e (inr m) = elim (Bool-cases (p z)) [
      | inl yes_first ↦ rw yes_first refl
      | inr no_first ↦ rw no_first (any-In p zs x e m)
    ]

none_added :
    {A B : Type 0} (same : A → A → Bool) (note : A → B) (xs : List A)
    → ((x : A) → same x x ≡ true)
    → flat_map (λ y. if any (λ x. same x y) xs then [] else note y ∷ []) xs ≡ []
none_added same note xs h =
    flat_map-nil (λ y. if any (λ x. same x y) xs then [] else note y ∷ []) xs
      (All-map _ _ xs (λ y e. rw e refl) (All-any same xs xs h (λ x m. m)))

method_changes_self : (owner : _) (m : ProtoRpcMethod) → method_changes owner m (some m) ≡ []
unfolding method_changes
method_changes_self owner m = rw (eq_refl m.input_type, eq_refl m.output_type) refl

field_changes_self : (owner : _) (f : ParsedField) → field_changes owner f (some f) ≡ []
unfolding field_changes
field_changes_self owner f = rw (eq_refl f.proto_type, eq_refl f.name) refl

service_changes_self :
    (s : ProtoService)
    → All (λ m. find (λ x. x.name =ₛ m.name) s.methods ≡ some m) s.methods
    → service_changes s (some s) ≡ []
unfolding service_changes
service_changes_self s h =
    both_nil
      (flat_map-nil (λ m. method_changes s.name m (find (λ x. x.name =ₛ m.name) s.methods))
        s.methods (All-map _ _ s.methods (λ m e. rw e (method_changes_self s.name m)) h))
      (none_added (λ x y. x.name =ₛ y.name) _ s.methods (λ x. eq_refl x.name))

message_changes_self :
    (m : ParsedMessage)
    → All (λ g. find (λ x. x.tag == g.tag) m.fields ≡ some g) m.fields
    → message_changes m (some m) ≡ []
unfolding message_changes
message_changes_self m h =
    both_nil
      (flat_map-nil (λ g. field_changes m.name g (find (λ x. x.tag == g.tag) m.fields)) m.fields
        (All-map _ _ m.fields (λ g e. rw e (field_changes_self m.name g)) h))
      (none_added (λ x y. x.tag == y.tag) _ m.fields (λ x. eq→== x.tag x.tag refl))

diff_services_self : (f : ProtoFile) → Distinct f → diff_services f f ≡ []
unfolding diff_services
diff_services_self f d =
    both_nil
      (flat_map-nil (λ s. service_changes s (find (λ x. x.name =ₛ s.name) f.services)) f.services
        (All-map _ _ f.services (λ s h. rw h.0 (service_changes_self s h.1)) d.services))
      (none_added (λ x y. x.name =ₛ y.name) _ f.services (λ x. eq_refl x.name))

diff_messages_self : (f : ProtoFile) → Distinct f → diff_messages f f ≡ []
unfolding diff_messages
diff_messages_self f d =
    both_nil
      (flat_map-nil (λ m. message_changes m (find (λ x. x.name =ₛ m.name) f.messages)) f.messages
        (All-map _ _ f.messages (λ m h. rw h.0 (message_changes_self m h.1)) d.messages))
      (none_added (λ x y. x.name =ₛ y.name) _ f.messages (λ x. eq_refl x.name))

-- A file whose names and tags are distinct has no changes against itself.
pub diff_files_self : (f : ProtoFile) → Distinct f → diff_files f f ≡ []
unfolding diff_files
diff_files_self f d = rw (diff_services_self f d, diff_messages_self f d) refl
