-- ===== src/Transcode/Tests.antt =====
-- The theorems on transcode.rs at a concrete service, and runs of its functions.
use Prim.Native.String.{String}
use text.Mathlib.Text.{◌==◌ as ◌=ₛ◌}
use typeway.Base.{
  ℕ, ◌≡◌, refl, sym, subst, if◌then◌else◌, inl, inr, Bool, true, false, List, [], ◌∷◌, none, some,
  arith,
}
use typeway.Grpc.Message.Utf8.{is_utf8}
use typeway.Binary.Base64.{codes}
use typeway.Binary.Fields.{FieldDefs, nil, cons, field_def, absent}
use typeway.Binary.Scalars.{Fits}
use typeway.Binary.RoundTrip.Objects.{Distinct, Describes}
use typeway.Binary.Tests.Values.{number, str, object, empty, member, array, item, end, sample}
use typeway.Transcode.{
  FieldSpec, MessageSpec, MethodSpec, GrpcServiceSpec, ok, err, method_not_found, find_method,
  message_fields, field_specs_to_defs, decode_request, encode_message, encode_response, is_scalar,
}
use typeway.Transcode.Depth.{
  IsRanked, Defined, IsCyclic, HoldsOne, field_specs_to_defs-Defined, field_specs_to_defs_cyclic,
}
use typeway.Transcode.RoundTrip.{Agrees, decode_request-encode_message}

abbrev field : String → String → ℕ → Bool → FieldSpec
field name proto_type tag repeated = record {
  name = name;
  proto_type = proto_type;
  tag = tag;
  repeated = repeated;
  optional = false;
  is_map = false;
  map_key_type = none;
  map_value_type = none;
  description = none;
}

abbrev message : String → List FieldSpec → String × MessageSpec
message name fields = (name, record { name = name; fields = fields; description = none })

abbrev method : String → String → String → String × MethodSpec
method name request_type response_type = (
  name,
  record {
    name = name;
    full_path = name;
    rest_path = "/users";
    http_method = "POST";
    request_type = request_type;
    response_type = response_type;
    server_streaming = false;
    client_streaming = false;
    description = none;
    summary = none;
    tags = [];
    requires_auth = false;
  },
)

abbrev user_message : List FieldSpec
user_message = field "id" "uint32" 1 false ∷ field "name" "string" 2 false ∷ []

abbrev users : GrpcServiceSpec
users = record {
  proto = "";
  service = record {
    name = "Users";
    package_name = "v1";
    full_name = "v1.Users";
    description = none;
    version = none;
  };
  methods =
      method "/v1.Users/Create" "User" "UserList"
      ∷ method "/v1.Users/List" "google.protobuf.Empty" "UserList"
      ∷ [];
  messages =
      message "User" user_message ∷ message "UserList" (field "users" "User" 1 true ∷ []) ∷ [];
}

abbrev user_fields : FieldDefs
user_fields =
    cons (field_def "id" "uint32" 1 false false none none absent)
      (cons (field_def "name" "string" 2 false false none none absent) nil)

known_user : message_fields 1 users "User" ≡ some (some user_fields)
unfolding message_fields
known_user = refl

abbrev ada : sample.Map
ada = member "id" (number 7 false) (member "name" (str (codes "ada")) empty)

list_written :
    encode_response sample 2 users "/v1.Users/List"
      (object (member "users" (array (item (object ada) end)) empty))
    ≡ ok (10 ∷ 7 ∷ 8 ∷ 7 ∷ 18 ∷ 3 ∷ 97 ∷ 100 ∷ 97 ∷ [])
unfolding encode_response
list_written = refl

abbrev create : MethodSpec
create = let entry : String × MethodSpec = method "/v1.Users/Create" "User" "UserList" in entry.1

found : find_method users "/v1.Users/Create" ≡ some create
unfolding find_method
found = refl

unknown_method :
    decode_request sample 2 users "/v1.Users/Drop" [] ≡ err (method_not_found "/v1.Users/Drop")
unfolding decode_request
unknown_method = refl

decode_request-encode_message_example :
    (bytes : List ℕ) × (m' : sample.Map) × (encode_message sample 1 users "User" (object ada)
      ≡ ok bytes)
    × (decode_request sample 1 users "/v1.Users/Create" bytes ≡ ok (object m'))
    × Agrees sample user_fields ada m'
decode_request-encode_message_example =
    decode_request-encode_message sample 1 users "/v1.Users/Create" create user_fields found refl
      known_user ada distinct described
  where
    distinct : Distinct user_fields
    distinct = ((refl, tt), (λ e. omega arith, tt), (tt, tt, tt))

    described : Describes sample user_fields ada
    described = (
      refl,
      refl,
      omega arith,
      inr (Fits.uint32 7 (omega arith)),
      (
        refl,
        refl,
        omega arith,
        inr (Fits.text (codes "ada") (omega arith) (unfold is_utf8 in refl) (omega arith)),
        tt,
      ),
    )

-- A list of users holds users.
abbrev users_rank : String → ℕ
users_rank name = if name =ₛ "UserList" then 1 else 0

users-IsRanked : IsRanked users.messages users_rank
unfolding is_scalar
users-IsRanked = ((inl refl, (inl refl, tt)), ((inr (inr (omega arith)), tt), tt))

field_specs_to_defs-Defined_example :
    Defined users.messages (field_specs_to_defs 2 users.messages (field "users" "User" 1 true ∷ []))
field_specs_to_defs-Defined_example =
    field_specs_to_defs-Defined users.messages users_rank users-IsRanked 2 "UserList" _ refl
      (omega arith)

-- A tree, which holds trees.
abbrev tree_fields : List FieldSpec
tree_fields = field "label" "string" 1 false ∷ field "children" "Tree" 2 true ∷ []

abbrev trees : List (String × MessageSpec)
trees = message "Tree" tree_fields ∷ []

abbrev IsTree : String → Type 0
IsTree name = name ≡ "Tree"

trees-HoldsOne : HoldsOne trees IsTree "Tree"
unfolding is_scalar
trees-HoldsOne = (_, field "children" "Tree" 2 true, refl, inr (inl refl), refl, refl)

trees-IsCyclic : IsCyclic trees IsTree
trees-IsCyclic name e = subst (HoldsOne trees IsTree) (sym e) trees-HoldsOne

field_specs_to_defs_cyclic_example : field_specs_to_defs 1000 trees tree_fields ≡ none
field_specs_to_defs_cyclic_example =
    field_specs_to_defs_cyclic trees IsTree 1000 "Tree" _ trees-IsCyclic refl refl
