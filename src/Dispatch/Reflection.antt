-- ===== src/Dispatch/Reflection.antt =====
-- typeway-grpc/src/reflection.rs: the answers of the reflection service. 34 is the quotation mark.
pub mod Escapes
use typeway.Base.{ℕ, List, [], ◌∷◌, ◌++◌, map, ◌==◌, if◌then◌else◌}
use typeway.Dispatch.Body.{ascii}
use typeway.Dispatch.Health.{contains_text}

pub record ReflectionService : Type 0 where
  pub proto_content : List ℕ
  pub service_names : List (List ℕ)

-- `replace` of a character by a text
unfoldable pub replace_byte : ℕ → List ℕ → List ℕ → List ℕ
replace_byte c out [] = []
replace_byte c out (b ∷ t) =
    let rest = replace_byte c out t in if b == c then out ++ rest else b ∷ rest

-- Backslashes, quotation marks and line feeds, one after the other.
unfoldable pub escape : List ℕ → List ℕ
unfolding replace_byte
escape t =
    replace_byte 10 (92 ∷ 110 ∷ [])
      (replace_byte 34 (92 ∷ 34 ∷ []) (replace_byte 92 (92 ∷ 92 ∷ []) t))

abbrev pub quoted : List ℕ → List ℕ
quoted t = 34 ∷ (t ++ 34 ∷ [])

-- `join(",")`
abbrev pub join_names : List (List ℕ) → List ℕ
join_names [] = []
join_names (t ∷ []) = t
join_names (t ∷ u ∷ ts) = t ++ b',' ∷ join_names (u ∷ ts)

abbrev pub service_entry : List ℕ → List ℕ
service_entry name = b'{' ∷ (quoted (ascii "name") ++ b':' ∷ (quoted name ++ b'}' ∷ []))

unfoldable pub list_response : List (List ℕ) → List ℕ
list_response names =
    b'{'
    ∷ (quoted (ascii "listServicesResponse")
        ++ b':'
          ∷ b'{'
          ∷ (quoted (ascii "service")
              ++ b':' ∷ b'[' ∷ (join_names (map service_entry names) ++ ascii "]}}")))

unfoldable pub file_response : List ℕ → List ℕ
unfolding escape
file_response content =
    b'{'
    ∷ (quoted (ascii "fileDescriptorResponse")
        ++ b':'
          ∷ b'{'
          ∷ (quoted (ascii "fileDescriptorProto")
              ++ b':' ∷ (quoted (escape content) ++ ascii "}}")))

-- Replacing what is no UTF-8 in the request, as the caller does, does not change what it contains of ASCII.
unfoldable pub handle_reflection : ReflectionService → List ℕ → List ℕ
unfolding list_response file_response
handle_reflection s request_body =
    if contains_text (ascii "list_services") request_body
    then list_response s.service_names
    else file_response s.proto_content
