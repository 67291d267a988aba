-- ===== src/Mcp/Json.antt =====
-- What tools/hw-agent-mcp calls of nlohmann::json: `J` are its values. A member function that throws
-- on another type gives none.
use hw_agent.Prelude.{
  ℕ, ◌≡◌, Bool, true, false, Text, text_eq, Option, none, some, List, [], ◌∷◌, if◌then◌else◌,
}

-- A signed integer: its sign and its size.
pub record Signed : Type 0 where
  pub negative : Bool
  pub size : ℕ

pub record Json (J : Type 0) : Type 0 where
  pub null : J
  pub of_bool : Bool → J
  pub of_text : Text → J
  pub of_integer : Signed → J
  pub of_list : List J → J
  -- an object, from members with different names
  pub object : List (Text × J) → J
  pub is_null : J → Bool
  pub is_integer : J → Bool
  pub is_object : J → Bool
  pub as_text : J → Option Text
  pub as_list : J → Option (List J)
  -- get<std::size_t>
  pub as_size : J → Option ℕ
  -- `find`; none is end(), also on what is no object
  pub find : Text → J → Option J
  -- json::parse, none where it throws
  pub parse : Text → Option J
  pub dump : J → Option Text

-- The member of that name.
abbrev pub member {ℓ} : {A : Type ℓ} → Text → List (Text × A) → Option A
member name [] = none
member name ((key, value) ∷ rest) = if text_eq key name then some value else member name rest

abbrev pub is_some {ℓ} : {A : Type ℓ} → Option A → Bool
is_some none = false
is_some (some a) = true

-- What the proofs rely on: a constructor and the functions that look into its values.
pub record IsJson (J : Type 0) ⦃j : Json J⦄ : Type 0 where
  pub find-object : (name : Text) (l : List (Text × J)) → j.find name (j.object l) ≡ member name l
  pub object-IsObject : (l : List (Text × J)) → j.is_object (j.object l) ≡ true
  pub as_text-of_text : (t : Text) → j.as_text (j.of_text t) ≡ some t
  pub as_list-of_list : (l : List J) → j.as_list (j.of_list l) ≡ some l
