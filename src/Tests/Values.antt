-- ===== src/Tests/Values.antt =====
-- JSON values that run, for the tests of tools/hw-agent-mcp.
use hw_agent.Prelude.{
  ◌≡◌, refl, ap, ℕ, Bool, true, false, Text, codes, text_eq, Option, none, some, List, [], ◌∷◌,
  if◌then◌else◌, arith,
}
use hw_agent.Mcp.Json.{Json, IsJson, Signed, member}

mutual
  pub data Value : Type 0 where
    null_value : Value
    bool_value : Bool → Value
    text_value : Text → Value
    integer_value : Signed → Value
    list_value : Values → Value
    object_value : Members → Value

  pub data Values : Type 0 where
    no_values : Values
    value_then : Value → Values → Values

  pub data Members : Type 0 where
    no_members : Members
    member_then : Text → Value → Members → Members

abbrev to_values : List Value → Values
to_values [] = no_values
to_values (v ∷ vs) = value_then v (to_values vs)

abbrev of_values : Values → List Value
of_values no_values = []
of_values (value_then v vs) = v ∷ of_values vs

abbrev to_members : List (Text × Value) → Members
to_members [] = no_members
to_members ((name, v) ∷ rest) = member_then name v (to_members rest)

abbrev find_member : Text → Members → Option Value
find_member name no_members = none
find_member name (member_then key v rest) =
    let later = find_member name rest in if text_eq key name then some v else later

abbrev find_value : Text → Value → Option Value
find_value name (object_value l) = find_member name l
find_value name _ = none

abbrev is_null_value : Value → Bool
is_null_value null_value = true
is_null_value _ = false

abbrev is_integer_value : Value → Bool
is_integer_value (integer_value n) = true
is_integer_value _ = false

abbrev is_object_value : Value → Bool
is_object_value (object_value l) = true
is_object_value _ = false

abbrev text_in : Value → Option Text
text_in (text_value t) = some t
text_in _ = none

abbrev list_in : Value → Option (List Value)
list_in (list_value vs) = some (of_values vs)
list_in _ = none

abbrev size_in : Value → Option ℕ
size_in (integer_value n) = some n.size
size_in _ = none

-- The text that reads as a call of metrics.summary.
abbrev pub call_line : Text
call_line = codes "call"

abbrev pub call_params : Value
call_params = object_value (
    member_then (codes "filters") (list_value (value_then (text_value (codes "cpu")) no_values))
      (member_then (codes "window") (text_value (codes "1m")) no_members))

abbrev pub call_request : Value
call_request = object_value (
    member_then (codes "jsonrpc") (text_value (codes "2.0")) (
      member_then (codes "method") (text_value (codes "tools/call")) (
        member_then (codes "id") (integer_value (record { negative = false; size = 8 })) (
          member_then (codes "params")
            (object_value (
              member_then (codes "name") (text_value (codes "metrics.summary"))
                (member_then (codes "arguments") call_params no_members)))
            no_members))))

-- The text that reads as a request for the list of tools.
abbrev pub list_line : Text
list_line = codes "list"

abbrev pub list_request : Value
list_request = object_value (
    member_then (codes "jsonrpc") (text_value (codes "2.0")) (
      member_then (codes "method") (text_value (codes "tools/list")) (
        member_then (codes "id") (integer_value (record { negative = false; size = 7 }))
          no_members)))

instance abbrev pub value_json : Json Value
value_json = record {
  null = null_value;
  of_bool = bool_value;
  of_text = text_value;
  of_integer = integer_value;
  of_list = λ l. list_value (to_values l);
  object = λ l. object_value (to_members l);
  is_null = is_null_value;
  is_integer = is_integer_value;
  is_object = is_object_value;
  as_text = text_in;
  as_list = list_in;
  as_size = size_in;
  find = find_value;
  parse = λ t.
      if text_eq t list_line
      then some list_request
      else if text_eq t call_line
      then some call_request
      else none;
  dump = λ v. some (if is_object_value v then codes "{}" else codes "null");
}

find_member-eq :
    (name : Text) (l : List (Text × Value)) → find_member name (to_members l) ≡ member name l
find_member-eq name [] = refl
find_member-eq name ((key, v) ∷ rest) = ground (arith, find_member-eq name rest)

of_values-to_values : (l : List Value) → of_values (to_values l) ≡ l
of_values-to_values [] = refl
of_values-to_values (v ∷ vs) = ap (λ l. v ∷ l) (of_values-to_values vs)

pub Value-IsJson : IsJson Value
Value-IsJson = record {
  find-object = find_member-eq;
  object-IsObject = λ l. refl;
  as_text-of_text = λ t. refl;
  as_list-of_list = λ l. ap some (of_values-to_values l);
}
