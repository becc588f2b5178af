-- ===== src/Json.antt =====
-- encoding/json as the program uses it: JSON values, and `json.Unmarshal` of a value into the Go
-- types that payload.go declares, by the names in their tags.
use yunxiao_workflow_agent.Base.{
  Char, String, Bool, true, false, Option, none, some, List, [], ◌∷◌, ◌==◌, if◌then◌else◌,
}
use yunxiao_workflow_agent.Base.Int.{ℤ, in_int64}
use yunxiao_workflow_agent.Base.Result.{Error, Result, ok, err, ◌>>=◌}
use yunxiao_workflow_agent.Base.Text.{to_upper}
use yunxiao_workflow_agent.Base.Dict.{Dict}

-- `int` is a number written without fraction and exponent, `decimal` any other number.
mutual
  pub data Json : Type 0 where
    null : Json
    bool : Bool → Json
    int : ℤ → Json
    decimal : String → Json
    text : String → Json
    array : Items → Json
    object : Members → Json

  pub data Items : Type 0 where
    nil : Items
    cons : Json → Items → Items

  pub data Members : Type 0 where
    end : Members
    member : String → Json → Members → Members

-- A `nil` interface value.
abbrev pub is_null : Json → Bool
is_null Json.null = true
is_null _ = false

-- Objects and arrays to be marshalled.
abbrev pub members : Dict Json → Members
members [] = Members.end
members ((k, v) ∷ d) = Members.member k v (members d)

abbrev pub items : List Json → Items
items [] = Items.nil
items (v ∷ vs) = Items.cons v (items vs)

-- What the decoder takes from outside: the folding of characters beyond ASCII in field names, the
-- error for a value that does not fit a Go type, and what `any` makes of a value: numbers in it become
-- float64s, or are out of their range.
pub record Decoding : Type 0 where
  pub fold_rune : Char → Char
  pub type_error : Json → String → Error
  pub interface_of : Json → Result Json

-- Decoding a value into a variable: its old value, and the new one.
abbrev pub Decoder : Type 0 → Type 0
Decoder T = Json → T → Result T

abbrev pub Fields : Type 0 → Type 0
Fields T = List (String × Decoder T)

module _ (d : Decoding) where
  unfoldable pub into_string : Decoder String
  into_string Json.null old = ok old
  into_string (Json.text s) old = ok s
  into_string v old = err (d.type_error v "string")

  unfoldable pub into_int64 : Decoder ℤ
  into_int64 Json.null old = ok old
  into_int64 (Json.int z) old = if in_int64 z then ok z else err (d.type_error (Json.int z) "int64")
  into_int64 v old = err (d.type_error v "int64")

  unfoldable pub into_any : Decoder Json
  into_any v old = d.interface_of v

  -- The decoder of the field with this name, or else of one with the name in another case.
  unfoldable pub find_exact {ℓ} : {A : Type ℓ} → String → List (String × A) → Option A
  find_exact name [] = none
  find_exact name ((tag, f) ∷ fs) = if tag == name then some f else find_exact name fs

  unfoldable pub find_folded {ℓ} : {A : Type ℓ} → String → List (String × A) → Option A
  find_folded name [] = none
  find_folded name ((tag, f) ∷ fs) =
      if to_upper d.fold_rune tag == to_upper d.fold_rune name then some f else find_folded name fs

  module _ {T : Type 0} where
    unfoldable pub decode_field : Fields T → String → Decoder T
    unfolding find_exact find_folded to_upper
    decode_field fields name v old = elim (find_exact name fields) [
      | some f ↦ f v old
      | none ↦ elim (find_folded name fields) [ some f ↦ f v old | none ↦ ok old ]
    ]

    unfoldable pub decode_members : Fields T → Members → T → Result T
    unfolding decode_field
    decode_members fields Members.end old = ok old
    decode_members fields (Members.member name v rest) old =
        decode_field fields name v old >>= decode_members fields rest

    -- A struct: members with no field are skipped.
    unfoldable pub into_struct : Fields T → Decoder T
    unfolding decode_members
    into_struct fields Json.null old = ok old
    into_struct fields (Json.object ms) old = decode_members fields ms old
    into_struct fields v old = err (d.type_error v "struct")

    unfoldable pub decode_items : Decoder T → T → Items → Result (List T)
    decode_items f zero_value Items.nil = ok []
    decode_items f zero_value (Items.cons v rest) =
        f v zero_value >>= λ x. decode_items f zero_value rest >>= λ xs. ok (x ∷ xs)

    unfoldable pub into_slice : Decoder T → T → Decoder (List T)
    unfolding decode_items
    into_slice f zero_value Json.null old = ok []
    into_slice f zero_value (Json.array vs) old = decode_items f zero_value vs
    into_slice f zero_value v old = err (d.type_error v "slice")

    -- A pointer: what it points to is decoded in place, or allocated.
    unfoldable pub into_pointer : Decoder T → T → Decoder (Option T)
    into_pointer f zero_value Json.null old = ok none
    into_pointer f zero_value v none = f v zero_value >>= λ x. ok (some x)
    into_pointer f zero_value v (some x) = f v x >>= λ y. ok (some y)

-- A field of a struct: its tag, how it is read and written, and the decoder of its type.
abbrev pub field {ℓ} :
    {T A : Type ℓ}
    → String
    → (T → A)
    → (A → T → T)
    → (Json → A → Result A)
    → String × (Json → T → Result T)
field tag get set f = (tag, λ v r. f v (get r) >>= λ x. ok (set x r))
