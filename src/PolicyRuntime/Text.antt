-- ===== src/PolicyRuntime/Text.antt =====
-- The text of a JSON value as serde_json writes it for the runtime: without white space, and here for
-- values whose strings and keys need no escapes. `number_text` is how it writes a number.
pub mod Containers
pub mod Nested
pub mod Scan
pub mod Members
pub mod Keys
pub mod Find
use sealstack.Prelude.{◌+◌, ◌-◌, ◌<◌, ◌≡◌, ap, ◌⊎◌, true, false, some, [], ◌∷◌, ◌++◌, ◌==◌, length}
use sealstack.PolicyRuntime.Json.{number_byte, Container}
use sealstack.Bytes.{Bytes, codes}
use sealstack.Numbers.{is_digit}
use sealstack.Json.{Value, Items, Fields, Number}

unfoldable pub quoted : Bytes → Bytes
quoted s = 34 ∷ (s ++ 34 ∷ [])

module _ (number_text : Number → Bytes) where
  unfoldable mutual
    pub print : Value → Bytes
    print Value.null = codes "null"
    print (Value.boolean true) = codes "true"
    print (Value.boolean false) = codes "false"
    print (Value.number n) = number_text n
    print (Value.string s) = quoted s
    print (Value.array vs) = 91 ∷ (print_items vs ++ 93 ∷ [])
    print (Value.object fs) = 123 ∷ (print_fields fs ++ 125 ∷ [])

    pub print_items : Items → Bytes
    print_items Items.nil = []
    print_items (Items.cons v vs) = print v ++ print_more_items vs

    pub print_more_items : Items → Bytes
    print_more_items Items.nil = []
    print_more_items (Items.cons v vs) = 44 ∷ (print v ++ print_more_items vs)

    pub print_fields : Fields → Bytes
    print_fields Fields.end = []
    print_fields (Fields.field k v fs) = quoted k ++ 58 ∷ (print v ++ print_more_fields fs)

    pub print_more_fields : Fields → Bytes
    print_more_fields Fields.end = []
    print_more_fields (Fields.field k v fs) =
        44 ∷ (quoted k ++ 58 ∷ (print v ++ print_more_fields fs))

-- A string that is written as it is.
abbrev pub IsPlain : Bytes → Type 0
IsPlain [] = Unit
IsPlain (b ∷ bs) = (31 < b) × ((b == 34) ≡ false) × ((b == 92) ≡ false) × IsPlain bs

abbrev pub AreNumberBytes : Bytes → Type 0
AreNumberBytes [] = Unit
AreNumberBytes (b ∷ bs) = (number_byte b ≡ true) × AreNumberBytes bs

-- A digit, or a minus sign with something behind it, then bytes of numbers.
abbrev pub IsNumberText : Bytes → Type 0
IsNumberText [] = ⊥
IsNumberText (b ∷ bs) = ((is_digit b ≡ true) ⊎ ((b ≡ 45) × (0 < length bs))) × AreNumberBytes bs

module _ (number_text : Number → Bytes) where
  unfoldable mutual
    pub IsWritten : Value → Type 0
    IsWritten Value.null = Unit
    IsWritten (Value.boolean b) = Unit
    IsWritten (Value.number n) = IsNumberText (number_text n)
    IsWritten (Value.string s) = IsPlain s
    IsWritten (Value.array vs) = AreWritten vs
    IsWritten (Value.object fs) = FieldsWritten fs

    pub AreWritten : Items → Type 0
    AreWritten Items.nil = Unit
    AreWritten (Items.cons v vs) = IsWritten v × AreWritten vs

    pub FieldsWritten : Fields → Type 0
    FieldsWritten Fields.end = Unit
    FieldsWritten (Fields.field k v fs) = IsPlain k × IsWritten v × FieldsWritten fs
