-- ===== src/Node/TypeName.antt =====
-- `type_name` of Cornus/include/utils.hpp, with which `createNode` words its exception. What the C++
-- run-time library calls a type is a parameter.
use cornus.Base.{Bool, Option, none, some, Bytes, ◌++◌, codes, if◌then◌else◌}

pub data Reference : Type 0 where
  no_reference lvalue_reference rvalue_reference : Reference

-- A type as the traits see it; `typeid(...).name()` and its demangled form are without qualifiers.
pub record CppType : Type 0 where
  pub name : Bytes
  pub demangled : Option Bytes
  pub is_const : Bool
  pub is_volatile : Bool
  pub reference : Reference

abbrev pub remove_reference : CppType → CppType
remove_reference t = record t { reference = Reference.no_reference }

unfoldable pub base_name : CppType → Bytes
base_name t = elim t.demangled [ none ↦ t.name | some own ↦ own ]

abbrev reference_mark : Reference → Bytes
reference_mark Reference.no_reference = codes ""
reference_mark Reference.lvalue_reference = codes "&"
reference_mark Reference.rvalue_reference = codes "&&"

-- The traits are those of the type without its reference, so the name of a reference has no mark.
unfoldable pub type_name : CppType → Bytes
unfolding base_name
type_name t =
    let tr = remove_reference t in
    base_name tr
    ++ (if tr.is_const then codes " const" else codes "")
    ++ (if tr.is_volatile then codes " volatile" else codes "")
    ++ reference_mark tr.reference
