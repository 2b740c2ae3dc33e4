-- ===== src/Tag/Typed.antt =====
-- The type of a value that convert_tag converts names the member of the union that is set.
use oly.Prelude.{◌≡◌, Bool, true, false, Option, none, some, refl, if◌then◌else◌}
use mathlib.Core.Path.{subst}
use oly.Status.{Status, okay, warn_tag_not_match}
use oly.Tag.{
  TagType, Union, NodeValue, string_value, float_value, int_value, uint_value, bool_value,
  scalar_null, scalar_bool, scalar_int, scalar_uint, scalar_float, scalar_plus_infinity,
  scalar_minus_infinity, scalar_not_a_number, scalar_string, tag_value,
}
use oly.Tag.Icu.{
  Icu, Text, matched, bool_true, bool_false, plus_infinity, minus_infinity, not_a_number,
}
use oly.Tag.Import.{
  import_tag_null, import_tag_bool, import_tag_int, import_tag_uint, import_tag_float,
  import_tag_plus_inf, import_tag_minus_inf, import_tag_nan, import_tag_string, marker, bool_with,
  bool_from,
}
use oly.Tag.Basic.{convert_tag, basic_tag}

-- The member that a type stands for is the one that was written last; the types without a value have
-- the null pointer, and a string a pointer to a text.
abbrev pub Member : {D : Type 0} → TagType → Union Text D → Type 0
Member scalar_null (string_value none) = Unit {0}
Member scalar_bool (bool_value b) = Unit {0}
Member scalar_int (int_value i) = Unit {0}
Member scalar_uint (uint_value i) = Unit {0}
Member scalar_float (float_value x) = Unit {0}
Member scalar_plus_infinity (string_value none) = Unit {0}
Member scalar_minus_infinity (string_value none) = Unit {0}
Member scalar_not_a_number (string_value none) = Unit {0}
Member scalar_string (string_value (some s)) = Unit {0}
Member _ _ = ⊥

abbrev pub IsTyped : {D : Type 0} → NodeValue Text D → Type 0
IsTyped v = Member v.type v.value

-- A result that is OLY_OKAY has the type `t`, and the member of that type.
abbrev Typed : {D : Type 0} → TagType → Option (Status × NodeValue Text D) → Type 0
Typed t none = Unit {0}
Typed t (some (okay, w)) = (w.type ≡ t) × IsTyped w
Typed t (some (_, w)) = Unit {0}

module _ {D : Type 0} where
  -- The branches of a number.
  number-Typed :
      (failed whole : Bool) (u w : NodeValue Text D) (t : TagType)
      → u.type ≡ t
      → IsTyped u
      → Typed t (
          if failed then none else (if whole then some (okay, u) else some (warn_tag_not_match, w)))
  number-Typed true whole u w t e h = tt
  number-Typed false true u w t e h = (e, h)
  number-Typed false false u w t e h = tt

  uint-Typed :
      (whole : Bool) (u w : NodeValue Text D) (t : TagType)
      → u.type ≡ t
      → IsTyped u
      → Typed t (if whole then some (okay, u) else some (warn_tag_not_match, w))
  uint-Typed true u w t e h = (e, h)
  uint-Typed false u w t e h = tt

  -- A type without a value.
  marker-Typed :
      (icu : Icu D) (m : Option Bool) (t : TagType) (out : NodeValue Text D)
      → Member {D = D} t (string_value none)
      → Typed t (marker icu m t out)
  marker-Typed icu none t out h = tt
  marker-Typed icu (some true) t out h = (refl, h)
  marker-Typed icu (some false) t out h = tt

  bool_with-Typed :
      (icu : Icu D) (v : Union Text D) (m : Option Bool) (t : TagType)
      → Member scalar_bool v
      → Typed scalar_bool (bool_with icu v m t)
  bool_with-Typed icu v none t h = tt
  bool_with-Typed icu v (some true) t h = (refl, tt)
  bool_with-Typed icu (string_value x) (some false) t h = absurd h
  bool_with-Typed icu (float_value x) (some false) t h = absurd h
  bool_with-Typed icu (int_value x) (some false) t h = absurd h
  bool_with-Typed icu (uint_value x) (some false) t h = absurd h
  bool_with-Typed icu (bool_value true) (some false) t h = tt
  bool_with-Typed icu (bool_value false) (some false) t h = (refl, tt)

  bool_from-Typed :
      (icu : Icu D) (m : Option Bool) (s : Text) (out : NodeValue Text D)
      → Member scalar_bool out.value
      → Typed scalar_bool (bool_from icu m s out)
  bool_from-Typed icu none s out h = tt
  bool_from-Typed icu (some true) s out h =
      bool_with-Typed icu (bool_value false) (matched icu bool_true s) out.type tt
  bool_from-Typed icu (some false) s out h =
      bool_with-Typed icu out.value (matched icu bool_true s) out.type h

  import-Typed :
      (icu : Icu D) (s : Text) (t : TagType) (v : NodeValue Text D)
      → (t ≡ scalar_bool → Member scalar_bool v.value)
      → Typed t (convert_tag icu s (some t) v)
  unfolding convert_tag basic_tag tag_value import_tag_null import_tag_bool import_tag_int
      import_tag_uint import_tag_float import_tag_plus_inf import_tag_minus_inf import_tag_nan
      import_tag_string
  import-Typed icu s scalar_null v old = (refl, tt)
  import-Typed icu s scalar_bool v old =
      bool_from-Typed icu (matched icu bool_false s) s v (old refl)
  import-Typed icu s scalar_int v old =
      number-Typed (icu.parse_int s).failure _ _ _ scalar_int refl tt
  import-Typed icu s scalar_uint v old = uint-Typed _ _ _ scalar_uint refl tt
  import-Typed icu s scalar_float v old =
      number-Typed (icu.parse_double s).failure _ _ _ scalar_float refl tt
  import-Typed icu s scalar_plus_infinity v old =
      marker-Typed icu (matched icu plus_infinity s) scalar_plus_infinity v tt
  import-Typed icu s scalar_minus_infinity v old =
      marker-Typed icu (matched icu minus_infinity s) scalar_minus_infinity v tt
  import-Typed icu s scalar_not_a_number v old =
      marker-Typed icu (matched icu not_a_number s) scalar_not_a_number v tt
  import-Typed icu s scalar_string v old = (refl, tt)
  import-Typed icu s _ v old = tt

  -- Where a scalar that is to be a bool has an old value that is one: if convert_tag reports OLY_OKAY for
  -- a type, the value has that type, and the member of the union that is set is the one of the type.
  pub convert_tag-IsTyped :
      (icu : Icu D) (s : Text) (t : TagType) (v w : NodeValue Text D)
      → (t ≡ scalar_bool → Member scalar_bool v.value)
      → convert_tag icu s (some t) v ≡ some (okay, w)
      → (w.type ≡ t) × IsTyped w
  convert_tag-IsTyped icu s t v w old e = subst (λ o. Typed t o) e (import-Typed icu s t v old)
