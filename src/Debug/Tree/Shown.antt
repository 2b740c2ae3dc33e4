-- ===== src/Debug/Tree/Shown.antt =====
-- What flag_res_display shows of the values in a tree of resources.
use oly.Prelude.{
  ℕ, ◌+◌, ◌≡◌, refl, sym, ◌∙◌, ap, Bool, true, not, Option, List, [], ◌∷◌, ◌++◌, if◌then◌else◌,
  ◌&&◌, arith, Bool-cases, Option-cases, inl, inr,
}
use oly.Prelude.Int.{ℤ}
use oly.Debug.Tree.{
  ResType, ures_string, ures_binary, ures_table, ures_alias, ures_int, ures_array, ures_int_vector,
  ures_none, Resource, res_none, res_string, res_binary, res_table, res_alias, res_int, res_array,
  res_int_vector, Children, no_child, child, res_type, ResDispFlag, flag_check, is_none, Piece,
  text_line, binary_line, number_line, size_line, array_entry, table_entry, blank_line, Printed,
  printed, then_print, print_text, chosen, display_type, list_table_resources, list_array_resources,
  indentation, flag_res_display,
}

-- A value in a tree.
pub data Leaf : Type 0 where
  text : List ℕ → Leaf
  binary : Leaf
  number : ℤ → Leaf
  vector : ℕ → Leaf

-- The types on the way to a value, its own last, and the value.
abbrev pub PathTo : Type 0
PathTo = List ResType × Leaf

abbrev pub under : ResType → List PathTo → List PathTo
under t [] = []
under t ((ts, v) ∷ ls) = (t ∷ ts, v) ∷ under t ls

-- The values in a tree, in order, each with the types on its way.
abbrev mutual
  pub leaves : Resource → List PathTo
  leaves res_none = []
  leaves (res_string s) = (ures_string ∷ [], text s) ∷ []
  leaves res_binary = (ures_binary ∷ [], binary) ∷ []
  leaves (res_table cs) = under ures_table (all_leaves cs)
  leaves (res_alias s) = (ures_alias ∷ [], text s) ∷ []
  leaves (res_int n) = (ures_int ∷ [], number n) ∷ []
  leaves (res_array cs) = under ures_array (all_leaves cs)
  leaves (res_int_vector n) = (ures_int_vector ∷ [], vector n) ∷ []

  pub all_leaves : Children → List PathTo
  all_leaves no_child = []
  all_leaves (child key r cs) = leaves r ++ all_leaves cs

-- What a piece shows of a value; the lines of entries show none.
abbrev pub values : List Piece → List Piece
values [] = []
values (array_entry n i t ∷ ps) = values ps
values (table_entry n key t ∷ ps) = values ps
values (blank_line ∷ ps) = values ps
values (p ∷ ps) = p ∷ values ps

abbrev pub of_values : Printed → Printed
of_values p = record p { pieces = values p.pieces }

values-append : (ps qs : List Piece) → values (ps ++ qs) ≡ values ps ++ values qs
values-append [] qs = refl
values-append (text_line s ∷ ps) qs = rw (values-append ps qs)
values-append (binary_line ∷ ps) qs = rw (values-append ps qs)
values-append (number_line n ∷ ps) qs = rw (values-append ps qs)
values-append (size_line n ∷ ps) qs = rw (values-append ps qs)
values-append (array_entry n i t ∷ ps) qs = values-append ps qs
values-append (table_entry n key t ∷ ps) qs = values-append ps qs
values-append (blank_line ∷ ps) qs = values-append ps qs

of_values-then_print :
    (a b : Printed) → of_values (then_print a b) ≡ then_print (of_values a) (of_values b)
of_values-then_print a b = elim (Bool-cases a.exited) [
  | inl e ↦ ground (arith, e)
  | inr e ↦ ground (arith, e, values-append a.pieces b.pieces)
]

append_assoc : (ps qs rs : List Piece) → (ps ++ qs) ++ rs ≡ ps ++ (qs ++ rs)
append_assoc [] qs rs = refl
append_assoc (p ∷ ps) qs rs = rw (append_assoc ps qs rs)

then_print_assoc : (a b c : Printed) → then_print (then_print a b) c ≡ then_print a (then_print b c)
then_print_assoc a b c = elim (Bool-cases a.exited) [
  | inl e ↦ ground (arith, e)
  | inr e ↦ elim (Bool-cases b.exited) [
    | inl e' ↦ ground (arith, e, e')
    | inr e' ↦ ground (arith, e, e', append_assoc a.pieces b.pieces c.pieces)
  ]
]

module _ (bufsiz : ℕ) (utf8 : List ℕ → Option (List ℕ)) (flag : ResDispFlag) where
  -- Whether the flags choose a type.
  abbrev pub selected : ResType → Bool
  selected t = not (is_none (flag_check t flag))

  abbrev pub all_selected : List ResType → Bool
  all_selected [] = true
  all_selected (t ∷ ts) = selected t && all_selected ts

  -- The values all of whose types are chosen, those on the way and their own.
  abbrev pub visible : List PathTo → List Leaf
  visible [] = []
  visible ((ts, v) ∷ ls) = if all_selected ts then v ∷ visible ls else visible ls

  abbrev pub print_leaf : Leaf → Printed
  print_leaf (text s) = print_text bufsiz utf8 flag s
  print_leaf binary = printed (binary_line ∷ [])
  print_leaf (number n) = printed (number_line n ∷ [])
  print_leaf (vector n) = printed (size_line n ∷ [])

  -- The values one after the other, up to a text that cannot be converted.
  abbrev pub render : List Leaf → Printed
  render [] = printed []
  render (v ∷ vs) = then_print (print_leaf v) (render vs)

  render-append : (vs ws : List Leaf) → render (vs ++ ws) ≡ then_print (render vs) (render ws)
  render-append [] ws = refl
  render-append (v ∷ vs) ws =
      rw (render-append vs ws) (sym (then_print_assoc (print_leaf v) (render vs) (render ws)))

  visible-append : (ls ks : List PathTo) → visible (ls ++ ks) ≡ visible ls ++ visible ks
  visible-append [] ks = refl
  visible-append ((ts, v) ∷ ls) ks = ground (arith, visible-append ls ks)

  visible-under :
      (t : ResType) (ls : List PathTo)
      → visible (under t ls) ≡ (if selected t then visible ls else [])
  visible-under t [] = ground arith
  visible-under t ((ts, v) ∷ ls) = ground (arith, visible-under t ls)

  print_leaf_values : (v : Leaf) → of_values (print_leaf v) ≡ then_print (print_leaf v) (printed [])
  print_leaf_values (text s) = elim (Option-cases (utf8 s)) [
    | inl e ↦ ground (arith, e)
    | inr (t, e) ↦ ground (arith, e)
  ]
  print_leaf_values binary = refl
  print_leaf_values (number n) = refl
  print_leaf_values (vector n) = refl

  shown-under :
      (t : ResType) (ls : List PathTo) (p : Printed)
      → of_values p ≡ render (visible ls)
      → of_values (chosen bufsiz utf8 flag t p) ≡ render (visible (under t ls))
  unfolding chosen
  shown-under t ls p e = ground (arith, visible-under t ls, e)

  shown_leaf :
      (t : ResType) (v : Leaf)
      → of_values (chosen bufsiz utf8 flag t (print_leaf v)) ≡ render (visible ((t ∷ [], v) ∷ []))
  unfolding chosen
  shown_leaf t v = ground (arith, print_leaf_values v)

  -- Two calls, one after the other.
  joined :
      (a b : Printed) (ls ks : List PathTo)
      → of_values a ≡ render (visible ls)
      → of_values b ≡ render (visible ks)
      → of_values (then_print a b) ≡ render (visible (ls ++ ks))
  joined a b ls ks x y =
      of_values-then_print a b
      ∙ ((λ i. then_print (x i) (y i))
          ∙ sym (ap render (visible-append ls ks) ∙ render-append (visible ls) (visible ks)))

  entry_values :
      (n i : ℕ) (t : ResType) (p : Printed)
      → of_values (
          chosen bufsiz utf8 flag t
            (then_print (printed (array_entry n i t ∷ [])) (chosen bufsiz utf8 flag t p)))
        ≡ of_values (chosen bufsiz utf8 flag t p)
  unfolding chosen
  entry_values n i t p = ground arith

  none_shows : (p : Printed) → chosen bufsiz utf8 flag ures_none p ≡ printed []
  unfolding chosen flag_check
  none_shows p = ground arith

  mutual
    unfolding display_type

    display_lem :
        (level : ℕ) (r : Resource)
        → of_values (chosen bufsiz utf8 flag (res_type r) (display_type bufsiz utf8 flag level r))
          ≡ render (visible (leaves r))
    display_lem level res_none = rw (none_shows (printed []))
    display_lem level (res_string s) = shown_leaf ures_string (text s)
    display_lem level res_binary = shown_leaf ures_binary binary
    display_lem level (res_table cs) =
        shown-under ures_table (all_leaves cs)
          (list_table_resources bufsiz utf8 flag (level + 1) cs) (table_lem (level + 1) cs)
    display_lem level (res_alias s) = shown_leaf ures_alias (text s)
    display_lem level (res_int n) = shown_leaf ures_int (number n)
    display_lem level (res_array cs) =
        shown-under ures_array (all_leaves cs)
          (list_array_resources bufsiz utf8 flag (level + 1) 0 cs) (array_lem (level + 1) 0 cs)
    display_lem level (res_int_vector n) = shown_leaf ures_int_vector (vector n)

    table_lem :
        (level : ℕ) (cs : Children)
        → of_values (list_table_resources bufsiz utf8 flag level cs)
          ≡ render (visible (all_leaves cs))
    table_lem level no_child = refl
    table_lem level (child key r cs) =
        joined (chosen bufsiz utf8 flag (res_type r) (display_type bufsiz utf8 flag level r))
          (list_table_resources bufsiz utf8 flag level cs) (leaves r) (all_leaves cs)
          (display_lem level r) (table_lem level cs)

    array_lem :
        (level i : ℕ) (cs : Children)
        → of_values (list_array_resources bufsiz utf8 flag level i cs)
          ≡ render (visible (all_leaves cs))
    array_lem level i no_child = refl
    array_lem level i (child key r cs) =
        joined
          (chosen bufsiz utf8 flag (res_type r) (
            then_print (printed (array_entry (indentation bufsiz level) i (res_type r) ∷ []))
              (chosen bufsiz utf8 flag (res_type r) (display_type bufsiz utf8 flag level r))))
          (list_array_resources bufsiz utf8 flag level (i + 1) cs) (leaves r) (all_leaves cs)
          (entry_values (indentation bufsiz level) i (res_type r)
              (display_type bufsiz utf8 flag level r)
            ∙ display_lem level r)
          (array_lem level (i + 1) cs)

  -- flag_res_display shows of a tree, in order, just the values whose own type and all types on the
  -- way to them are chosen by the flags; the lines of entries aside. It stops, and the program with
  -- it, at the first of these that is a text which cannot be converted into BUFSIZ bytes.
  pub flag_res_display-render :
      (level : ℕ) (r : Resource)
      → of_values (flag_res_display bufsiz utf8 flag level r) ≡ render (visible (leaves r))
  unfolding flag_res_display
  flag_res_display-render level r = display_lem level r
