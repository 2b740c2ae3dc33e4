-- ===== src/Resources.antt =====
-- The resource of src/resources and src/pvt_resources.h: the locale and the encoding as OChars, and the
-- bundle of ICU. `live` has the blocks that are allocated, `bundles` the bundles that are open. ures_open
-- is a parameter, and the conversion of characters to OChars is one for one. The field array_offset,
-- which nothing uses, is left out.
use oly.Prelude.{
  ℕ, ◌+◌, ◌≡◌, Bool, Option, none, some, List, [], ◌∷◌, length, map, ◌==◌, if◌then◌else◌, arith,
  Option-cases, Bool-cases, inl, inr, refl,
}
use oly.Status.{Status, okay, err_lib}

pub record Blocks : Type 0 where
  pub next : ℕ
  pub live : List ℕ
  pub bundles : List ℕ

-- A block of OChars, how many it has, and the string that is written there, with a terminator behind it.
pub record OString : Type 0 where
  pub block : ℕ
  pub room : ℕ
  pub string : List ℕ

pub record OlyResource : Type 0 where
  pub block : ℕ
  pub locale : Option OString
  pub encoding : Option OString
  pub resource : Option ℕ

abbrev pub allocate : Blocks → ℕ × Blocks
allocate h = (h.next, record h { next = h.next + 1; live = h.next ∷ h.live })

-- `none` is a block that is not allocated, or a bundle that is not open.
abbrev pub remove : ℕ → List ℕ → Option (List ℕ)
remove a [] = none
remove a (x ∷ xs) =
    let rest = remove a xs in
    if x == a then some xs else (elim rest [ none ↦ none | some ys ↦ some (x ∷ ys) ])

abbrev pub release : ℕ → Blocks → Option Blocks
release a h = elim (remove a h.live) [ none ↦ none | some l ↦ some (record h { live = l }) ]

abbrev pub release_string : Option OString → Blocks → Option Blocks
release_string none h = some h
release_string (some s) h = release s.block h

abbrev pub ures_close : Option ℕ → Blocks → Option Blocks
ures_close none h = some h
ures_close (some b) h = elim (remove b h.bundles) [
  | none ↦ none
  | some l ↦ some (record h { bundles = l })
]

abbrev pub with_bundle : Option ℕ → Blocks → Blocks
with_bundle none h = h
with_bundle (some b) h = record h { bundles = b ∷ h.bundles }

-- A string is converted into a new block of so many OChars.
abbrev pub place_string : (ℕ → ℕ) → List ℕ → ℕ → Blocks → OString × Blocks
place_string to_ochar s n h =
    let (a, k) = allocate h in (record { block = a; room = n; string = map to_ochar s }, k)

-- The field `resource` is not set, and stays what the block holds.
unfoldable pub new_resource : (ℕ → ℕ) → List ℕ → List ℕ → Option ℕ → Blocks → OlyResource × Blocks
new_resource to_ochar locale encoding held h =
    let (res, h) = allocate h in
    let (l, h) = place_string to_ochar locale (length locale + 1) h in
    let (e, h) = place_string to_ochar encoding (length encoding + 1) h in
    (record { block = res; locale = some l; encoding = some e; resource = held }, h)

-- `init_primary_resource` of src/core/init_oly.c, with the bundle that ICU opens; a failure is printed.
-- The blocks of the strings have no OChar for the terminator.
unfoldable pub init_primary_resource :
    (ℕ → ℕ) → List ℕ → List ℕ → Option ℕ → Blocks → OlyResource × Blocks
init_primary_resource to_ochar locale encoding opened h =
    let (res, h) = allocate h in
    let (l, h) = place_string to_ochar locale (length locale) h in
    let (e, h) = place_string to_ochar encoding (length encoding) h in
    (
      record { block = res; locale = some l; encoding = some e; resource = opened },
      with_bundle opened h,
    )

-- `open_resource`, with the bundle that ICU gives, `none` for a failure. The error code that the call
-- gets was not set: if what it holds tells a failure, ICU opens nothing. The block for the name of the
-- locale is freed again.
unfoldable pub open_resource :
    Bool → Option ℕ → OlyResource → Blocks → Option (Status × OlyResource × Blocks)
open_resource unset_failure opened res h =
    let (locale_char, h) = allocate h in
    let bundle = if unset_failure then none else opened in
    let status : Status = elim bundle [ none ↦ err_lib | some b ↦ okay ] in
    elim (release locale_char (with_bundle bundle h)) [
      | none ↦ none
      | some k ↦ some (status, record res { resource = bundle }, k)
    ]

-- `none` is a free or a close that C leaves undefined.
unfoldable pub close_resource : OlyResource → Blocks → Option Blocks
close_resource res h = elim (ures_close res.resource h) [
  | none ↦ none
  | some h ↦ elim (release_string res.locale h) [
    | none ↦ none
    | some h ↦ elim (release_string res.encoding h) [ none ↦ none | some h ↦ release res.block h ]
  ]
]

unfoldable pub get_locale : OlyResource → Option OString
get_locale res = res.locale

unfoldable pub get_encoding : OlyResource → Option OString
get_encoding res = res.encoding

unfoldable pub get_resource_data : OlyResource → Option ℕ
get_resource_data res = res.resource

-- The three calls, one after the other; the status is that of `open_resource`.
abbrev pub life :
    (ℕ → ℕ) → List ℕ → List ℕ → Option ℕ → Bool → Option ℕ → Blocks → Option (Status × Blocks)
unfolding new_resource open_resource close_resource
life to_ochar locale encoding held unset_failure opened h =
    let (res, k) = new_resource to_ochar locale encoding held h in
    elim (open_resource unset_failure opened res k) [
      | none ↦ none
      | some (s, res, k) ↦ elim (close_resource res k) [ none ↦ none | some k ↦ some (s, k) ]
    ]

-- new_resource, open_resource and close_resource, one after the other, free each block that they
-- allocate once, and no other, and leave no bundle open that was not before, whether the bundle can be
-- opened or not. The status is OLY_OKAY if ICU opens the bundle and the error code that is not
-- set tells no failure, and else OLY_ERR_LIB.
close_resource-open_resource :
    (to_ochar : ℕ → ℕ) (locale encoding : List ℕ) (held : Option ℕ) (unset_failure : Bool)
    (opened : Option ℕ) (h : Blocks)
    → (k : Blocks) × (life to_ochar locale encoding held unset_failure opened h
        ≡ some (
          if unset_failure then err_lib else (elim opened [ none ↦ err_lib | some b ↦ okay ]),
          k,
        ))
      × (k.live ≡ h.live)
      × (k.bundles ≡ h.bundles)
unfolding life new_resource open_resource close_resource
close_resource-open_resource to_ochar locale encoding held unset_failure opened h = (
  record h { next = h.next + 4 },
  elim (Bool-cases unset_failure) [
    | inl e ↦ ground (arith, e)
    | inr e ↦ elim (Option-cases opened) [
      | inl f ↦ ground (arith, e, f)
      | inr (b, f) ↦ ground (arith, e, f)
    ]
  ],
  refl,
  refl,
)
