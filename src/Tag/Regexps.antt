-- ===== src/Tag/Regexps.antt =====
-- init_regexp_data of src/node/tag.c, which compiles the regular expressions of the tags. The resource
-- and the compiler are ICU's: `read` gives the text of an entry and `compile` its expression, `none`
-- for a failure. The functions of ICU do nothing and give NULL while the error code that they share
-- tells a failure, and nothing resets it.
mod Tests
use oly.Prelude.{
  ℕ, zero, suc, ◌+◌, ◌-◌, ◌≤◌, ◌<◌, ◌≡◌, ◌≢◌, ◌↔◌, refl, arith, Bool, true, false, Option, none,
  some, List, ◌==◌, if◌then◌else◌, ltb, leb, ◌&&◌, Bool-cases, Option-cases, inl, inr, sym,
}
use mathlib.Core.Path.{subst}
use oly.Status.{Status, okay, err_illegal_tag}

-- The error code, the status and `simple_regexp`.
pub record Compiling (R : Type 0) : Type 0 where
  pub u_failure : Bool
  pub status : Status
  pub simple_regexp : ℕ → Option R

module _ {R : Type 0} (read : ℕ → Option (List ℕ)) (compile : List ℕ → Option R) where
  -- The expression of an entry.
  abbrev pub expression : ℕ → Option R
  expression i = elim (read i) [ none ↦ none | some s ↦ compile s ]

  abbrev pub with_regexp : Compiling R → ℕ → R → Compiling R
  with_regexp c i r = record c { simple_regexp = λ j. if j == i then some r else c.simple_regexp j }

  abbrev pub with_failure : Compiling R → ℕ → Compiling R
  with_failure c i = record {
    u_failure = true;
    status = err_illegal_tag;
    simple_regexp = λ j. if j == i then none else c.simple_regexp j;
  }

  -- The body of the loop.
  unfoldable pub compile_step : Compiling R → ℕ → Compiling R
  compile_step c i = if c.u_failure then with_failure c i else (elim (read i) [
    | none ↦ with_failure c i
    | some s ↦ elim (compile s) [ none ↦ with_failure c i | some r ↦ with_regexp c i r ]
  ])

  unfoldable pub compile_loop : ℕ → ℕ → Compiling R → Compiling R
  unfolding compile_step
  compile_loop zero i c = c
  compile_loop (suc n) i c = compile_loop n (i + 1) (compile_step c i)

  -- `check_string` is OLY_TAG_CHECK_STRING. The result is `none` if the resource of the expressions is
  -- not found, where `init_tag_regexp` exits, or the number format cannot be opened, where the
  -- function itself does.
  unfoldable pub init_regexp_data :
      Bool → Bool → ℕ → (ℕ → Option R) → Option (Status × (ℕ → Option R))
  unfolding compile_loop
  init_regexp_data false _ check_string old = none
  init_regexp_data true false check_string old = none
  init_regexp_data true true check_string old =
      let c =
        compile_loop check_string 0
          (record { u_failure = false; status = okay; simple_regexp = old }) in
      some (c.status, c.simple_regexp)

  -- Whether an entry and all before it compile.
  abbrev pub good_to : ℕ → Bool
  good_to zero = true
  good_to (suc n) = good_to n && (elim (expression n) [ none ↦ false | some r ↦ true ])

  record Compiled (i : ℕ) (old : ℕ → Option R) (c : Compiling R) : Type 0 where
    code : c.u_failure ≡ (if good_to i then false else true)
    told : c.status ≡ (if good_to i then okay else err_illegal_tag)
    held :
        (j : ℕ)
        → c.simple_regexp j
          ≡ (if ltb j i then (if good_to (suc j) then expression j else none) else old j)

  -- The step keeps it, by what the entry gives.
  step_fails :
      (i : ℕ) (old : ℕ → Option R) (c : Compiling R)
      → Compiled i old c
      → good_to (suc i) ≡ false
      → Compiled (suc i) old (with_failure c i)
  step_fails i old c h bad = record {
    code = ground (arith, bad);
    told = ground (arith, bad);
    held = λ j. ground (arith, bad, h.held j);
  }

  step_compiles :
      (i : ℕ) (old : ℕ → Option R) (c : Compiling R) (r : R)
      → Compiled i old c
      → good_to i ≡ true
      → expression i ≡ some r
      → Compiled (suc i) old (with_regexp c i r)
  step_compiles i old c r h good e = record {
    code = ground (arith, good, e, h.code);
    told = ground (arith, good, e, h.told);
    held = λ j. ground (arith, good, e, h.held j);
  }

  step_lem :
      (i : ℕ) (old : ℕ → Option R) (c : Compiling R)
      → Compiled i old c
      → Compiled (suc i) old (compile_step c i)
  unfolding compile_step
  step_lem i old c h = elim (Bool-cases (good_to i)) [
    | inr bad ↦
        subst (Compiled (suc i) old) (sym (ground (arith, h.code, bad)))
          (step_fails i old c h (ground (arith, bad)))
    | inl good ↦ elim (Option-cases (read i)) [
      | inl e ↦
          subst (Compiled (suc i) old) (sym (ground (arith, h.code, good, e)))
            (step_fails i old c h (ground (arith, e)))
      | inr (s, e) ↦ elim (Option-cases (compile s)) [
        | inl f ↦
            subst (Compiled (suc i) old) (sym (ground (arith, h.code, good, e, f)))
              (step_fails i old c h (ground (arith, e, f)))
        | inr (r, f) ↦
            subst (Compiled (suc i) old) (sym (ground (arith, h.code, good, e, f)))
              (step_compiles i old c r h good (ground (arith, e, f)))
      ]
    ]
  ]

  loop_lem :
      (n i : ℕ) (old : ℕ → Option R) (c : Compiling R)
      → Compiled i old c
      → Compiled (i + n) old (compile_loop n i c)
  unfolding compile_loop
  loop_lem zero i old c h = subst (λ k. Compiled k old c) (omega arith) h
  loop_lem (suc n) i old c h =
      subst (λ k. Compiled k old (compile_loop n (i + 1) (compile_step c i))) (omega arith)
        (loop_lem n (i + 1) old (compile_step c i)
          (subst (λ k. Compiled k old (compile_step c i)) (omega arith) (step_lem i old c h)))

  -- If the resource of the expressions is found and the number format can be opened, init_regexp_data
  -- returns OLY_OKAY when all entries can be read and compiled, and else OLY_ERR_ILLEGAL_TAG. Up to the first entry that cannot, each expression
  -- is that of its entry; from it on all are NULL, also those of entries that could be compiled.
  pub init_regexp_data_lem :
      (check_string : ℕ) (old : ℕ → Option R)
      → (table : ℕ → Option R) × (init_regexp_data true true check_string old
          ≡ some (if good_to check_string then okay else err_illegal_tag, table))
        × ((j : ℕ) → j < check_string → table j ≡ (if good_to (suc j) then expression j else none))
        × ((j : ℕ) → check_string ≤ j → table j ≡ old j)
  unfolding init_regexp_data
  init_regexp_data_lem n old =
      let start : Compiling R = record { u_failure = false; status = okay; simple_regexp = old } in
      let at_start : Compiled 0 old start = record {
        code = refl;
        told = refl;
        held = λ j. ground arith;
      } in
      let done = loop_lem n 0 old start at_start in
      (
        (compile_loop n 0 start).simple_regexp,
        ground (arith, done.told),
        λ j lt. ground (arith, done.held j),
        λ j ge. ground (arith, done.held j),
      )
