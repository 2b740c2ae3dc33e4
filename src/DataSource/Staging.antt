-- ===== src/DataSource/Staging.antt =====
-- The key that a data source holds for its next node.
use oly.Prelude.{ℕ, ◌+◌, ◌≡◌, ◌<◌, refl, arith, Option, none, some, List, length, get_or, sym}
use mathlib.Core.Path.{subst}
use native.Mathlib.Decide.{dec_lt, ℕ_discrete}
use oly.Status.{Status, is_okay, okay, err_key_str_too_long}
use oly.Boundary.Rows.{get_or-length}
use oly.DataSource.{DataSource, strncpy, stage_node_key}

module _ {P D : Type 0} where
  -- What a call that staged the key `s` leaves: the characters of the key and a terminator behind
  -- them, and all else but the status as it was.
  pub record Staged (ds : DataSource P D) (s : List ℕ) (t : Status) (d : DataSource P D)
      : Type 0 where
    pub characters : (j : ℕ) → j < length s → d.key_staging j ≡ get_or s j 0
    pub terminated : d.key_staging (length s) ≡ 0
    pub rest_kept : (j : ℕ) → length s < j → d.key_staging j ≡ ds.key_staging j
    pub others_kept : d ≡ record ds { key_staging = d.key_staging; status = t }

  Staged-strncpy :
      (ds : DataSource P D) (s : List ℕ) (t : Status)
      → Staged ds s t
          (record ds { key_staging = strncpy ds.key_staging s (length s + 1); status = t })
  unfolding strncpy
  Staged-strncpy ds s t = record {
    characters = λ j h. ground arith;
    terminated = ground (arith, get_or-length s (length s));
    rest_kept = λ j h. ground arith;
    others_kept = refl;
  }

  -- What staging a key may do, by its length: it is stored with OLY_OKAY; it fills the staging
  -- area, and is stored although it is reported as too long; or it is longer, and the write leaves
  -- the area.
  pub data Stages (ds : DataSource P D) (s : List ℕ)
      : Option (Status × DataSource P D) → Type 0 where
    fits :
        {d : DataSource P D}
        → length s < ds.key_stage_max_length
        → Staged ds s okay d
        → Stages ds s (some (okay, d))
    fills :
        {d : DataSource P D}
        → length s ≡ ds.key_stage_max_length
        → Staged ds s err_key_str_too_long d
        → Stages ds s (some (err_key_str_too_long, d))
    overruns : ds.key_stage_max_length < length s → Stages ds s none

  abbrev pub staged : DataSource P D → List ℕ → Status → DataSource P D
  staged ds s t = record ds { key_staging = strncpy ds.key_staging s (length s + 1); status = t }

  pub stage_fits :
      (ds : DataSource P D) (s : List ℕ)
      → ds.status ≡ okay
      → length s < ds.key_stage_max_length
      → stage_node_key ds (some s) 0 ≡ some (okay, staged ds s okay)
  unfolding stage_node_key is_okay
  stage_fits ds s e h = ground (arith, e, h)

  stage_fills :
      (ds : DataSource P D) (s : List ℕ)
      → ds.status ≡ okay
      → length s ≡ ds.key_stage_max_length
      → stage_node_key ds (some s) 0 ≡ some (err_key_str_too_long, staged ds s err_key_str_too_long)
  unfolding stage_node_key is_okay
  stage_fills ds s e h = ground (arith, e, h)

  stage_overruns :
      (ds : DataSource P D) (s : List ℕ)
      → ds.status ≡ okay
      → ds.key_stage_max_length < length s
      → stage_node_key ds (some s) 0 ≡ none
  unfolding stage_node_key is_okay
  stage_overruns ds s e h = ground (arith, e, h)

  -- Staging a key, with the length left to the call (a key_len of 0), on a data source with status OLY_OKAY: a key
  -- shorter than the area is stored with its terminator and OLY_OKAY. One that just fills it is
  -- stored, with OLY_ERR_KEY_STR_TOO_LONG. A longer one is written past the end of the area.
  pub stage_node_key-Stages :
      (ds : DataSource P D) (s : List ℕ)
      → ds.status ≡ okay
      → Stages ds s (stage_node_key ds (some s) 0)
  stage_node_key-Stages ds s e = elim (dec_lt (length s) ds.key_stage_max_length) [
    | yes lt ↦
        subst (λ r. Stages ds s r) (sym (stage_fits ds s e lt)) (fits lt (Staged-strncpy ds s okay))
    | no ge ↦ elim (ℕ_discrete (length s) ds.key_stage_max_length) [
      | yes same ↦
          subst (λ r. Stages ds s r) (sym (stage_fills ds s e same))
            (fills same (Staged-strncpy ds s err_key_str_too_long))
      | no more ↦
          subst (λ r. Stages ds s r) (sym (stage_overruns ds s e (omega arith)))
            (overruns (omega arith))
    ]
  ]
