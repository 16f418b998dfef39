-- ===== src/Acceptance/Scenarios.antt =====
-- What the validators of exact_recovery_acceptance_v63.py, backend_correlation_acceptance_v63.py and
-- recovery_overlay_acceptance_v63.py have in common, loop by loop.
use customs_buyer_intelligen.Prelude.{
  ℕ, ◌+◌, String, Bool, true, false, not, ◌&&◌, ◌||◌, List, [], ◌∷◌, is_in, ◌⊕◌, is_empty,
  raised_by, when, first_of_each, none, some, ◌==◌, if◌then◌else◌,
}
use customs_buyer_intelligen.Python.{
  Value, int, obj, Fields, end, Host, ℤ, Tables, pos, get, truthy, or_str, or_value, to_int, lower,
  is_lower_hex, Outcome, ok, raise, int_error, type_error, ◌>>=◌,
}
use customs_buyer_intelligen.Gates.Values.{listed}

-- How a scenario's row is judged: whether it passed, what is raised where it did not, and the tests
-- that follow where it did.
pub record Judge (F : Type 0) : Type 0 where
  pub passes : Fields F → Bool
  pub failure : String
  pub proofs : String → Fields F → List (Bool × String)

-- The result of a validator; its constant fields and the names that it repeats are left out.
pub record Report : Type 0 where
  pub verified : Bool
  pub passed_count : ℕ
  pub snapshot : String
  pub blockers : List String

unfoldable pub report_of : ℕ → String → List String → Report
unfolding first_of_each
report_of passed_count snapshot blockers = record {
  verified = is_empty (first_of_each blockers);
  passed_count = passed_count;
  snapshot = snapshot;
  blockers = first_of_each blockers;
}

-- `_valid_sha256`
unfoldable pub is_sha256 : Tables → String → Bool
unfolding lower is_lower_hex
is_sha256 tables s = is_lower_hex 64 (lower tables s)

abbrev pub is_one : {A : Type 0} → List A → Bool
is_one [] = false
is_one (_ ∷ []) = true
is_one (_ ∷ _ ∷ _) = false

abbrev pub is_any : {A : Type 0} → List A → Bool
is_any [] = false
is_any (_ ∷ _) = true

module _ {F : Type 0} ⦃py : Host F⦄ where
  -- `dict(v or {})`, for a value that is a dict or false. A list of pairs is refused too.
  unfoldable pub dict_of : Value F → Outcome (Fields F)
  unfolding truthy
  dict_of (obj fs) = ok fs
  dict_of v = if truthy v then raise type_error else ok end

  unfoldable pub dicts_of : List (Value F) → Outcome (List (Fields F))
  unfolding dict_of
  dicts_of [] = ok []
  dicts_of (v ∷ vs) = do row ← dict_of v; rows ← dicts_of vs; ok (row ∷ rows)

  -- `[dict(v or {}) for v in (value or [])]`
  unfoldable pub rows_in : Value F → Outcome (List (Fields F))
  unfolding listed dicts_of
  rows_in v = do values ← listed v; dicts_of values

  -- `int(v or 0)`
  unfoldable pub int_or_zero : Value F → Outcome ℤ
  unfolding to_int or_value
  int_or_zero v = elim (to_int (or_value v (int (pos 0)))) [
    | none ↦ raise int_error
    | some n ↦ ok n
  ]

  -- `str(v or "").lower()`
  unfoldable pub lower_text : Value F → String
  unfolding lower or_str
  lower_text v = lower py.tables (or_str "" v)

  module _ (key : String) where
    -- `str(row.get(key) or "")`
    unfoldable pub name_of : Fields F → String
    unfolding or_str get
    name_of row = or_str "" (get key row)

    -- `by_name.get(name, [])`
    unfoldable pub named : String → List (Fields F) → List (Fields F)
    named name [] = []
    named name (row ∷ rows) =
        let rest = named name rows in if name_of row == name then row ∷ rest else rest

    -- Every name that is not empty is a required one.
    unfoldable pub are_known : List String → List (Fields F) → Bool
    are_known required [] = true
    are_known required (row ∷ rows) =
        (name_of row == "" || is_in (name_of row) required) && are_known required rows

    -- Every required name is there.
    unfoldable pub are_there : List String → List (Fields F) → Bool
    are_there [] rows = true
    are_there (name ∷ names) rows = is_any (named name rows) && are_there names rows

    -- No required name has another number of rows than one.
    unfoldable pub are_single : List String → List (Fields F) → Bool
    are_single [] rows = true
    are_single (name ∷ names) rows = is_one (named name rows) && are_single names rows

    -- `not (actual != expected or any(len(by_name.get(name, [])) != 1 for name in expected))`
    unfoldable pub is_case_set : List String → List (Fields F) → Bool
    is_case_set required rows =
        (are_known required rows && are_there required rows) && are_single required rows

    module _ (judge : Judge F) where
      -- One round of the loop over the required names: what it raises, and what it counts.
      unfoldable pub judged : String → List (Fields F) → List String × ℕ
      judged name [] = ([], 0)
      judged name (row ∷ []) =
          if not (judge.passes row)
          then (judge.failure ∷ [], 0)
          else (raised_by (judge.proofs name row), 1)
      judged name (_ ∷ _ ∷ _) = ([], 0)

      unfoldable pub all_judged : List String → List (Fields F) → List String × ℕ
      all_judged [] rows = ([], 0)
      all_judged (name ∷ names) rows =
          let round = judged name (named name rows) in
          let rest = all_judged names rows in (round.0 ⊕ rest.0, round.1 + rest.1)

      -- The report, from the tests before the loops, the blocker of the set, and the tests after them.
      unfoldable pub whole_report :
          List String
          → List (Fields F)
          → String
          → List (Bool × String)
          → String
          → List (Bool × String)
          → Report
      unfolding report_of
      whole_report required rows snapshot before incomplete after =
          report_of (all_judged required rows).1 snapshot (
            raised_by before
            ⊕ (when (not (is_case_set required rows)) incomplete
                ⊕ ((all_judged required rows).0 ⊕ raised_by after)))
