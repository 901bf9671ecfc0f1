-- ===== src/Exec/Validation/Names.antt =====
-- exec/src/model.cpp: the issues of a model, `IsValidName` and `InspectIdentity`.
use openvehicleframework.Base.{
  ℕ, Bool, true, false, not, ◌&&◌, ◌||◌, List, [], ◌∷◌, ◌++◌, if◌then◌else◌, ◌==◌, leb, length,
  is_empty, all_of, contains, insert,
}
use openvehicleframework.Exec.Types.{valid}

pub data IssueCode : Type 0 where
  invalid_generation invalid_identifier invalid_name duplicate_identifier duplicate_name : IssueCode
  invalid_timeout invalid_retry_policy invalid_readiness_policy invalid_unit_membership : IssueCode
  unknown_application unknown_dependency dependency_cycle unknown_initial_mode : IssueCode
  unknown_constraint_mode self_constraint invalid_fallback_mode contradictory_constraint : IssueCode

-- A part of an issue's path, such as `units[3]` or `.retry`.
pub data Segment : Type 0 where
  in_units in_domains in_modes : ℕ → Segment
  at_generation at_id at_name at_retry at_readiness at_dependencies at_bootstrap at_units : Segment
  at_initial_mode at_recovery_deadline at_fallback_mode at_constraints : Segment

pub record ModelIssue : Type 0 where
  pub code : IssueCode
  pub path : List Segment
  pub cycle : List ℕ

abbrev pub issue : IssueCode → List Segment → ModelIssue
issue c p = record { code = c; path = p; cycle = [] }

-- `push_back` of an issue where a test holds.
abbrev pub raise : Bool → IssueCode → List Segment → List ModelIssue
raise true c p = issue c p ∷ []
raise false c p = []

-- The identifiers and the names that were seen so far.
pub record Seen : Type 0 where
  pub ids : List ℕ
  pub names : List (List ℕ)

abbrev pub no_names : Seen
no_names = record { ids = []; names = [] }

abbrev pub same_name : List ℕ → List ℕ → Bool
same_name [] [] = true
same_name [] (b ∷ bs) = false
same_name (a ∷ xs) [] = false
same_name (a ∷ xs) (b ∷ bs) = (a == b) && same_name xs bs

abbrev pub has_name : List (List ℕ) → List ℕ → Bool
has_name [] n = false
has_name (m ∷ ms) n = same_name m n || has_name ms n

-- `std::isalnum` in the C locale, `_` or `-`.
abbrev pub is_name_character : ℕ → Bool
is_name_character c =
    (leb b'0' c && leb c b'9')
    || (leb b'A' c && leb c b'Z')
    || (leb b'a' c && leb c b'z')
    || (c == b'_')
    || (c == b'-')

-- `IsValidName`.
unfoldable pub is_valid_name : List ℕ → Bool
is_valid_name name = not (is_empty name) && leb (length name) 128 && all_of is_name_character name

-- `InspectIdentity`: what is seen afterwards, and the issues.
unfoldable pub inspect_identity : ℕ → List ℕ → List Segment → Seen → Seen × List ModelIssue
inspect_identity id name path seen =
    let id_path = path ++ at_id ∷ [] in
    let name_path = path ++ at_name ∷ [] in
    (
      record {
        ids = if valid id then insert id seen.ids else seen.ids;
        names =
            if is_valid_name name && not (has_name seen.names name)
            then name ∷ seen.names
            else seen.names;
      },
      (raise (not (valid id)) invalid_identifier id_path
            ++ raise (valid id && contains seen.ids id) duplicate_identifier id_path)
          ++ (raise (not (is_valid_name name)) invalid_name name_path
              ++ raise (is_valid_name name && has_name seen.names name) duplicate_name name_path),
    )
