-- ===== src/Control.antt =====
-- memoryControlPlane of internal/sentryx/control.go: organizations, projects and the keys of a project. A
-- lock holds over each operation, so an operation is a function of the tables; CreateProjectKey and
-- RevokeProjectKey, which take it twice, run alone here. Random ids and url escapes are arguments. Teams,
-- members and users are left out.
pub mod Keys
pub mod Projects
mod Tests
use crocuta.Prelude.{
  ℕ, zero, suc, ◌+◌, ◌/◌, ◌%◌, Bool, true, false, not, ◌&&◌, ◌||◌, List, [], ◌∷◌, ◌++◌, Option,
  none, some, if◌then◌else◌, ltb, ◌==◌, Bytes, codes, equal, Dict, lookup, insert, to_lower,
  trim_space, length, take,
}
use crocuta.Query.Sort.{slice_stable, less_bytes}

pub record Organization : Type 0 where
  pub id : Bytes
  pub slug : Bytes

pub record ProjectKey : Type 0 where
  pub id : Bytes
  pub name : Bytes
  pub public : Bytes
  pub secret : Bytes
  pub dsn : Bytes
  pub project_id : Bytes

pub record ControlProject : Type 0 where
  pub id : Bytes
  pub organization_id : Bytes
  pub slug : Bytes
  pub name : Bytes
  pub platform : Bytes

pub record ControlPlane : Type 0 where
  pub organizations : Dict Organization
  pub org_by_slug : Dict Bytes
  pub projects : Dict ControlProject
  pub project_by_slug : Dict Bytes
  pub keys : Dict (List ProjectKey)
  pub next : ℕ

pub data ControlError : Type 0 where
  project_not_found project_key_not_found last_project_key : ControlError

pub data Outcome {ℓ} (A : Type ℓ) : Type ℓ where
  ok : A → Outcome A
  err : ControlError → Outcome A

-- url.QueryEscape and url.PathEscape
pub record Urls : Type 0 where
  pub query_escape : Bytes → Bytes
  pub path_escape : Bytes → Bytes

-- fmt.Sprintf("%d", n): a number has no more digits than its size.
unfoldable pub decimal_from : ℕ → ℕ → Bytes
decimal_from zero n = (b'0' + n % 10) ∷ []
decimal_from (suc fuel) n =
    let rest = decimal_from fuel (n / 10) in
    if ltb n 10 then (b'0' + n) ∷ [] else rest ++ ((b'0' + n % 10) ∷ [])

-- The id that nextID gives when the counter becomes n.
abbrev pub id_of : ℕ → Bytes
id_of n = decimal_from n n

abbrev pub in_table {ℓ} : {A : Type ℓ} → Dict A → Option Bytes → Option A
in_table table none = none
in_table table (some id) = lookup id table

unfoldable pub resolve_org : ControlPlane → Bytes → Option Organization
resolve_org m ref = elim (lookup ref m.organizations) [
  | some org ↦ some org
  | none ↦ in_table m.organizations (lookup (to_lower ref) m.org_by_slug)
]

-- An empty id in the table of slugs is no project.
abbrev pub by_slug : ControlPlane → Option Bytes → Option ControlProject
by_slug m none = none
by_slug m (some id) = if equal id [] then none else lookup id m.projects

abbrev pub of_org : Organization → Option ControlProject → Option ControlProject
of_org org none = none
of_org org (some project) = if equal project.organization_id org.id then some project else none

abbrev pub project_in : ControlPlane → Bytes → Organization → Option ControlProject
project_in m project_ref org = elim (lookup project_ref m.projects) [
  | some project ↦ of_org org (some project)
  | none ↦
      of_org org (by_slug m (lookup (org.id ++ (b':' ∷ to_lower project_ref)) m.project_by_slug))
]

unfoldable pub get_project : ControlPlane → Bytes → Bytes → Option ControlProject
get_project m org_ref project_ref = elim (resolve_org m org_ref) [
  | none ↦ none
  | some org ↦ project_in m project_ref org
]

abbrev pub has_public : Bytes → List ProjectKey → Bool
has_public public_key [] = false
has_public public_key (key ∷ keys) = equal key.public public_key || has_public public_key keys

abbrev pub valid_in : Bytes → Option (List ProjectKey) → Bool
valid_in public_key none = true
valid_in public_key (some keys) = has_public public_key keys

unfoldable pub valid_project_key : ControlPlane → Bytes → Bytes → Bool
valid_project_key m project_id public_key = valid_in public_key (lookup project_id m.keys)

abbrev pub keys_of : Option (List ProjectKey) → List ProjectKey
keys_of none = []
keys_of (some keys) = keys

abbrev pub dsn_of : Urls → Bytes → Bytes → Bytes
dsn_of urls public_key project_id =
    codes "http://"
    ++ urls.query_escape public_key
    ++ codes "@localhost/"
    ++ urls.path_escape project_id

unfoldable pub ensure_project : Urls → ControlPlane → Bytes → Bytes → ControlPlane
ensure_project urls m project_id public_key = elim (lookup project_id m.projects) [
  | some project ↦ m
  | none ↦
      let public_key' = if equal public_key [] then codes "public-" ++ project_id else public_key in
      record m {
        projects =
            insert project_id
              (record {
                id = project_id;
                organization_id = codes "1";
                slug = project_id;
                name = project_id;
                platform = codes "javascript";
              })
              m.projects;
        project_by_slug = insert (codes "1:" ++ to_lower project_id) project_id m.project_by_slug;
        keys =
            insert project_id
              (record {
                id = id_of (m.next + 1);
                name = codes "Default";
                public = public_key';
                secret = [];
                dsn = dsn_of urls public_key' project_id;
                project_id = project_id;
              }
                ∷ [])
              m.keys;
        next = m.next + 1;
      }
]

-- The new key; `random` and `secret` are what randomID returned.
abbrev pub new_key : Urls → ControlPlane → ControlProject → Bytes → Bytes → Bytes → ProjectKey
new_key urls m project name random secret =
    let public = codes "public-" ++ take 16 random in
    record {
      id = id_of (m.next + 1);
      name = if equal (trim_space name) [] then codes "Key" else name;
      public = public;
      secret = secret;
      dsn = dsn_of urls public project.id;
      project_id = project.id;
    }

unfoldable pub create_project_key :
    Urls
    → ControlPlane
    → Bytes
    → Bytes
    → Bytes
    → Bytes
    → Bytes
    → Outcome (ControlPlane × ProjectKey)
create_project_key urls m org_ref project_ref name random secret =
    elim (get_project m org_ref project_ref) [
      | none ↦ err project_not_found
      | some project ↦
          let key = new_key urls m project name random secret in
          ok (
            record m {
              keys = insert project.id (keys_of (lookup project.id m.keys) ++ (key ∷ [])) m.keys;
              next = m.next + 1;
            },
            key,
          )
    ]

abbrev pub has_key : Bytes → List ProjectKey → Bool
has_key key_id [] = false
has_key key_id (key ∷ keys) = equal key.id key_id || has_key key_id keys

-- The list without the first key of that id.
abbrev pub without_key : Bytes → List ProjectKey → List ProjectKey
without_key key_id [] = []
without_key key_id (key ∷ keys) =
    if equal key.id key_id then keys else key ∷ without_key key_id keys

unfoldable pub revoke_in : ControlPlane → Bytes → Bytes → Outcome ControlPlane
revoke_in m project_id key_id =
    let keys = keys_of (lookup project_id m.keys) in
    if not (has_key key_id keys)
    then err project_key_not_found
    else if length keys == 1
    then err last_project_key
    else ok record m { keys = insert project_id (without_key key_id keys) m.keys }

unfoldable pub revoke_project_key : ControlPlane → Bytes → Bytes → Bytes → Outcome ControlPlane
revoke_project_key m org_ref project_ref key_id = elim (get_project m org_ref project_ref) [
  | none ↦ err project_not_found
  | some project ↦ revoke_in m project.id key_id
]

unfoldable pub list_project_keys : ControlPlane → Bytes → Bytes → List ProjectKey
list_project_keys m org_ref project_ref = elim (get_project m org_ref project_ref) [
  | none ↦ []
  | some project ↦ keys_of (lookup project.id m.keys)
]

abbrev pub organizations_of : Dict Organization → List Organization
organizations_of [] = []
organizations_of ((id, org) ∷ rest) = org ∷ organizations_of rest

unfoldable pub list_organizations : ControlPlane → List Organization
list_organizations m =
    slice_stable (λ x y. less_bytes x.slug y.slug) (organizations_of m.organizations)
