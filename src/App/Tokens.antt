-- ===== src/App/Tokens.antt =====
-- The keys of the projects and the tokens of the management API in internal/sentryx/security.go and internal/sentryx/app.go.
use crocuta.Prelude.{
  Bool, true, List, [], ◌∷◌, Option, none, some, if◌then◌else◌, Bytes, codes, equal, trim_space,
  cut, split, has_prefix, trim_prefix, Dict, lookup, insert, ℕ, ◌||◌, false, ◌==◌,
}
use crocuta.Control.{ControlPlane, valid_project_key}
use crocuta.Store.Digest.{Sha, hex_encode}
use crocuta.Relay.{HttpRequest, first_header}

-- A set of keys.
abbrev pub KeySet : Type 0
KeySet = List Bytes

unfoldable pub has_member : Bytes → KeySet → Bool
has_member key [] = false
has_member key (k ∷ keys) = equal k key || has_member key keys

abbrev keys_or_empty : Option KeySet → KeySet
keys_or_empty none = []
keys_or_empty (some keys) = keys

abbrev with_member : Bytes → KeySet → KeySet
with_member key keys = if has_member key keys then keys else key ∷ keys

-- One entry of the deployment's text of keys, where it has a project and a key.
abbrev add_project_key : Option (Bytes × Bytes) → Dict KeySet → Dict KeySet
add_project_key none result = result
add_project_key (some (project, key)) result =
    if equal project [] || equal key []
    then result
    else insert project (with_member key (keys_or_empty (lookup project result))) result

unfoldable pub add_project_keys : List Bytes → Dict KeySet → Dict KeySet
add_project_keys [] result = result
add_project_keys (entry ∷ entries) result =
    add_project_keys entries (add_project_key (cut b':' (trim_space entry)) result)

unfoldable pub parse_project_keys : Bytes → Dict KeySet
parse_project_keys value = add_project_keys (split b',' value) []

-- strings.Trim(value, "\"")
unfoldable pub trim_left_quotes : Bytes → Bytes
trim_left_quotes [] = []
trim_left_quotes (c ∷ cs) = let rest = trim_left_quotes cs in if c == 34 then rest else c ∷ cs

abbrev onto_quotes : ℕ → Bytes → Bytes
onto_quotes c [] = if c == 34 then [] else c ∷ []
onto_quotes c (d ∷ ds) = c ∷ d ∷ ds

unfoldable pub trim_right_quotes : Bytes → Bytes
trim_right_quotes [] = []
trim_right_quotes (c ∷ cs) = onto_quotes c (trim_right_quotes cs)

abbrev auth_part : Bytes → Option (Bytes × Bytes) → Bytes → Bytes
auth_part wanted none rest = rest
auth_part wanted (some (name, value)) rest =
    if equal (trim_space name) wanted
    then trim_right_quotes (trim_left_quotes (trim_space value))
    else rest

unfoldable pub find_auth : Bytes → List Bytes → Bytes
find_auth wanted [] = []
find_auth wanted (part ∷ parts) =
    auth_part wanted (cut b'=' (trim_space part)) (find_auth wanted parts)

unfoldable pub parse_sentry_auth : Bytes → Bytes → Bytes
parse_sentry_auth value wanted = find_auth wanted (split b',' value)

abbrev lists_key : Bytes → Option KeySet → Bool
lists_key key none = false
lists_key key (some keys) = has_member key keys

unfoldable pub valid_key : Dict KeySet → Option ControlPlane → Bytes → Bytes → Bool
valid_key [] none project_id key = true
valid_key [] (some control) project_id key = valid_project_key control project_id key
valid_key (entry ∷ keys) control project_id key = lists_key key (lookup project_id (entry ∷ keys))

abbrev add_api_token : Option (Bytes × Bytes) → Dict Bytes → Dict Bytes
add_api_token none result = result
add_api_token (some (token, user_id)) result =
    if equal token [] then result else insert token (trim_space user_id) result

unfoldable pub add_api_tokens : List Bytes → Dict Bytes → Dict Bytes
add_api_tokens [] result = result
add_api_tokens (entry ∷ entries) result =
    add_api_tokens entries (add_api_token (cut b':' (trim_space entry)) result)

unfoldable pub parse_api_tokens : Bytes → Dict Bytes
parse_api_tokens value = add_api_tokens (split b',' value) []

abbrev pub hash_api_token : Sha → Bytes → Bytes
hash_api_token sha token = hex_encode (sha.sum256 token)

-- The token of the Authorization header, where it is a bearer's.
abbrev bearer_token : Bytes → Bytes
bearer_token value =
    if has_prefix value (codes "Bearer ")
    then trim_space (trim_prefix value (codes "Bearer "))
    else []

-- The comparison in constant time is one of bytes.
unfoldable pub valid_artifact_token : Bytes → HttpRequest → Bool
valid_artifact_token [] r = true
valid_artifact_token (c ∷ artifact_token) r =
    let token = first_header (lookup (codes "X-Sentryx-Management-Token") r.headers) in
    let bearer = bearer_token (first_header (lookup (codes "Authorization") r.headers)) in
    equal (if equal token [] then bearer else token) (c ∷ artifact_token)
