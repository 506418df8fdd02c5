-- ===== src/Control/Tests.antt =====
-- The control plane on a concrete project.
use crocuta.Prelude.{
  trim_space, ◌≡◌, ◌||◌, refl, List, [], ◌∷◌, ◌++◌, some, Bytes, codes, equal, arith, lookup,
  insert, to_lower,
}
use crocuta.Control.{
  ControlPlane, ControlProject, ProjectKey, Urls, ok, err, last_project_key, get_project,
  resolve_org, has_public, keys_of, create_project_key, valid_project_key, revoke_project_key,
  revoke_in, id_of, decimal_from,
}
use crocuta.Control.Projects.{
  is_slug_byte, slugify, slug_bytes, trim_right_dashes, trim_left_dashes, create_project, create_in,
  created, refused, project_exists,
}
use crocuta.Control.Keys.{HasKeys, revoke_project_key-HasKeys, create_project_key-valid}

abbrev shop : ControlProject
shop = record {
  id = codes "7";
  organization_id = codes "1";
  slug = codes "shop";
  name = codes "Shop";
  platform = [];
}

abbrev key_named : Bytes → ProjectKey
key_named id = record {
  id = id;
  name = codes "Default";
  public = codes "public-" ++ id;
  secret = [];
  dsn = [];
  project_id = codes "7";
}

abbrev plane_with : List ProjectKey → ControlPlane
plane_with keys = record {
  organizations = (codes "1", record { id = codes "1"; slug = codes "default" }) ∷ [];
  org_by_slug = (codes "default", codes "1") ∷ [];
  projects = (codes "7", shop) ∷ [];
  project_by_slug = (codes "1:shop", codes "7") ∷ [];
  keys = (codes "7", keys) ∷ [];
  next = 1002;
}

abbrev two_keys : ControlPlane
two_keys = plane_with (key_named (codes "8") ∷ key_named (codes "9") ∷ [])

abbrev one_key : ControlPlane
one_key = plane_with (key_named (codes "9") ∷ [])

shop_found : get_project one_key (codes "Default") (codes "Shop") ≡ some shop
unfolding get_project resolve_org lookup equal to_lower
shop_found = refl

revoked : revoke_project_key two_keys (codes "1") (codes "shop") (codes "8") ≡ ok one_key
unfolding revoke_project_key revoke_in get_project resolve_org lookup insert equal to_lower
revoked = refl

last_key_test :
    revoke_project_key one_key (codes "1") (codes "7") (codes "9") ≡ err last_project_key
unfolding revoke_project_key revoke_in get_project resolve_org lookup equal
last_key_test = refl

id_test : id_of 1003 ≡ codes "1003"
unfolding decimal_from
id_test = refl

revoke_project_key-HasKeys_example : HasKeys one_key
revoke_project_key-HasKeys_example =
    revoke_project_key-HasKeys two_keys one_key (codes "1") (codes "shop") (codes "8")
      (omega arith, tt) revoked

abbrev plain_urls : Urls
plain_urls = record { query_escape = λ s. s; path_escape = λ s. s }

create_project_key-valid_example :
    (after : ControlPlane) × (key : ProjectKey) × (create_project_key plain_urls one_key
        (codes "Default")
        (codes "Shop")
        []
        (codes "abc")
        []
      ≡ ok (after, key))
    × (valid_project_key after (codes "7") (codes "public-abc") ≡ (
        has_public (codes "public-abc") (keys_of (lookup (codes "7") one_key.keys))
        || equal key.public (codes "public-abc")))
    × HasKeys after
create_project_key-valid_example =
    create_project_key-valid plain_urls one_key (codes "Default") (codes "Shop") [] (codes "abc") []
      (codes "public-abc") shop (omega arith, tt) shop_found

slugify_test : slugify (codes " My Shop! ") ≡ codes "my-shop"
unfolding slugify trim_right_dashes trim_left_dashes slug_bytes is_slug_byte to_lower trim_space
slugify_test = refl

twice_test : create_project one_key (codes "1") (codes "Shop") [] [] ≡ refused project_exists
unfolding create_project create_in resolve_org slugify trim_right_dashes trim_left_dashes slug_bytes
    is_slug_byte to_lower trim_space lookup equal
twice_test = refl

abbrev forum : ControlProject
forum = record {
  id = codes "1003";
  organization_id = codes "1";
  slug = codes "forum";
  name = codes "forum";
  platform = [];
}

abbrev with_forum : ControlPlane
with_forum = record one_key {
  projects = insert (codes "1003") forum one_key.projects;
  project_by_slug = insert (codes "1:forum") (codes "1003") one_key.project_by_slug;
  keys =
      insert (codes "1003")
        (record {
          id = codes "1004";
          name = codes "Default";
          public = codes "public-1003";
          secret = [];
          dsn = codes "http://public-1003@localhost/1003";
          project_id = codes "1003";
        }
          ∷ [])
        one_key.keys;
  next = 1004;
}

forum_created : create_project one_key (codes "1") [] (codes "forum") [] ≡ created with_forum forum
unfolding create_project create_in resolve_org decimal_from to_lower lookup insert equal
forum_created = refl
