-- ===== src/Events/Decode/Tags.antt =====
-- deriveEventTags of internal/sentryx/app.go, key by key.
use crocuta.Prelude.{
  ◌≡◌, refl, sym, ap, ◌∙◌, Bool, true, false, List, [], ◌∷◌, Option, none, some, if◌then◌else◌,
  Bytes, equal, equal_iff, Dict, lookup, lookup-insert, Bool-cases, inl, inr, codes, All,
}
use crocuta.Events.{CanonicalEvent}
use crocuta.Events.Decode.{
  set_missing, set_tags, dimensions, derive_event_tags, context_value, url_of, identity_of,
}
use crocuta.Events.Parts.{EventJson}

abbrev pub or_tag : Option Bytes → Option Bytes → Option Bytes
or_tag (some value) other = some value
or_tag none other = other

abbrev pub not_empty : Bytes → Option Bytes
not_empty [] = none
not_empty (c ∷ value) = some (c ∷ value)

-- The first value of the key that is not empty.
abbrev pub first_value : Bytes → List (Bytes × Bytes) → Option Bytes
first_value key [] = none
first_value key ((k, value) ∷ more) =
    if equal k key then or_tag (not_empty value) (first_value key more) else first_value key more

or_tag-none : (t : Option Bytes) → t ≡ or_tag t none
or_tag-none none = refl
or_tag-none (some value) = refl

or_tag_assoc : (s t u : Option Bytes) → or_tag (or_tag s t) u ≡ or_tag s (or_tag t u)
or_tag_assoc none t u = refl
or_tag_assoc (some value) t u = refl

at_key : (k key : Bytes) (tags : Dict Bytes) → equal k key ≡ true → lookup key tags ≡ lookup k tags
at_key k key tags h = ap (λ (j : Bytes). lookup j tags) (sym ((equal_iff k key).0 h))

lookup-set_missing :
    (k value : Bytes) (found : Option Bytes) (tags : Dict Bytes) (key : Bytes)
    → lookup k tags ≡ found
    → lookup key (set_missing k value found tags)
      ≡ or_tag (lookup key tags) (if equal k key then not_empty value else none)
lookup-set_missing k [] found tags key e = elim (Bool-cases (equal k key)) [
  | inl h ↦ rw h (or_tag-none (lookup key tags))
  | inr h ↦ rw h (or_tag-none (lookup key tags))
]
lookup-set_missing k (c ∷ value) none tags key e = elim (Bool-cases (equal k key)) [
  | inl h ↦ rw (lookup-insert k key (c ∷ value) tags, h, at_key k key tags h ∙ e) refl
  | inr h ↦ rw (lookup-insert k key (c ∷ value) tags, h) (or_tag-none (lookup key tags))
]
lookup-set_missing k (c ∷ value) (some other) tags key e = elim (Bool-cases (equal k key)) [
  | inl h ↦ rw (h, at_key k key tags h ∙ e) refl
  | inr h ↦ rw h (or_tag-none (lookup key tags))
]

lookup-set_tags :
    (ds : List (Bytes × Bytes)) (tags : Dict Bytes) (key : Bytes)
    → lookup key (set_tags ds tags) ≡ or_tag (lookup key tags) (first_value key ds)
unfolding set_tags
lookup-set_tags [] tags key = or_tag-none (lookup key tags)
lookup-set_tags ((k, value) ∷ more) tags key =
    lookup-set_tags more (set_missing k value (lookup k tags) tags) key
    ∙ rw (lookup-set_missing k value (lookup k tags) tags key refl) (
        or_tag_assoc (lookup key tags) (if equal k key then not_empty value else none)
          (first_value key more)
        ∙ ap (or_tag (lookup key tags)) (first_or (equal k key) value (first_value key more)))
  where
    first_or :
        (b : Bool) (value : Bytes) (other : Option Bytes)
        → or_tag (if b then not_empty value else none) other
          ≡ (if b then or_tag (not_empty value) other else other)
    first_or true value other = refl
    first_or false value other = refl

-- What a key has: the tag of the event itself, or else the first value in the table of derived ones.
lookup-dimensions :
    (json : EventJson) (event : CanonicalEvent) (key : Bytes)
    → lookup key (derive_event_tags json event).tags
      ≡ or_tag (lookup key event.tags) (first_value key (dimensions json event))
unfolding derive_event_tags
lookup-dimensions json event key = lookup-set_tags (dimensions json event) event.tags key

-- The keys that deriveEventTags sets.
abbrev pub derived_keys : List Bytes
derived_keys =
    codes "browser.name"
    ∷ codes "browser.version"
    ∷ codes "os.name"
    ∷ codes "os.version"
    ∷ codes "runtime.name"
    ∷ codes "runtime.version"
    ∷ codes "release"
    ∷ codes "environment"
    ∷ codes "dist"
    ∷ codes "transaction"
    ∷ codes "url"
    ∷ codes "user.id"
    ∷ []

-- A key has the tag of the event itself, or else the value, where that is not empty.
abbrev Gives : Dict Bytes → Dict Bytes → Bytes → Bytes → Type 0
Gives before after key value = lookup key after ≡ or_tag (lookup key before) (not_empty value)

-- Each tag from its own field, and no tag more.
pub record IsDerived (json : EventJson) (event : CanonicalEvent) (tags : Dict Bytes) : Type 0 where
  pub browser_name :
      Gives event.tags tags
        (codes "browser.name")
        (context_value json event.contexts (codes "browser") (codes "name"))
  pub browser_version :
      Gives event.tags tags
        (codes "browser.version")
        (context_value json event.contexts (codes "browser") (codes "version"))
  pub os_name :
      Gives event.tags tags
        (codes "os.name")
        (context_value json event.contexts (codes "os") (codes "name"))
  pub os_version :
      Gives event.tags tags
        (codes "os.version")
        (context_value json event.contexts (codes "os") (codes "version"))
  pub runtime_name :
      Gives event.tags tags
        (codes "runtime.name")
        (context_value json event.contexts (codes "runtime") (codes "name"))
  pub runtime_version :
      Gives event.tags tags
        (codes "runtime.version")
        (context_value json event.contexts (codes "runtime") (codes "version"))
  pub release : Gives event.tags tags (codes "release") event.release
  pub environment : Gives event.tags tags (codes "environment") event.environment
  pub dist : Gives event.tags tags (codes "dist") event.dist
  pub transaction : Gives event.tags tags (codes "transaction") event.transaction
  pub url : Gives event.tags tags (codes "url") (url_of json event.request)
  pub user_id : Gives event.tags tags (codes "user.id") (identity_of json event.user)
  pub others :
      (key : Bytes)
      → All (λ k. equal k key ≡ false) derived_keys
      → lookup key tags ≡ lookup key event.tags

first_value-none :
    (key : Bytes) (ds : List (Bytes × Bytes))
    → All (λ d. equal d.0 key ≡ false) ds
    → first_value key ds ≡ none
first_value-none key [] h = refl
first_value-none key ((k, value) ∷ more) h = rw h.0 (first_value-none key more h.1)

-- After deriveEventTags each of the twelve derived keys has the tag that the event itself gives it, or else
-- the value of its own field, where that is not empty: the name and the version of the browser, the os and
-- the runtime in the contexts, the release, the environment, the distribution, the transaction, the url of
-- the request, and the identity of the user. Every other key has the tag that it had.
pub derive_event_tags-IsDerived :
    (json : EventJson) (event : CanonicalEvent)
    → IsDerived json event (derive_event_tags json event).tags
unfolding equal
derive_event_tags-IsDerived json event = record {
  browser_name = at (codes "browser.name") _ refl;
  browser_version = at (codes "browser.version") _ refl;
  os_name = at (codes "os.name") _ refl;
  os_version = at (codes "os.version") _ refl;
  runtime_name = at (codes "runtime.name") _ refl;
  runtime_version = at (codes "runtime.version") _ refl;
  release = at (codes "release") _ refl;
  environment = at (codes "environment") _ refl;
  dist = at (codes "dist") _ refl;
  transaction = at (codes "transaction") _ refl;
  url = at (codes "url") _ refl;
  user_id = at (codes "user.id") _ refl;
  others = λ key h.
      lookup-dimensions json event key
      ∙ rw (first_value-none key (dimensions json event) h)
          (sym (or_tag-none (lookup key event.tags)));
}
  where
    at :
        (key value : Bytes)
        → first_value key (dimensions json event) ≡ or_tag (not_empty value) none
        → Gives event.tags (derive_event_tags json event).tags key value
    at key value h =
        lookup-dimensions json event key
        ∙ rw h (ap (or_tag (lookup key event.tags)) (sym (or_tag-none (not_empty value))))
