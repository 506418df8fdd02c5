-- ===== src/Pii/Reported.antt =====
-- Which fields the metadata of scrubValue of internal/sentryx/pii.go names, of those that actionFor acts on.
-- The secrets that scrubText replaces inside a text leave no metadata.
use crocuta.Prelude.{
  ◌≡◌, refl, Bool, true, false, ◌&&◌, ◌||◌, [], ◌∷◌, Option, none, some, Bytes, equal_refl,
  lookup-insert, arith,
}
use crocuta.Store.Digest.{Sha}
use crocuta.Pii.{Regexps, PiiProcessor, Meta, redact, join_selector_path, has_none}
use crocuta.Pii.Scrub.{
  Value, null, boolean, number, text, array, object, Elements, nil, element, Members, end, member,
  Codec, Redaction, string_value, is_left, action_for, scrub_value, scrub_member, scrub_elements,
  scrub_members,
}
use crocuta.Pii.Meta.{
  names_path, Grows, scrub_value-Grows, scrub_elements-Grows, scrub_members-Grows,
}

both_mono :
    {a b c d : Bool}
    → (a ≡ true → b ≡ true)
    → (c ≡ true → d ≡ true)
    → (a && c) ≡ true
    → (b && d) ≡ true
both_mono f g h = ground (arith, f, g)

or_mono :
    (left : Bool) {a b : Bool} → (a ≡ true → b ≡ true) → (left || a) ≡ true → (left || b) ≡ true
or_mono true f h = refl
or_mono false f h = f h

both_true : {a b : Bool} → a ≡ true → b ≡ true → (a && b) ≡ true
both_true f g = rw (f, g) refl

module _ (rx : Regexps) where
  abbrev tells : Option Redaction → Bytes → Meta → Bool → Bool
  tells none path meta below = below
  tells (some a) path meta below = has_none path || names_path meta path

  -- The metadata names each field with an action of its own.
  unfoldable mutual
    pub is_reported : PiiProcessor rx → Bytes → Meta → Value → Bool
    is_reported p path meta (array vs) = are_reported p path meta vs
    is_reported p path meta (object ms) = has_reported p path meta ms
    is_reported p path meta v = true

    pub are_reported : PiiProcessor rx → Bytes → Meta → Elements → Bool
    are_reported p path meta nil = true
    are_reported p path meta (element v vs) =
        is_reported p path meta v && are_reported p path meta vs

    pub has_reported : PiiProcessor rx → Bytes → Meta → Members → Bool
    has_reported p path meta end = true
    has_reported p path meta (member key v ms) =
        (is_left rx p key (join_selector_path path key)
          || tells (action_for rx p key (join_selector_path path key) v)
              (join_selector_path path key) meta
              (is_reported p (join_selector_path path key) meta v))
        && has_reported p path meta ms

  tells_mono :
      (a : Option Redaction) (path : Bytes) (m n : Meta) (b c : Bool)
      → Grows m n
      → (b ≡ true → c ≡ true)
      → tells a path m b ≡ true
      → tells a path n c ≡ true
  tells_mono none path m n b c g h e = h e
  tells_mono (some a) path m n b c g h e = ground (arith, g path)

  mutual
    unfolding is_reported

    is_reported_mono :
        (p : PiiProcessor rx) (path : Bytes) (v : Value) (m n : Meta)
        → Grows m n
        → is_reported p path m v ≡ true
        → is_reported p path n v ≡ true
    is_reported_mono p path null m n g h = refl
    is_reported_mono p path (boolean b) m n g h = refl
    is_reported_mono p path (number s) m n g h = refl
    is_reported_mono p path (text s) m n g h = refl
    is_reported_mono p path (array vs) m n g h = are_reported_mono p path vs m n g h
    is_reported_mono p path (object ms) m n g h = has_reported_mono p path ms m n g h

    are_reported_mono :
        (p : PiiProcessor rx) (path : Bytes) (vs : Elements) (m n : Meta)
        → Grows m n
        → are_reported p path m vs ≡ true
        → are_reported p path n vs ≡ true
    are_reported_mono p path nil m n g h = refl
    are_reported_mono p path (element v vs) m n g h =
        both_mono (is_reported_mono p path v m n g) (are_reported_mono p path vs m n g) h

    has_reported_mono :
        (p : PiiProcessor rx) (path : Bytes) (ms : Members) (m n : Meta)
        → Grows m n
        → has_reported p path m ms ≡ true
        → has_reported p path n ms ≡ true
    has_reported_mono p path end m n g h = refl
    has_reported_mono p path (member key v ms) m n g h =
        both_mono
          (or_mono (is_left rx p key (join_selector_path path key)) (
            tells_mono (action_for rx p key (join_selector_path path key) v)
              (join_selector_path path key) m n _ _ g
              (is_reported_mono p (join_selector_path path key) v m n g)))
          (has_reported_mono p path ms m n g) h

  module _ (sha : Sha) (codec : Codec) where
    names_path-redact :
        (reason value action replacement path : Bytes) (meta : Meta)
        → (has_none path
            || names_path (redact sha reason value action replacement path meta).1 path)
          ≡ true
    unfolding redact
    names_path-redact reason value action replacement [] meta = refl
    names_path-redact reason value action replacement (c ∷ path) meta =
        rw (lookup-insert (c ∷ path) (c ∷ path) reason meta, equal_refl (c ∷ path)) refl

    has_reported-scrub_member :
        (p : PiiProcessor rx) (path key : Bytes) (v : Value) (ms : Members) (left : Bool)
        (found : Option Redaction) (below : Meta → Value × Meta) (behind : Meta → Members × Meta)
        (meta : Meta)
        → is_left rx p key (join_selector_path path key) ≡ left
        → action_for rx p key (join_selector_path path key) v ≡ found
        → ((m : Meta) → is_reported p (join_selector_path path key) (below m).1 v ≡ true)
        → ((m : Meta) → has_reported p path (behind m).1 ms ≡ true)
        → ((m : Meta) → Grows m (behind m).1)
        → has_reported p path
            (scrub_member rx sha codec key
              (join_selector_path path key)
              v
              left
              found
              below
              behind
              meta).1
            (member key v ms)
          ≡ true
    unfolding is_reported scrub_member
    has_reported-scrub_member p path key v ms true found below behind meta e f one rest g =
        rw (e, rest meta) refl
    has_reported-scrub_member p path key v ms false none below behind meta e f one rest g =
        rw
          (
            e,
            f,
            is_reported_mono p (join_selector_path path key) v (below meta).1 _ (g (below meta).1)
                (one meta),
            rest (below meta).1,
          )
          refl
    has_reported-scrub_member p path key v ms false (some a) below behind meta e f one rest g =
        rw (e, f)
          (both_true
            (tells_mono (some a) (join_selector_path path key) _ _ true true (g _) (λ h. h)
              (names_path-redact a.reason (string_value codec v) a.action a.replacement
                (join_selector_path path key) meta))
            (rest _))

    mutual
      unfolding is_reported scrub_value

      is_reported-scrub_value :
          (p : PiiProcessor rx) (path : Bytes) (v : Value) (meta : Meta)
          → is_reported p path (scrub_value rx sha codec p path v meta).1 v ≡ true
      is_reported-scrub_value p path null meta = refl
      is_reported-scrub_value p path (boolean b) meta = refl
      is_reported-scrub_value p path (number s) meta = refl
      is_reported-scrub_value p path (text s) meta = refl
      is_reported-scrub_value p path (array vs) meta = are_reported-scrub_elements p path vs meta
      is_reported-scrub_value p path (object ms) meta = has_reported-scrub_members p path ms meta

      are_reported-scrub_elements :
          (p : PiiProcessor rx) (path : Bytes) (vs : Elements) (meta : Meta)
          → are_reported p path (scrub_elements rx sha codec p path vs meta).1 vs ≡ true
      are_reported-scrub_elements p path nil meta = refl
      are_reported-scrub_elements p path (element v vs) meta =
          let first : Meta = (scrub_value rx sha codec p path v meta).1 in
          both_true
            (is_reported_mono p path v first _ (scrub_elements-Grows rx sha codec p path vs first)
              (is_reported-scrub_value p path v meta))
            (are_reported-scrub_elements p path vs first)

      has_reported-scrub_members :
          (p : PiiProcessor rx) (path : Bytes) (ms : Members) (meta : Meta)
          → has_reported p path (scrub_members rx sha codec p path ms meta).1 ms ≡ true
      has_reported-scrub_members p path end meta = refl
      has_reported-scrub_members p path (member key v ms) meta =
          let at : Bytes = join_selector_path path key in
          has_reported-scrub_member p path key v ms (is_left rx p key at) (action_for rx p key at v)
            (scrub_value rx sha codec p at v) (scrub_members rx sha codec p path ms) meta refl refl
            (is_reported-scrub_value p at v) (has_reported-scrub_members p path ms)
            (scrub_members-Grows rx sha codec p path ms)

    -- After scrubbing a value, at any path and onto any metadata, the metadata names the path of each field
    -- for which actionFor gives an action, at any depth outside the fields that are left or acted on, save a
    -- field whose path is empty, and names still the paths that it named before. What scrubText replaces
    -- inside a text is not covered.
    pub scrub_value-IsReported :
        (p : PiiProcessor rx) (path : Bytes) (v : Value) (meta : Meta)
        → (is_reported p path (scrub_value rx sha codec p path v meta).1 v ≡ true)
          × ((k : Bytes)
              → names_path meta k ≡ true
              → names_path (scrub_value rx sha codec p path v meta).1 k ≡ true)
    scrub_value-IsReported p path v meta =
        (is_reported-scrub_value p path v meta, scrub_value-Grows rx sha codec p path v meta)
