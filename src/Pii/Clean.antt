-- ===== src/Pii/Clean.antt =====
-- scrubValue of internal/sentryx/pii.go, field by field, against what the rules and the configuration say of
-- each field. What scrubText makes of a text is left open.
use crocuta.Prelude.{
  ◌≡◌, refl, Bool, true, false, [], Option, none, some, Bytes, codes, equal, Bool-cases, inl, inr,
}
use crocuta.Store.Digest.{Sha}
use crocuta.Pii.{
  PiiConfig, Regexps, PiiProcessor, new_pii_processor, Meta, redact, join_selector_path,
}
use crocuta.Pii.Scrub.{
  Value, null, boolean, number, text, array, object, Elements, nil, element, Members, end, member,
  Codec, Redaction, is_left, action_for, scrub_value, scrub_member, scrub_elements, scrub_members,
  scrub_json,
}
use crocuta.Pii.Hidden.{Fate, stays, gone, becomes, scrubbed_below, fate, fate-action_for}

-- The members that a field and those behind it leave.
abbrev pub Leaves : Fate → Bytes → Value → (Value → Type 0) → (Members → Type 0) → Members → Type 0
Leaves stays key v below behind ws = (rest : Members) × (ws ≡ member key v rest) × behind rest
Leaves gone key v below behind ws = behind ws
Leaves (becomes s) key v below behind ws =
    (rest : Members) × (ws ≡ member key (text s) rest) × behind rest
Leaves scrubbed_below key v below behind ws =
    (w : Value) × (rest : Members) × (ws ≡ member key w rest) × below w × behind rest

module _ (rx : Regexps) (sha : Sha) (codec : Codec) where
  -- The second value is the first one with what the fate of each field leaves, at every depth.
  unfoldable mutual
    pub IsCleaned : PiiProcessor rx → Bytes → Value → Value → Type 0
    IsCleaned p path null w = w ≡ null
    IsCleaned p path (boolean b) w = w ≡ boolean b
    IsCleaned p path (number s) w = w ≡ number s
    IsCleaned p path (text s) w = (t : Bytes) × (w ≡ text t)
    IsCleaned p path (array vs) w = (ws : Elements) × (w ≡ array ws) × AreCleaned p path vs ws
    IsCleaned p path (object ms) w = (ws : Members) × (w ≡ object ws) × HaveCleaned p path ms ws

    pub AreCleaned : PiiProcessor rx → Bytes → Elements → Elements → Type 0
    AreCleaned p path nil ws = ws ≡ nil
    AreCleaned p path (element v vs) ws =
        (w : Value) × (rest : Elements) × (ws ≡ element w rest)
        × IsCleaned p path v w
        × AreCleaned p path vs rest

    pub HaveCleaned : PiiProcessor rx → Bytes → Members → Members → Type 0
    HaveCleaned p path end ws = ws ≡ end
    HaveCleaned p path (member key v ms) ws =
        Leaves (fate rx sha codec p key (join_selector_path path key) v) key v
          (IsCleaned p (join_selector_path path key) v) (HaveCleaned p path ms) ws

  scrub_member-Leaves :
      (p : PiiProcessor rx) (key at : Bytes) (v : Value) (left : Bool) (found : Option Redaction)
      (below : Meta → Value × Meta) (behind : Meta → Members × Meta) (meta : Meta)
      (Below : Value → Type 0) (Behind : Members → Type 0)
      → is_left rx p key at ≡ left
      → action_for rx p key at v ≡ found
      → ((m : Meta) → Below (below m).0)
      → ((m : Meta) → Behind (behind m).0)
      → Leaves
          (fate rx sha codec p key at v)
          key
          v
          Below
          Behind
          (scrub_member rx sha codec key at v left found below behind meta).0
  unfolding fate scrub_member redact
  scrub_member-Leaves p key at v true found below behind meta Below Behind e f one rest =
      rw e ((behind meta).0, refl, rest meta)
  scrub_member-Leaves p key at v false none below behind meta Below Behind e f one rest =
      rw (fate-action_for rx sha codec p key at v e, f)
        ((below meta).0, (behind (below meta).1).0, refl, one meta, rest (below meta).1)
  scrub_member-Leaves p key at v false (some a) below behind meta Below Behind e f one rest =
      elim (Bool-cases (equal a.action (codes "remove"))) [
        | inl away ↦ rw (fate-action_for rx sha codec p key at v e, f, away) (rest _)
        | inr kept ↦ rw (fate-action_for rx sha codec p key at v e, f, kept) (_, refl, rest _)
      ]

  mutual
    unfolding IsCleaned scrub_value

    scrub_value-IsCleaned :
        (p : PiiProcessor rx) (path : Bytes) (v : Value) (meta : Meta)
        → IsCleaned p path v (scrub_value rx sha codec p path v meta).0
    scrub_value-IsCleaned p path null meta = refl
    scrub_value-IsCleaned p path (boolean b) meta = refl
    scrub_value-IsCleaned p path (number s) meta = refl
    scrub_value-IsCleaned p path (text s) meta = (_, refl)
    scrub_value-IsCleaned p path (array vs) meta =
        (_, refl, scrub_elements-AreCleaned p path vs meta)
    scrub_value-IsCleaned p path (object ms) meta =
        (_, refl, scrub_members-HaveCleaned p path ms meta)

    scrub_elements-AreCleaned :
        (p : PiiProcessor rx) (path : Bytes) (vs : Elements) (meta : Meta)
        → AreCleaned p path vs (scrub_elements rx sha codec p path vs meta).0
    scrub_elements-AreCleaned p path nil meta = refl
    scrub_elements-AreCleaned p path (element v vs) meta = (
      _,
      _,
      refl,
      scrub_value-IsCleaned p path v meta,
      scrub_elements-AreCleaned p path vs (scrub_value rx sha codec p path v meta).1,
    )

    scrub_members-HaveCleaned :
        (p : PiiProcessor rx) (path : Bytes) (ms : Members) (meta : Meta)
        → HaveCleaned p path ms (scrub_members rx sha codec p path ms meta).0
    scrub_members-HaveCleaned p path end meta = refl
    scrub_members-HaveCleaned p path (member key v ms) meta =
        let at : Bytes = join_selector_path path key in
        scrub_member-Leaves p key at v (is_left rx p key at) (action_for rx p key at v)
          (scrub_value rx sha codec p at v) (scrub_members rx sha codec p path ms) meta
          (IsCleaned p at v) (HaveCleaned p path ms) refl refl (scrub_value-IsCleaned p at v)
          (scrub_members-HaveCleaned p path ms)

  -- What ScrubJSON writes, with scrubbing on, for a payload that is JSON: the value of the payload, in which
  -- at every depth `_meta` and the safe fields are as they were; a field that a rule names is gone where the
  -- first such rule removes, and holds "sha256:" and the digest of its own text where it hashes, the rule's
  -- replacement where it replaces and has one, and "[Filtered]" otherwise; a field without a rule that is an
  -- address, has a key of the pattern, holds a card number or is listed, as the configuration says, holds
  -- "[Filtered]"; and any other field is there with its value scrubbed in the same way, a text as some text.
  pub scrub_json-IsCleaned :
      (config : PiiConfig) (payload : Bytes) (v : Value)
      → config.enabled ≡ true
      → codec.unmarshal payload ≡ some v
      → (w : Value) × (scrub_json rx sha codec payload config ≡ codec.marshal w)
        × IsCleaned (new_pii_processor rx config) [] v w
  unfolding scrub_json
  scrub_json-IsCleaned config payload v on read =
      let p : PiiProcessor rx = new_pii_processor rx config in
      ((scrub_value rx sha codec p [] v []).0, rw (on, read) refl, scrub_value-IsCleaned p [] v [])
