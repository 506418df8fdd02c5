-- ===== src/Envelope/Policy.antt =====
-- internal/sentryx/item_policy.go: which items of an envelope the relay keeps, and the envelope that it
-- makes of them. The counters are left out; SHA-256 is a parameter.
pub mod Kept
use Prim.Native.Nat.{bit_or}
use crocuta.Prelude.{
  ℕ, ◌+◌, ◌-◌, ◌*◌, ◌%◌, Bool, true, false, not, ◌&&◌, ◌||◌, List, [], ◌∷◌, ◌++◌, Option, none,
  some, if◌then◌else◌, ltb, leb, ◌==◌, Bytes, codes, equal, Dict, lookup, insert, cut, split,
  has_prefix, trim_prefix, trim_space, to_lower, length, get_or, filter_by,
}
use crocuta.Prelude.Int.{ℤ, pos, neg, pos_part, leb_ℤ}
use crocuta.Store.Digest.{Sha, hex_encode}
use crocuta.Envelope.{
  Json, EnvelopeItem, Parsed, ok, err, EnvelopeError, parse_envelope, next_line, line_of,
}
use crocuta.Envelope.RoundTrip.{write_items}

abbrev pub is_set : Bytes → Bool
is_set s = not (equal s [])

abbrev pub is_policy_action : Bytes → Bool
is_policy_action action =
    equal action (codes "store")
    || equal action (codes "drop")
    || has_prefix action (codes "sample:")

-- One entry of the policy's text, split at its first colon.
abbrev pub add_policy : Option (Bytes × Bytes) → Dict Bytes → Dict Bytes
add_policy none policy = policy
add_policy (some (type, text)) policy =
    let action = to_lower (trim_space text) in
    if not (is_set (trim_space type))
    then policy
    else if not (is_policy_action action)
    then policy
    else insert (trim_space type) action policy

unfoldable pub parse_policy_entries : List Bytes → Dict Bytes → Dict Bytes
parse_policy_entries [] policy = policy
parse_policy_entries (entry ∷ rest) policy =
    parse_policy_entries rest (add_policy (cut b':' (trim_space entry)) policy)

unfoldable pub parse_item_policy : Bytes → Dict Bytes
parse_item_policy value = parse_policy_entries (split b',' value) []

unfoldable pub is_extended_signal_type : Bytes → Bool
is_extended_signal_type type =
    equal type (codes "log")
    || equal type (codes "transaction")
    || equal type (codes "span")
    || equal type (codes "replay_event")
    || equal type (codes "replay_recording")
    || equal type (codes "profile")
    || equal type (codes "profile_chunk")
    || equal type (codes "session")
    || equal type (codes "sessions")
    || equal type (codes "minidump")
    || equal type (codes "unreal_report")
    || equal type (codes "applecrashreport")

unfoldable pub is_known_envelope_item_type : Bytes → Bool
is_known_envelope_item_type type =
    equal type (codes "event")
    || equal type (codes "error")
    || equal type (codes "client_report")
    || equal type (codes "attachment")
    || is_extended_signal_type type

-- The digits of strconv.Atoi, and 0 where it fails. A number past the machine's is left as it is: it is
-- over 100 all the same.
abbrev pub digits_onto : ℕ → Bytes → Option ℕ
digits_onto n [] = some n
digits_onto n (c ∷ cs) =
    let rest = digits_onto (n * 10 + (c - b'0')) cs in
    if leb b'0' c && leb c b'9' then rest else none

abbrev pub number_or_zero : Bytes → ℕ
number_or_zero [] = 0
number_or_zero (c ∷ cs) = elim (digits_onto 0 (c ∷ cs)) [ none ↦ 0 | some n ↦ n ]

unfoldable pub atoi : Bytes → ℤ
atoi [] = pos 0
atoi (c ∷ cs) =
    if c == b'-'
    then neg (pos (number_or_zero cs))
    else if c == b'+'
    then pos (number_or_zero cs)
    else pos (number_or_zero (c ∷ cs))

unfoldable pub hash_sample : Sha → Bytes → ℕ
hash_sample sha value = bit_or (get_or (sha.sum256 value) 0 0 * 256) (get_or (sha.sum256 value) 1 0)

abbrev pub configured : Option Bytes → Bytes
configured none = []
configured (some action) = to_lower (trim_space action)

abbrev pub first_set : List Bytes → Bytes
first_set [] = []
first_set (s ∷ rest) = if is_set s then s else first_set rest

abbrev pub or_no_text : Option Bytes → Bytes
or_no_text none = []
or_no_text (some s) = s

module _ (json : Json) (sha : Sha) where
  abbrev pub sample_id : EnvelopeItem json → Bytes
  sample_id item = first_set (
      item.event_id
      ∷ or_no_text (json.session_id item.header)
      ∷ hex_encode (sha.sum256 item.payload)
      ∷ [])

  unfoldable pub action : Dict Bytes → EnvelopeItem json → Bytes
  action policy item =
      let action = configured (lookup item.type policy) in
      if not (is_set action)
      then (if is_known_envelope_item_type item.type then codes "store" else codes "drop")
      else if has_prefix action (codes "sample:")
      then (let percent = atoi (trim_prefix action (codes "sample:")) in
          if leb_ℤ percent (pos 0)
            || leb (pos_part percent) (hash_sample sha (sample_id item ++ (b':' ∷ item.type)) % 100)
          then codes "drop"
          else codes "store")
      else action

  abbrev pub is_kept : Dict Bytes → EnvelopeItem json → Bool
  is_kept policy item = not (equal (action policy item) (codes "drop"))

  -- The envelope of the items that are kept, and how many are not.
  abbrev pub rebuilt :
      Dict Bytes → Parsed (List (EnvelopeItem json)) → Parsed (Bytes × Bytes) → Parsed (Bytes × ℕ)
  rebuilt policy (err e) line = err e
  rebuilt policy (ok items) (err e) = err e
  rebuilt policy (ok items) (ok (header, rest)) =
      let kept = filter_by (is_kept policy) items in
      ok (header ++ (b'\n' ∷ write_items json kept), length items - length kept)

  unfoldable pub apply_item_policy : Dict Bytes → Bytes → Parsed (Bytes × ℕ)
  apply_item_policy [] body = ok (body, 0)
  apply_item_policy (entry ∷ policy) body =
      rebuilt (entry ∷ policy) (parse_envelope json body) (next_line body)
